-- ===== src/Host/HexFile/Print.antt =====
-- The lines of a hex file for an image, and that each is read back.
use usb_fwu.Base.{
  ℕ, ◌+◌, ◌-◌, ◌*◌, ◌/◌, ◌%◌, ◌<◌, ◌≡◌, refl, ap, ◌∙◌, arith, true, ◌==◌, ==_iff, List, [], ◌∷◌,
  ◌++◌, length, length-append, take,
}
use usb_fwu.Host.Hex.{ok, read_line}
use usb_fwu.Host.Hex.Line.{hex_line, sum, AllBytes, read_line_lem}

-- The check byte that makes the bytes of a line a multiple of 256.
abbrev pub check_byte : ℕ → ℕ
check_byte total = (256 - total % 256) % 256

abbrev pub line_of : ℕ → ℕ → ℕ → List ℕ → List ℕ
line_of high low kind bytes = hex_line (length bytes) (
    high ∷ low ∷ kind ∷ (bytes ++ (check_byte (length bytes + high + low + kind + sum bytes) ∷ [])))

-- The upper half of an address, and a block of bytes at its lower half.
abbrev pub base_line : ℕ → List ℕ
base_line addr = line_of 0 0 4 ((addr / 65536 / 256) ∷ (addr / 65536 % 256) ∷ [])

abbrev pub data_line : ℕ → List ℕ → List ℕ
data_line addr bytes = line_of (addr % 65536 / 256) (addr % 256) 0 bytes

-- The lines of consecutive blocks from an address on, and the line that ends a file.
abbrev pub image_lines : ℕ → List (List ℕ) → List (List ℕ)
image_lines addr [] = line_of 0 0 1 [] ∷ []
image_lines addr (block ∷ blocks) =
    base_line addr ∷ data_line addr block ∷ image_lines (addr + length block) blocks

abbrev pub image_of : List (List ℕ) → List ℕ
image_of [] = []
image_of (block ∷ blocks) = block ++ image_of blocks

-- Blocks of 1 to 255 bytes.
abbrev pub AreBlocks : List (List ℕ) → Type 0
AreBlocks [] = Unit {0}
AreBlocks (block ∷ blocks) =
    (0 < length block) × (length block < 256) × AllBytes block × AreBlocks blocks

sum-append : (xs ys : List ℕ) → sum (xs ++ ys) ≡ sum xs + sum ys
sum-append [] ys = omega arith
sum-append (x ∷ xs) ys = omega (arith, sum-append xs ys)

AllBytes-append : (xs ys : List ℕ) → AllBytes xs → AllBytes ys → AllBytes (xs ++ ys)
AllBytes-append [] ys h k = k
AllBytes-append (x ∷ xs) ys h k = (h.0, AllBytes-append xs ys h.1 k)

take-all : (xs ys : List ℕ) → take (length xs) (xs ++ ys) ≡ xs
take-all [] ys = refl
take-all (x ∷ xs) ys = ap (λ (r : List ℕ). x ∷ r) (take-all xs ys)

pub read_line_of :
    (high low kind : ℕ) (bytes : List ℕ)
    → high < 256
    → low < 256
    → kind < 256
    → length bytes < 256
    → AllBytes bytes
    → read_line (line_of high low kind bytes)
      ≡ ok (record { line_addr = high * 256 + low; rec_type = kind; bytes = bytes })
read_line_of high low kind bytes hh hl hk small h =
    let check = check_byte (length bytes + high + low + kind + sum bytes) in
    let whole = bytes ++ (check ∷ []) in
    let right : ((length bytes + (high + (low + (kind + sum whole)))) % 256 == 0) ≡ true =
      (==_iff _ 0).1 (omega (arith, sum-append bytes (check ∷ []))) in
    read_line_lem (length bytes) (high ∷ low ∷ kind ∷ whole) small
      (hh, (hl, (hk, AllBytes-append bytes (check ∷ []) h (omega arith, tt))))
      (omega (arith, length-append bytes (check ∷ [])))
    ∙ rw right (
        ap
          (λ (b : List ℕ). ok (record { line_addr = high * 256 + low; rec_type = kind; bytes = b }))
          (take-all bytes (check ∷ [])))
