-- ===== src/Host/Hex/Line.antt =====
-- A line of an Intel hex file, written with two digits to a byte, is read back.
use usb_fwu.Base.{
  ℕ, zero, suc, ◌+◌, ◌-◌, ◌*◌, ◌/◌, ◌%◌, ◌^◌, ◌≤◌, ◌<◌, ◌≡◌, ◌≢◌, refl, ap, ap₂, ◌∙◌, arith, Bool,
  true, false, Bool-cases, inl, inr, ◌==◌, ==_iff, every_below, every_below-true, ltb,
  if◌then◌else◌, u32, bit_or, Option, none, some, List, [], ◌∷◌, length, length-set, get_or, set,
  take, drop,
}
use usb_fwu.Base.Digits.{bit_or_fields}
use usb_fwu.Host.Hex.{
  crc_error, ok, err, hexchar_to_bin, hexbyte_to_bin, next_byte, address_byte, skip_whitespaces,
  read_data, HexRecord, read_fields, read_line,
}

abbrev pub hex_digit : ℕ → ℕ
hex_digit d = if ltb d 10 then d + b'0' else d - 10 + b'A'

-- Two digits for each byte, and what follows.
abbrev pub hex_bytes : List ℕ → List ℕ → List ℕ
hex_bytes [] rest = rest
hex_bytes (b ∷ bs) rest = hex_digit (b / 16) ∷ hex_digit (b % 16) ∷ hex_bytes bs rest

-- A line: the number of data bytes, then the address, the type, the data and the check byte.
abbrev pub hex_line : ℕ → List ℕ → List ℕ
hex_line num body = b':' ∷ hex_bytes (num ∷ body) (10 ∷ [])

abbrev pub sum : List ℕ → ℕ
sum [] = 0
sum (x ∷ xs) = x + sum xs

abbrev pub AllBytes : List ℕ → Type 0
AllBytes [] = Unit {0}
AllBytes (x ∷ xs) = (x < 256) × AllBytes xs

is_byte : Option ℕ → ℕ → Bool
is_byte none b = false
is_byte (some a) b = a == b

is_byte-some : (o : Option ℕ) (b : ℕ) → is_byte o b ≡ true → o ≡ some b
unfolding is_byte
is_byte-some none b h = cc
is_byte-some (some a) b h = ap some ((==_iff a b).0 h)

digits :
    every_below (λ b. is_byte (hexbyte_to_bin (hex_digit (b / 16) ∷ hex_digit (b % 16) ∷ [])) b) 256
    ≡ true
unfolding every_below hexbyte_to_bin is_byte
digits = refl

hexbyte_to_bin-hex :
    (b : ℕ) (rest : List ℕ)
    → b < 256
    → hexbyte_to_bin (hex_digit (b / 16) ∷ hex_digit (b % 16) ∷ rest) ≡ some b
unfolding hexbyte_to_bin
hexbyte_to_bin-hex b rest h =
    is_byte-some (hexbyte_to_bin (hex_digit (b / 16) ∷ hex_digit (b % 16) ∷ [])) b (
      every_below-true
        (λ c. is_byte (hexbyte_to_bin (hex_digit (c / 16) ∷ hex_digit (c % 16) ∷ [])) c) 256 b h
        digits)

next_byte-hex :
    (b : ℕ) (rest : List ℕ)
    → b < 256
    → next_byte (hex_digit (b / 16) ∷ hex_digit (b % 16) ∷ rest) ≡ ok (b, rest)
unfolding next_byte
next_byte-hex b rest h = rw (hexbyte_to_bin-hex b rest h, next_byte)

address_byte-hex :
    (b : ℕ) (rest : List ℕ)
    → b < 256
    → address_byte (hex_digit (b / 16) ∷ hex_digit (b % 16) ∷ rest) ≡ (b, rest)
unfolding address_byte
address_byte-hex b rest h = rw (hexbyte_to_bin-hex b rest h, address_byte)

-- All but the last of the bytes are data.
read_data-hex :
    (n : ℕ) (bs rest : List ℕ) (crc : ℕ)
    → length bs ≡ n + 1
    → AllBytes bs
    → crc < 2 ^ 32
    → read_data n (hex_bytes bs rest) crc
      ≡ ok (take n bs, hex_bytes (drop n bs) rest, u32 (crc + sum (take n bs)))
unfolding read_data
read_data-hex zero bs rest crc e h lt = ap (λ (c : ℕ). ok ([], hex_bytes bs rest, c)) (omega arith)
read_data-hex (suc n) [] rest crc e h lt = absurd (omega arith)
read_data-hex (suc n) (b ∷ bs) rest crc e (hb, hbs) lt =
    rw (next_byte-hex b (hex_bytes bs rest) hb) (
      rw (read_data-hex n bs rest (u32 (crc + b)) (omega arith) hbs (omega arith))
        (ap (λ (c : ℕ). ok (b ∷ take n bs, hex_bytes (drop n bs) rest, c)) (omega arith)))

sum-take : (n : ℕ) (xs : List ℕ) → length xs ≡ n + 1 → sum xs ≡ sum (take n xs) + get_or xs n 0
sum-take n [] e = absurd (omega arith)
sum-take zero (x ∷ []) e = omega arith
sum-take zero (x ∷ y ∷ ys) e = absurd (omega arith)
sum-take (suc n) (x ∷ xs) e = omega (arith, sum-take n xs (omega arith))

-- The last byte of a list
drop-last : (n : ℕ) (xs : List ℕ) → length xs ≡ n + 1 → drop n xs ≡ get_or xs n 0 ∷ []
drop-last n [] e = absurd (omega arith)
drop-last zero (x ∷ []) e = refl
drop-last zero (x ∷ y ∷ ys) e = absurd (omega arith)
drop-last (suc n) (x ∷ xs) e = drop-last n xs (omega arith)

get_or-byte : (xs : List ℕ) (i : ℕ) → AllBytes xs → get_or xs i 0 < 256
get_or-byte [] i h = omega arith
get_or-byte (x ∷ xs) zero h = h.0
get_or-byte (x ∷ xs) (suc i) h = get_or-byte xs i h.1

sum-le : (xs : List ℕ) → AllBytes xs → sum xs ≤ 255 * length xs
sum-le [] h = omega arith
sum-le (x ∷ xs) h = omega (arith, sum-le xs h.1, h.0)

-- the fields that a line of bytes states
abbrev pub record_of : ℕ → List ℕ → HexRecord
record_of num body = record {
  line_addr = get_or body 0 0 * 256 + get_or body 1 0;
  rec_type = get_or body 2 0;
  bytes = take num (drop 3 body);
}

-- A line with two digits to each byte and as many data bytes as it states is read as these bytes
-- exactly if all its bytes together are a multiple of 256; else it is refused for its checksum.
pub read_line_lem :
    (num : ℕ) (body : List ℕ)
    → num < 256
    → AllBytes body
    → length body ≡ num + 4
    → read_line (hex_line num body)
      ≡ (if (num + sum body) % 256 == 0 then ok (record_of num body) else err crc_error)
unfolding read_line skip_whitespaces read_fields
read_line_lem num [] small h e = absurd (omega arith)
read_line_lem num (a ∷ []) small h e = absurd (omega arith)
read_line_lem num (a ∷ b ∷ []) small h e = absurd (omega arith)
read_line_lem num (high ∷ low ∷ kind ∷ more) small (hh, (hl, (hk, hm))) e =
    let crc = u32 (num + high + low + kind) in
    let last : ℕ = get_or more num 0 in
    let size : length more ≡ num + 1 = omega arith in
    let total : (u32 (u32 (crc + sum (take num more)) + last) % 256)
        ≡ (num + (high + (low + (kind + sum more)))) % 256 =
      omega (arith, sum-take num more size) in
    let place : bit_or (u32 (high * 256)) low ≡ high * 256 + low =
      let fits : u32 (high * 256) ≡ high * 2 ^ 8 = omega arith in
      ap (λ (x : ℕ). bit_or x low) fits ∙ bit_or_fields 8 high low hl in
    rw
      (
        next_byte-hex num (hex_bytes (high ∷ low ∷ kind ∷ more) (10 ∷ [])) small,
        address_byte-hex high (hex_bytes (low ∷ kind ∷ more) (10 ∷ [])) hh,
        next_byte-hex low (hex_bytes (kind ∷ more) (10 ∷ [])) hl,
        next_byte-hex kind (hex_bytes more (10 ∷ [])) hk,
        read_data-hex num more (10 ∷ []) crc size hm (omega arith),
        drop-last num more size,
        next_byte-hex last (10 ∷ []) (get_or-byte more num hm),
      )
      (ap₂
        (λ (t : ℕ) (addr : ℕ).
          if t == 0
          then ok (record { line_addr = addr; rec_type = kind; bytes = take num more })
          else err crc_error)
        total place)

sum-set : (xs : List ℕ) (i v : ℕ) → i < length xs → sum (set xs i v) + get_or xs i 0 ≡ sum xs + v
sum-set [] i v h = absurd (omega arith)
sum-set (x ∷ xs) zero v h = omega arith
sum-set (x ∷ xs) (suc i) v h = omega (arith, sum-set xs i v (omega arith))

set-AllBytes : (xs : List ℕ) (i v : ℕ) → AllBytes xs → v < 256 → AllBytes (set xs i v)
set-AllBytes [] i v h k = tt
set-AllBytes (x ∷ xs) zero v h k = (k, h.1)
set-AllBytes (x ∷ xs) (suc i) v h k = (h.0, set-AllBytes xs i v h.1 k)

-- A change of one byte does not pass: if a line with two digits to each byte and as many data bytes
-- as it states has a right checksum, and one byte of its address, type, data or checksum is
-- exchanged for another, the line is refused for its checksum.
pub read_line_corrupt :
    (num : ℕ) (body : List ℕ) (i v : ℕ)
    → num < 256
    → AllBytes body
    → length body ≡ num + 4
    → (num + sum body) % 256 ≡ 0
    → i < length body
    → v < 256
    → v ≢ get_or body i 0
    → read_line (hex_line num (set body i v)) ≡ err crc_error
read_line_corrupt num body i v small h e right inside byte other =
    let new = num + sum (set body i v) in
    let wrong : (new % 256 == 0) ≡ false = elim (Bool-cases (new % 256 == 0)) [
      | inr w ↦ w
      | inl w ↦
          let again : new % 256 ≡ 0 = (==_iff (new % 256) 0).0 w in
          absurd (other (omega (arith, sum-set body i v inside, get_or-byte body i h)))
    ] in
    read_line_lem num (set body i v) small (set-AllBytes body i v h byte) (length-set body i v ∙ e)
    ∙ rw wrong

hexbyte_to_bin-stray :
    (c : ℕ) (rest : List ℕ) → hexchar_to_bin c ≡ none → hexbyte_to_bin (c ∷ rest) ≡ none
unfolding hexbyte_to_bin
hexbyte_to_bin-stray c rest stray = rw (stray, hexbyte_to_bin)

address_byte-stray :
    (c d : ℕ) (rest : List ℕ)
    → hexchar_to_bin c ≡ none
    → address_byte (c ∷ d ∷ rest) ≡ (0xffffffff, rest)
unfolding address_byte
address_byte-stray c d rest stray = rw (hexbyte_to_bin-stray c (d ∷ rest) stray, address_byte)

-- A line in which the first digit of the address is none is not refused for that: if all its other
-- bytes together leave 1 on division by 256 it is read, with the address 0xffffff00 and the low byte
-- on top.
pub read_line_stray :
    (num c d low kind : ℕ) (more : List ℕ)
    → hexchar_to_bin c ≡ none
    → num < 256
    → low < 256
    → kind < 256
    → AllBytes more
    → length more ≡ num + 1
    → (num + low + kind + sum more) % 256 ≡ 1
    → read_line (b':' ∷ hex_bytes (num ∷ []) (c ∷ d ∷ hex_bytes (low ∷ kind ∷ more) (10 ∷ [])))
      ≡ ok (record { line_addr = 0xffffff00 + low; rec_type = kind; bytes = take num more })
unfolding read_line skip_whitespaces read_fields
read_line_stray num c d low kind more stray small hl hk hm size one =
    let crc = u32 (num + 0xffffffff + low + kind) in
    let last : ℕ = get_or more num 0 in
    let total : u32 (u32 (crc + sum (take num more)) + last) % 256 ≡ 0 =
      omega (arith, sum-take num more size) in
    rw
      (
        next_byte-hex num (c ∷ d ∷ hex_bytes (low ∷ kind ∷ more) (10 ∷ [])) small,
        address_byte-stray c d (hex_bytes (low ∷ kind ∷ more) (10 ∷ [])) stray,
        next_byte-hex low (hex_bytes (kind ∷ more) (10 ∷ [])) hl,
        next_byte-hex kind (hex_bytes more (10 ∷ [])) hk,
        read_data-hex num more (10 ∷ []) crc size hm (omega arith),
        drop-last num more size,
        next_byte-hex last (10 ∷ []) (get_or-byte more num hm),
        total,
      )
      (ap (λ (addr : ℕ). ok (record { line_addr = addr; rec_type = kind; bytes = take num more }))
        (bit_or_fields 8 0xffffff low hl))
