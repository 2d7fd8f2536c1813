-- ===== src/Host/Hex.antt =====
-- fwl_src/usbfwu/fwu_hex_processing.cpp: how a line of an Intel hex file is read.
pub mod Line
use usb_fwu.Base.{
  ℕ, zero, suc, ◌+◌, ◌-◌, ◌*◌, ◌%◌, ◌==◌, leb, if◌then◌else◌, ◌&&◌, ◌||◌, u32, bit_and, bit_or,
  Option, none, some, List, [], ◌∷◌, length,
}

-- The errors that `gErrStr` tells, the number of the line left out.
pub data HexErr : Type 0 where
  no_colon : HexErr
  non_hex_char : HexErr
  crc_error : HexErr
  address_overlapping : HexErr
  could_not_add : HexErr
  file_not_defined : HexErr

pub data HexResult (A : Type 0) : Type 0 where
  ok : A → HexResult A
  err : HexErr → HexResult A

infixl 5 ◌>>=◌
abbrev pub ◌>>=◌ : {A B : Type 0} → HexResult A → (A → HexResult B) → HexResult B
ok a >>= f = f a
err e >>= f = err e

-- `none` is -1. The code also takes a signed char, which is then no digit.
unfoldable pub hexchar_to_bin : ℕ → Option ℕ
hexchar_to_bin ch =
    if leb b'0' ch && leb ch b'9'
    then some (ch - b'0')
    else if leb b'a' ch && leb ch b'f'
    then some (10 + (ch - b'a'))
    else if leb b'A' ch && leb ch b'F'
    then some (10 + (ch - b'A'))
    else none

-- A line is the list of what stands in `line_buf` when `fgets` has filled it; NULs follow.
abbrev pub first : List ℕ → ℕ
first [] = 0
first (c ∷ cs) = c

abbrev pub rest_of : List ℕ → List ℕ
rest_of [] = []
rest_of (c ∷ cs) = cs

-- the two digits at `ptr`; the second is not looked at if the first is none
unfoldable pub hexbyte_to_bin : List ℕ → Option ℕ
unfolding hexchar_to_bin
hexbyte_to_bin ptr = elim (hexchar_to_bin (first ptr)) [
  | none ↦ none
  | some hi ↦ elim (hexchar_to_bin (first (rest_of ptr))) [
    | none ↦ none
    | some lo ↦ some (bit_or (bit_and (hi * 16) 0xf0) (bit_and lo 0x0f))
  ]
]

-- `tmp_byte = hexbyte_to_bin(ptr); if(tmp_byte < 0) … ptr += 2;`
unfoldable pub next_byte : List ℕ → HexResult (ℕ × List ℕ)
next_byte ptr = elim (hexbyte_to_bin ptr) [
  | none ↦ err non_hex_char
  | some b ↦ ok (b, rest_of (rest_of ptr))
]

-- The first byte of the address goes into an unsigned variable, so that the test for an error never
-- holds: -1 stays in it.
unfoldable pub address_byte : List ℕ → ℕ × List ℕ
address_byte ptr = elim (hexbyte_to_bin ptr) [
  | none ↦ (0xffffffff, rest_of (rest_of ptr))
  | some b ↦ (b, rest_of (rest_of ptr))
]

unfoldable pub skip_whitespaces : List ℕ → List ℕ
skip_whitespaces [] = []
skip_whitespaces (c ∷ cs) =
    let rest = skip_whitespaces cs in if c == b' ' || c == 9 then rest else c ∷ cs

-- `for(i=0;i<num_bytes;i++)` over the data of a line, with the rounds left, and the sum
unfoldable pub read_data : ℕ → List ℕ → ℕ → HexResult (List ℕ × List ℕ × ℕ)
read_data zero ptr crc = ok ([], ptr, crc)
read_data (suc n) ptr crc = do
  (b, ptr1) ← next_byte ptr
  (bytes, ptr2, crc2) ← read_data n ptr1 (u32 (crc + b))
  ok (b ∷ bytes, ptr2, crc2)

-- What a line holds: `line_addr`, `rec_type` and the `num_bytes` bytes of `line_data`.
pub record HexRecord : Type 0 where
  pub line_addr : ℕ
  pub rec_type : ℕ
  pub bytes : List ℕ

-- behind the colon
unfoldable pub read_fields : List ℕ → HexResult HexRecord
read_fields ptr0 = do
  (num_bytes, ptr1) ← next_byte ptr0
  let (high, ptr2) = address_byte ptr1
  (low, ptr3) ← next_byte ptr2
  (kind, ptr4) ← next_byte ptr3
  (bytes, ptr5, crc) ← read_data num_bytes ptr4 (u32 (num_bytes + high + low + kind))
  (check, ptr6) ← next_byte ptr5
  if u32 (crc + check) % 256 == 0
      then ok (record { line_addr = bit_or (u32 (high * 256)) low; rec_type = kind; bytes = bytes })
      else err crc_error

unfoldable pub read_line : List ℕ → HexResult HexRecord
read_line line_buf =
    let ptr = skip_whitespaces line_buf in
    if first ptr == b':' then read_fields (rest_of ptr) else err no_colon
