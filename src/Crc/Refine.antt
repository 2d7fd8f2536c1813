-- ===== src/Crc/Refine.antt =====
-- calc_crc, with a table made by Init_CRC32_Table, computes CRC-32.
use usb_fwu.Base.{
  ℕ, zero, suc, ◌+◌, ◌*◌, ◌/◌, ◌%◌, ◌^◌, ◌<◌, ◌≡◌, refl, ap, ◌∙◌, ◌==◌, if◌then◌else◌, sltb, inl,
  inr, Bool-cases, List, bit_xor, arith,
}
use native.Mathlib.Nat.{pow-suc}
use usb_fwu.Base.Bits.{
  bit_xor-div, bit_xor-mod, bit_xor_assoc, bit_xor_comm, bit_xor_self, bit_xor-zero, bit_xor-lt,
  bit_xor_fields, zero-bit_xor,
}
use usb_fwu.Memory.{Mem}
use usb_fwu.Crc.{crc_step, crc_loop, calc_crc}
use usb_fwu.Crc.Spec.{reflected_polynomial, crc_bit, crc_bits, crc_bytes, crc32}
use usb_fwu.Crc.Table.{IsCrcTable}

-- `(a ^ b) ^ (c ^ d)` regrouped
xor_swap : (a b c d : ℕ) → bit_xor (bit_xor a b) (bit_xor c d) ≡ bit_xor (bit_xor a c) (bit_xor b d)
xor_swap a b c d = rw (
  bit_xor_assoc a b (bit_xor c d),
  ← bit_xor_assoc b c d,
  bit_xor_comm b c,
  bit_xor_assoc c b d,
  ← bit_xor_assoc a c (bit_xor b d),
)

abbrev feedback : ℕ → ℕ
feedback r = if r % 2 == 0 then 0 else reflected_polynomial

feedback-bit_xor : (a b : ℕ) → feedback (bit_xor a b) ≡ bit_xor (feedback a) (feedback b)
feedback-bit_xor a b = ground (
  arith,
  bit_xor-mod a b,
  zero-bit_xor 0,
  zero-bit_xor reflected_polynomial,
  bit_xor-zero reflected_polynomial,
  bit_xor_self reflected_polynomial,
)

-- A division step is linear over exclusive or, and so are several.
crc_bit-bit_xor : (a b : ℕ) → crc_bit (bit_xor a b) ≡ bit_xor (crc_bit a) (crc_bit b)
unfolding crc_bit
crc_bit-bit_xor a b =
    rw (bit_xor-div a b, feedback-bit_xor a b) (xor_swap (a / 2) (b / 2) (feedback a) (feedback b))

crc_bits-bit_xor : (n a b : ℕ) → crc_bits n (bit_xor a b) ≡ bit_xor (crc_bits n a) (crc_bits n b)
unfolding crc_bits
crc_bits-bit_xor zero a b = refl
crc_bits-bit_xor (suc n) a b = rw (crc_bit-bit_xor a b) (crc_bits-bit_xor n (crc_bit a) (crc_bit b))

crc_bit_even : (y : ℕ) → crc_bit (y * 2) ≡ y
unfolding crc_bit
crc_bit_even y = ground (arith, bit_xor-zero y)

-- Steps over zero digits only shift.
crc_bits-shift : (n q : ℕ) → crc_bits n (q * 2 ^ n) ≡ q
unfolding crc_bits
crc_bits-shift zero q = omega arith
crc_bits-shift (suc n) q =
    let twice : q * 2 ^ suc n ≡ q * 2 ^ n * 2 =
      omega (arith, ap (λ (t : ℕ). q * t) (pow-suc 2 n)) in
    rw (twice, crc_bit_even (q * 2 ^ n)) (crc_bits-shift n q)

-- A step of `calc_crc` is eight division steps on the register with the byte added to it.
pub crc_step_lem :
    (table : List ℕ) (r b : ℕ)
    → IsCrcTable table
    → b < 256
    → crc_step table r b ≡ crc_bits 8 (bit_xor r b)
unfolding crc_step
crc_step_lem table r b t h =
    let q = r / 256 in
    let s = bit_xor (r % 256) b in
    let split : bit_xor r b ≡ bit_xor (q * 256) s =
      let whole : r ≡ bit_xor (q * 256) (r % 256) =
        omega (arith, bit_xor_fields 8 q (r % 256) (omega arith)) in
      ap (λ (t : ℕ). bit_xor t b) whole ∙ bit_xor_assoc (q * 256) (r % 256) b in
    rw (
      split,
      crc_bits-bit_xor 8 (q * 256) s,
      crc_bits-shift 8 q,
      t s (bit_xor-lt 8 (r % 256) b 256 refl (omega arith) h),
    )

crc_loop_lem :
    (table : List ℕ) (m : Mem) (n buf r : ℕ)
    → IsCrcTable table
    → ((a : ℕ) → m a < 256)
    → crc_loop table m n buf r ≡ crc_bytes m n buf r
unfolding crc_loop crc_bytes
crc_loop_lem table m zero buf r t h = refl
crc_loop_lem table m (suc n) buf r t h =
    rw (crc_step_lem table r (m buf) t (h buf))
      (crc_loop_lem table m n (buf + 1) (crc_bits 8 (bit_xor r (m buf))) t h)

-- Over a memory of bytes and with a table of CRC-32, `calc_crc` of a positive `int` count is
-- the CRC-32 of that many bytes; of any other count it is 0.
pub calc_crc_lem :
    (table : List ℕ) (m : Mem) (buf n : ℕ)
    → IsCrcTable table
    → ((a : ℕ) → m a < 256)
    → calc_crc table m buf n ≡ (if sltb 0 n then crc32 m buf n else 0)
unfolding calc_crc crc32
calc_crc_lem table m buf n t h = elim (Bool-cases (sltb 0 n)) [
  | inl e ↦ rw e (rw (crc_loop_lem table m n buf 0xffffffff t h))
  | inr e ↦ rw e (bit_xor_self 0xffffffff)
]
