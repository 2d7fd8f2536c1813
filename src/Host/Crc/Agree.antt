-- ===== src/Host/Crc/Agree.antt =====
-- The host and the device compute the same CRC.
use usb_fwu.Base.{
  ℕ, zero, suc, ◌+◌, ◌^◌, ◌%◌, ◌≤◌, ◌<◌, ◌≡◌, refl, sym, ap, ◌∙◌, true, inl, inr, Bool-cases, ◌==◌,
  ==_iff, every_below, every_below-true, sltb, sub32, if◌then◌else◌, List, length, get_or, bit_xor,
  arith,
}
use usb_fwu.Base.Bits.{bit_xor-lt}
use usb_fwu.Memory.{Mem}
use usb_fwu.Crc.{crc_step, crc_loop, calc_crc}
use usb_fwu.Crc.Spec.{crc_bit, crc_bits}
use usb_fwu.Crc.Table.{IsCrcTable}
use usb_fwu.Host.Crc.{crc32_ref_words, host_crc_loop, host_calc_crc, file_crc_loop, calc_file_crc}

entries : every_below (λ i. get_or crc32_ref_words i 0 == crc_bits 8 i) 256 ≡ true
unfolding every_below crc32_ref_words crc_bits crc_bit
entries = refl

-- The words written out are the table of CRC-32.
pub crc32_ref_words-IsCrcTable : IsCrcTable crc32_ref_words
crc32_ref_words-IsCrcTable i h =
    (==_iff (get_or crc32_ref_words i 0) (crc_bits 8 i)).0
      (every_below-true (λ i. get_or crc32_ref_words i 0 == crc_bits 8 i) 256 i h entries)

host_crc_loop-eq :
    (m : Mem) (n buf r : ℕ) → host_crc_loop m n buf r ≡ crc_loop crc32_ref_words m n buf r
unfolding host_crc_loop crc_loop crc_step
host_crc_loop-eq m zero buf r = refl
host_crc_loop-eq m (suc n) buf r =
    host_crc_loop-eq m n (buf + 1) (crc_step crc32_ref_words r (m buf))

-- The loop sees no difference between two tables of CRC-32.
crc_loop-table :
    (t1 t2 : List ℕ) (m : Mem) (n buf r : ℕ)
    → IsCrcTable t1
    → IsCrcTable t2
    → ((a : ℕ) → m a < 256)
    → crc_loop t1 m n buf r ≡ crc_loop t2 m n buf r
unfolding crc_loop crc_step
crc_loop-table t1 t2 m zero buf r c1 c2 h = refl
crc_loop-table t1 t2 m (suc n) buf r c1 c2 h =
    let i = bit_xor (r % 256) (m buf) in
    let below : i < 256 = bit_xor-lt 8 (r % 256) (m buf) 256 refl (omega arith) (h buf) in
    rw (c1 i below ∙ sym (c2 i below))
      (crc_loop-table t1 t2 m n (buf + 1) (crc_step t2 r (m buf)) c1 c2 h)

-- Over the same bytes the host's `calc_crc`, with its table written out, and the device's, with a
-- table of CRC-32, give the same word for every count.
pub host_calc_crc-eq :
    (table : List ℕ) (m : Mem) (buf n : ℕ)
    → IsCrcTable table
    → ((a : ℕ) → m a < 256)
    → host_calc_crc m buf n ≡ calc_crc table m buf n
unfolding host_calc_crc calc_crc
host_calc_crc-eq table m buf n t h =
    ap (λ (r : ℕ). bit_xor r 0xffffffff)
      (host_crc_loop-eq m (if sltb 0 n then n else 0) buf 0xffffffff
        ∙ crc_loop-table crc32_ref_words table m (if sltb 0 n then n else 0) buf 0xffffffff
            crc32_ref_words-IsCrcTable t h)

file_crc_loop-eq :
    (m : Mem) (file : List ℕ) (n pos buf r : ℕ)
    → ((k : ℕ) → pos ≤ k → k < pos + n → m (buf + k) ≡ get_or file k 255)
    → file_crc_loop file n pos r ≡ host_crc_loop m n (buf + pos) r
unfolding file_crc_loop host_crc_loop
file_crc_loop-eq m file zero pos buf r h = refl
file_crc_loop-eq m file (suc n) pos buf r h =
    let next : buf + (pos + 1) ≡ buf + pos + 1 = omega arith in
    rw (h pos (omega arith) (omega arith), ← next)
      (file_crc_loop-eq m file n (pos + 1) buf _ (λ k lo hi. h k (omega arith) (omega arith)))

-- The CRC of a file shorter than 2 GB is that of its bytes in memory, header left out.
pub calc_file_crc-eq :
    (m : Mem) (file : List ℕ) (buf : ℕ)
    → length file < 2 ^ 31
    → ((k : ℕ) → k < length file → m (buf + k) ≡ get_or file k 255)
    → calc_file_crc file ≡ host_calc_crc m (buf + 0x20) (sub32 (length file) 0x20)
unfolding calc_file_crc host_calc_crc
calc_file_crc-eq m file buf small h =
    let left = sub32 (length file) 0x20 in
    elim (Bool-cases (sltb 0 left)) [
      | inl code ↦
          let within : 32 + left ≤ length file = ground arith in
          rw code (
            ap (λ (r : ℕ). bit_xor r 0xffffffff)
              (file_crc_loop-eq m file left 0x20 buf 0xffffffff (λ k lo hi. h k (omega arith))))
      | inr none_left ↦ rw none_left (unfold file_crc_loop host_crc_loop in refl)
    ]
