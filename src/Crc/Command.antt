-- ===== src/Crc/Command.antt =====
-- make_cmd: the 64-byte frame that it makes passes the receiver's check of the CRC.
use usb_fwu.Base.{
  ℕ, zero, suc, ◌+◌, ◌/◌, ◌%◌, ◌^◌, ◌≤◌, ◌<◌, ◌≡◌, ◌≢◌, ◌⊎◌, refl, ap, sym, ◌∙◌, inl, ◌==◌, sltb,
  if◌then◌else◌, List, bit_xor, arith,
}
use usb_fwu.Base.Bits.{bit_xor-lt_u32}
use usb_fwu.Memory.{Mem, store, load_word, store_word}
use usb_fwu.Crc.{crc_step, crc_loop, calc_crc, make_cmd}
use usb_fwu.Crc.Spec.{reflected_polynomial, crc_bit, crc_bits}
use usb_fwu.Crc.Table.{IsCrcTable}
use usb_fwu.Crc.Refine.{crc_step_lem}

-- The loop reads the counted bytes only.
pub crc_loop_congr :
    (table : List ℕ) (m m' : Mem) (n buf r : ℕ)
    → ((a : ℕ) → buf ≤ a → a < buf + n → m a ≡ m' a)
    → crc_loop table m n buf r ≡ crc_loop table m' n buf r
unfolding crc_loop
crc_loop_congr table m m' zero buf r h = refl
crc_loop_congr table m m' (suc n) buf r h = rw (h buf (omega arith) (omega arith)) (
    crc_loop_congr table m m' n (buf + 1) (crc_step table r (m' buf))
      (λ a p q. h a (omega arith) (omega arith)))

crc_bit-lt : (r : ℕ) → r < 2 ^ 32 → crc_bit r < 2 ^ 32
unfolding crc_bit
crc_bit-lt r h =
    bit_xor-lt_u32 (r / 2) (if r % 2 == 0 then 0 else reflected_polynomial) (omega arith)
      (ground arith)

crc_bits-lt : (n r : ℕ) → r < 2 ^ 32 → crc_bits n r < 2 ^ 32
unfolding crc_bits
crc_bits-lt zero r h = h
crc_bits-lt (suc n) r h = crc_bits-lt n (crc_bit r) (crc_bit-lt r h)

crc_loop-lt :
    (table : List ℕ) (m : Mem) (n buf r : ℕ)
    → IsCrcTable table
    → ((a : ℕ) → m a < 256)
    → r < 2 ^ 32
    → crc_loop table m n buf r < 2 ^ 32
unfolding crc_loop
crc_loop-lt table m zero buf r t h lt = lt
crc_loop-lt table m (suc n) buf r t h lt =
    crc_loop-lt table m n (buf + 1) (crc_step table r (m buf)) t h (
      rw (crc_step_lem table r (m buf) t (h buf))
        (crc_bits-lt 8 (bit_xor r (m buf)) (bit_xor-lt_u32 r (m buf) lt (omega (arith, h buf)))))

-- A CRC is a 32-bit word.
pub calc_crc-lt :
    (table : List ℕ) (m : Mem) (buf n : ℕ)
    → IsCrcTable table
    → ((a : ℕ) → m a < 256)
    → calc_crc table m buf n < 2 ^ 32
unfolding calc_crc
calc_crc-lt table m buf n t h =
    bit_xor-lt_u32 (crc_loop table m (if sltb 0 n then n else 0) buf 0xffffffff) 0xffffffff
      (crc_loop-lt table m (if sltb 0 n then n else 0) buf 0xffffffff t h (omega arith))
      (omega arith)

pub load_word-store_word : (m : Mem) (a w : ℕ) → w < 2 ^ 32 → load_word (store_word m a w) a ≡ w
load_word-store_word m a w h = ground arith

pub store_word-other : (m : Mem) (p w a : ℕ) → (a < p) ⊎ (p + 4 ≤ a) → store_word m p w a ≡ m a
store_word-other m p w a h = ground arith

store-lt : (m : Mem) (p v : ℕ) → v < 256 → ((a : ℕ) → m a < 256) → (a : ℕ) → store m p v a < 256
store-lt m p v hv h a = ground (arith, h a)

pub calc_crc-congr :
    (table : List ℕ) (m m' : Mem) (buf : ℕ)
    → ((a : ℕ) → buf ≤ a → a < buf + 60 → m a ≡ m' a)
    → calc_crc table m buf 60 ≡ calc_crc table m' buf 60
unfolding calc_crc
calc_crc-congr table m m' buf h =
    ap (λ (r : ℕ). bit_xor r 0xffffffff) (crc_loop_congr table m m' 60 buf 0xffffffff h)

-- With a table of CRC-32 and bytes in memory, the frame that `make_cmd` leaves at `buf` begins with
-- the low byte of the command and carries in its last four bytes the CRC of the sixty before, as a
-- receiver computes it, and nothing else of memory has changed.
pub make_cmd_lem :
    (table : List ℕ) (cmd buf : ℕ) (m : Mem)
    → IsCrcTable table
    → ((a : ℕ) → m a < 256)
    → let m' = make_cmd table cmd buf m in
      (m' buf ≡ cmd % 256)
      × (calc_crc table m' buf 60 ≡ load_word m' (buf + 60))
      × ((a : ℕ) → a ≢ buf → (a < buf + 60) ⊎ (buf + 64 ≤ a) → m' a ≡ m a)
unfolding make_cmd
make_cmd_lem table cmd buf m t h = (
  store_word-other m1 (buf + 60) rc buf (inl (omega arith)) ∙ ground arith,
  calc_crc-congr table (store_word m1 (buf + 60) rc) m1 buf
        (λ a p q. store_word-other m1 (buf + 60) rc a (inl q))
      ∙ sym (
          load_word-store_word m1 (buf + 60) rc
            (calc_crc-lt table m1 buf 60 t (store-lt m buf (cmd % 256) (omega arith) h))),
  λ a ne out. store_word-other m1 (buf + 60) rc a (ground arith) ∙ ground arith,
)
  where
    m1 : Mem
    m1 = store m buf (cmd % 256)

    rc : ℕ
    rc = calc_crc table m1 buf 60
