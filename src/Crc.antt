-- ===== src/Crc.antt =====
-- LPC214X_USB_FWU/usb_fwu: the CRC of fwu_init.c (Reflect, Init_CRC32_Table) and of fwu_utils.c
-- (calc_crc, make_cmd).
pub mod Spec
pub mod Table
pub mod Refine
pub mod Command
use usb_fwu.Base.{
  ℕ, zero, suc, ◌+◌, ◌-◌, ◌*◌, ◌/◌, ◌%◌, ◌^◌, ◌==◌, if◌then◌else◌, sltb, u32, List, get_or, set,
  bit_and, bit_or, bit_xor,
}
use usb_fwu.Memory.{Mem, store, store_word}

-- `for(i = 1; i < (ch + 1); i++)` of `Reflect`, with the rounds left
reflect_from : ℕ → ℕ → ℕ → ℕ → ℕ → ℕ
reflect_from zero i ch ref value = value
reflect_from (suc n) i ch ref value =
    reflect_from n (i + 1) ch (ref / 2)
      (if bit_and ref 1 == 0 then value else bit_or value (u32 (2 ^ (ch - i))))

unfoldable pub reflect : ℕ → ℕ → ℕ
unfolding reflect_from
reflect ref ch = reflect_from ch 1 ch ref 0

abbrev pub ul_polynomial : ℕ
ul_polynomial = 0x04c11db7

-- the inner loop of `Init_CRC32_Table`, with the rounds left
polynomial_rounds : ℕ → ℕ → ℕ
polynomial_rounds zero x = x
polynomial_rounds (suc n) x =
    polynomial_rounds n
      (bit_xor (u32 (x * 2)) (if bit_and x 0x80000000 == 0 then 0 else ul_polynomial))

unfoldable pub table_entry : ℕ → ℕ
unfolding reflect polynomial_rounds
table_entry i = reflect (polynomial_rounds 8 (u32 (reflect i 8 * 2 ^ 24))) 32

-- `for(i = 0; i <= 0xFF; i++)` of `Init_CRC32_Table`, with the rounds left
fill_table : ℕ → ℕ → List ℕ → List ℕ
fill_table zero i table = table
fill_table (suc n) i table = fill_table n (i + 1) (set table i (table_entry i))

unfoldable pub init_crc32_table : List ℕ → List ℕ
unfolding fill_table table_entry
init_crc32_table table = fill_table 256 0 table

-- `x >> 8` is `x / 256`, and `x & 0xFF` is `x % 256`.
unfoldable pub crc_step : List ℕ → ℕ → ℕ → ℕ
crc_step table result b = bit_xor (result / 256) (get_or table (bit_xor (result % 256) b) 0)

-- `for(i = 0; i < nbytes; i++)` of `calc_crc`, with the rounds left
unfoldable pub crc_loop : List ℕ → Mem → ℕ → ℕ → ℕ → ℕ
crc_loop table m zero buf result = result
crc_loop table m (suc n) buf result = crc_loop table m n (buf + 1) (crc_step table result (m buf))

-- `nbytes` is an `int`: a negative count makes no round.
unfoldable pub calc_crc : List ℕ → Mem → ℕ → ℕ → ℕ
unfolding crc_loop crc_step
calc_crc table m buf nbytes =
    let rounds = if sltb 0 nbytes then nbytes else 0 in
    bit_xor (crc_loop table m rounds buf 0xffffffff) 0xffffffff

abbrev pub ctrl_buf_crc_off : ℕ
ctrl_buf_crc_off = 60

-- The `s_memcpy` of the four bytes of `rc` is `store_word` (Memory.Copy).
unfoldable pub make_cmd : List ℕ → ℕ → ℕ → Mem → Mem
make_cmd table cmd buf m =
    let m1 = store m buf (cmd % 256) in
    let rc = calc_crc table m1 buf ctrl_buf_crc_off in store_word m1 (buf + ctrl_buf_crc_off) rc
