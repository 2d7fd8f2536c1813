-- ===== src/Image/Accept.antt =====
-- Which images do_switch_to_firmware starts.
use usb_fwu.Base.{
  ℕ, ◌+◌, ◌-◌, ◌^◌, ◌≤◌, ◌<◌, ◌≡◌, ◌↔◌, ltb, sltb, sub32, if◌then◌else◌, true, false, inl, inr,
  Bool-cases, ◌∙◌, List, arith,
}
use usb_fwu.Memory.{Mem, load_word}
use usb_fwu.Crc.{calc_crc}
use usb_fwu.Crc.Spec.{crc32}
use usb_fwu.Crc.Table.{IsCrcTable}
use usb_fwu.Crc.Refine.{calc_crc_lem}
use usb_fwu.Image.{
  fw_load_addr, fw_start_offset, flash_size, fw_rom_length_offset, fw_rom_crc_offset, FwInfo,
  do_switch_to_firmware,
}

-- The length and the CRC that the image in the flash states.
abbrev pub image_length : Mem → ℕ
image_length m = load_word m (fw_load_addr + fw_rom_length_offset)

abbrev pub stated_crc : Mem → ℕ
stated_crc m = load_word m (fw_load_addr + fw_rom_crc_offset)

-- The CRC-32 of the code behind the header of an image of `n` bytes; an image that ends inside its
-- header has no code.
abbrev pub crc_of_code : Mem → ℕ → ℕ
crc_of_code m n = if ltb 32 n then crc32 m (fw_load_addr + fw_start_offset) (n - 32) else 0

abbrev pub code_crc : Mem → ℕ
code_crc m = crc_of_code m (image_length m)

pub load_word-lt : (m : Mem) (a : ℕ) → ((b : ℕ) → m b < 256) → load_word m a < 2 ^ 32
load_word-lt m a h = omega (arith, h a, h (a + 1), h (a + 2), h (a + 3))

pub calc_crc-code :
    (table : List ℕ) (m : Mem) (n : ℕ)
    → IsCrcTable table
    → ((a : ℕ) → m a < 256)
    → n < 2 ^ 31
    → calc_crc table m (fw_load_addr + fw_start_offset) (sub32 n fw_start_offset) ≡ crc_of_code m n
calc_crc-code table m n t h small =
    calc_crc_lem table m start left t h ∙ elim (Bool-cases (ltb 32 n)) [
      | inl code ↦
          let size : left ≡ n - 32 = ground arith in
          let runs : sltb 0 left ≡ true = ground arith in rw (code, runs, size)
      | inr none_left ↦ let idle : sltb 0 left ≡ false = ground arith in rw (none_left, idle)
    ]
  where
    start : ℕ
    start = fw_load_addr + fw_start_offset

    left : ℕ
    left = sub32 n fw_start_offset

-- With a table of CRC-32 and bytes in memory, the firmware is started exactly if its stated length
-- is positive and at most the flash behind the upgrader, and its stated CRC is the CRC-32 of its
-- code.
pub do_switch_to_firmware_lem :
    (table : List ℕ) (m : Mem) (info : FwInfo)
    → IsCrcTable table
    → ((a : ℕ) → m a < 256)
    → ((do_switch_to_firmware table m info).1 ≡ true) ↔ (
        (0 < image_length m)
        × (image_length m ≤ flash_size - fw_load_addr)
        × (code_crc m ≡ stated_crc m))
unfolding do_switch_to_firmware
do_switch_to_firmware_lem table m info t h = ground (
  arith,
  calc_crc-code table m (image_length m) t h,
  load_word-lt m (fw_load_addr + fw_rom_length_offset) h,
)
