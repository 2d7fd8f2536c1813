-- ===== src/Image.antt =====
-- LPC214X_USB_FWU/usb_fwu: do_switch_to_firmware of fwu_utils.c, which starts the firmware in the
-- flash or returns, and the beginning of main in fwu.c, up to the decision to stay in the upgrader.
pub mod Accept
pub mod Boot
use usb_fwu.Base.{
  ℕ, ◌+◌, ◌*◌, ◌-◌, ◌==◌, sltb, sleb, sub32, if◌then◌else◌, ◌&&◌, not, Bool, true, false, List,
}
use usb_fwu.Memory.{Mem, load_word, store_word}
use usb_fwu.Crc.{calc_crc, init_crc32_table}

abbrev pub fw_load_addr : ℕ
fw_load_addr = 0x2000

abbrev pub fw_start_offset : ℕ
fw_start_offset = 0x20

abbrev pub flash_size : ℕ
flash_size = 256 * 1024

abbrev pub fw_rom_product_id_offset : ℕ
fw_rom_product_id_offset = 0

abbrev pub fw_rom_version_offset : ℕ
fw_rom_version_offset = 4

abbrev pub fw_rom_length_offset : ℕ
fw_rom_length_offset = 8

abbrev pub fw_rom_crc_offset : ℕ
fw_rom_crc_offset = 12

-- the globals `fw_product_id`, `fw_version`, `fw_length` and `fw_crc`, as words
pub record FwInfo : Type 0 where
  pub fw_product_id : ℕ
  pub fw_version : ℕ
  pub fw_length : ℕ
  pub fw_crc : ℕ

-- The length and the CRC of the image in the flash, read into the globals.
abbrev pub read_rom_info : Mem → FwInfo → FwInfo
read_rom_info m info = record info {
  fw_length = load_word m (fw_load_addr + fw_rom_length_offset);
  fw_crc = load_word m (fw_load_addr + fw_rom_crc_offset);
}

abbrev pub crc_matches : List ℕ → Mem → FwInfo → Bool
crc_matches table m info =
    calc_crc table m (fw_load_addr + fw_start_offset) (sub32 info.fw_length fw_start_offset)
    == info.fw_crc

-- `true` tells that `start_firmware` is called, which does not return.
unfoldable pub do_switch_to_firmware : List ℕ → Mem → FwInfo → FwInfo × Bool
do_switch_to_firmware table m info =
    let rom = read_rom_info m info in
    if sltb 0 rom.fw_length && sleb rom.fw_length (flash_size - fw_load_addr)
    then (rom, crc_matches table m rom)
    else (rom, false)

abbrev pub ram_start_addr : ℕ
ram_start_addr = 0x40000000

-- the stores of `main` that let the interrupt vectors of the flash jump through RAM
unfoldable pub place_vectors : ℕ → ℕ → Mem → Mem
place_vectors cpu_irq_isr cpu_fiq_isr m =
    store_word
      (store_word (store_word (store_word m 0x40000018 0xe59ff018) 0x4000001c 0xe59ff018) 0x40000038
        cpu_irq_isr)
      0x4000003c cpu_fiq_isr

-- the mark that an application leaves to request the upgrader
abbrev pub has_mark : Mem → Bool
has_mark m =
    load_word m ram_start_addr == 0x12345678 && load_word m (ram_start_addr + 4) == 0x43211234

pub data Start : Type 0 where
  firmware : FwInfo → Mem → Start
  upgrader : FwInfo → Mem → Start

unfoldable pub clear_mark : Mem → Mem
clear_mark m = store_word (store_word m ram_start_addr 0) (ram_start_addr + 4) 0

-- `main` up to `HardwareInit`, given the addresses of the two handlers
unfoldable pub main_start : ℕ → ℕ → List ℕ → Mem → FwInfo → Start
main_start cpu_irq_isr cpu_fiq_isr crc32_ref_table m info =
    let table = init_crc32_table crc32_ref_table in
    let m1 = place_vectors cpu_irq_isr cpu_fiq_isr m in
    let (info1, started) = do_switch_to_firmware table m1 info in
    if has_mark m1
    then upgrader info (clear_mark m1)
    else if started
    then firmware info1 m1
    else upgrader info1 (clear_mark m1)
