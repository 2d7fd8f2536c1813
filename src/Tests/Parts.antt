-- ===== src/Tests/Parts.antt =====
-- Memory, CRC, queue, flash and image at concrete inputs.
use usb_fwu.Base.{
  ℕ, ◌+◌, ◌-◌, ◌==◌, ◌≤◌, ◌<◌, ◌≡◌, ◌≢◌, ◌↔◌, ◌⊎◌, refl, inl, arith, [], ◌∷◌, replicate,
  length-replicate, some, none, true, false, sltb, if◌then◌else◌, u32, u32_mod,
}
use mathlib.Core.Option
use usb_fwu.Memory.{Mem, move, s_memcpy, load_word, bytes_at}
use usb_fwu.Memory.Copy.{s_memcpy_lem}
use usb_fwu.Crc.{calc_crc, make_cmd, init_crc32_table}
use usb_fwu.Crc.Spec.{crc32}
use usb_fwu.Crc.Table.{IsCrcTable, init_crc32_table-IsCrcTable}
use usb_fwu.Crc.Refine.{calc_crc_lem}
use usb_fwu.Crc.Command.{make_cmd_lem}
use usb_fwu.Queue.{FwuDq, enqueue, fwu_queue_get, fwu_queue_put, fwu_queue_tst}
use usb_fwu.Queue.Valid.{IsValid, count, fwu_queue_put-IsValid}
use usb_fwu.Queue.Fifo
use usb_fwu.Queue.Refine.{contents, enqueue_refines, fwu_queue_get_refines}
use usb_fwu.Queue.Hold.{enqueue_all, get_times, fwu_queue_get_hold, fwu_queue_tst_hold}
use usb_fwu.Flash.{flash_write, flash_erase_sectors, get_sector_number, err_no_err, err_wrong_param}
use usb_fwu.Flash.Rom.{sector_base}
use usb_fwu.Flash.Write.{flash_write_lem, flash_erase_sectors_lem, Erased}
use usb_fwu.Flash.Sector.{get_sector_number-base}
use usb_fwu.Image.{do_switch_to_firmware, has_mark, main_start}
use usb_fwu.Image.Accept.{image_length, stated_crc, code_crc, do_switch_to_firmware_lem}
use usb_fwu.Image.Boot.{is_firmware, main_start_lem}
use usb_fwu.Tests.Board.{ready_flash, zeros, table, table-IsCrcTable, blank_info}

abbrev empty : Mem
empty a = 0

-- An image that states a length of 20 bytes and a CRC of 0.
abbrev short_image : Mem
short_image a = if a == 0x2008 then 20 else 0

short_image-byte : (a : ℕ) → short_image a < 256
short_image-byte a = ground arith

s_memcpy_lem_example :
    s_memcpy 0x40000000 0x40000106 64 empty ≡ some (move 64 0x40000000 0x40000106 empty)
s_memcpy_lem_example = s_memcpy_lem 0x40000000 0x40000106 64 empty (omega arith) (inl (omega arith))

calc_crc_lem_example :
    calc_crc table empty 0x2020 68 ≡ (if sltb 0 68 then crc32 empty 0x2020 68 else 0)
calc_crc_lem_example = calc_crc_lem table empty 0x2020 68 table-IsCrcTable zeros

init_crc32_table_example : IsCrcTable (init_crc32_table (replicate 256 0))
init_crc32_table_example =
    init_crc32_table-IsCrcTable (replicate 256 0) (length-replicate {A = ℕ} 256 0)

make_cmd_lem_example :
    let m' = make_cmd table 0x73 0x40003000 empty in
    (m' 0x40003000 ≡ 0x73)
    × (calc_crc table m' 0x40003000 60 ≡ load_word m' 0x4000303c)
    × ((a : ℕ) → a ≢ 0x40003000 → (a < 0x4000303c) ⊎ (0x40003040 ≤ a) → m' a ≡ empty a)
make_cmd_lem_example = make_cmd_lem table 0x73 0x40003000 empty table-IsCrcTable zeros

-- a queue whose last entry is about to wrap
abbrev wrapped : FwuDq
wrapped = record { data_fifo = 0x40000400; num_entries = 8; tail_cnt = 6; header_cnt = 7 }

wrapped-IsValid : IsValid wrapped
wrapped-IsValid = record { room = omega arith; header_in = omega arith; tail_in = omega arith }

enqueue_refines_example :
    let (done, m', q') = enqueue (replicate 64 5) (empty, wrapped) in
    (done, contents m' q') ≡ Fifo.offer 7 (contents empty wrapped) (replicate 64 5)
enqueue_refines_example =
    enqueue_refines empty wrapped (replicate 64 5) wrapped-IsValid (length-replicate {A = ℕ} 64 5)

fwu_queue_get_refines_example :
    let (p, q') = fwu_queue_get wrapped in
    (Option.map (λ a. bytes_at empty a 64) p, contents empty q')
    ≡ Fifo.take_first (contents empty wrapped)
fwu_queue_get_refines_example = fwu_queue_get_refines empty wrapped wrapped-IsValid

fwu_queue_put-IsValid_example :
    IsValid (fwu_queue_put wrapped) × (count (fwu_queue_put wrapped) ≡ 2)
fwu_queue_put-IsValid_example = fwu_queue_put-IsValid wrapped-IsValid (omega arith)

got : (fwu_queue_get wrapped).0 ≡ some 0x40000580
unfolding fwu_queue_get
got = refl

fwu_queue_get_hold_example :
    (enqueue_all (replicate 64 1 ∷ replicate 64 2 ∷ []) (empty, (fwu_queue_get wrapped).1)).0
      0x40000581
    ≡ 0
fwu_queue_get_hold_example =
    fwu_queue_get_hold empty wrapped (replicate 64 1 ∷ replicate 64 2 ∷ []) 0x40000580
      wrapped-IsValid (length-replicate {A = ℕ} 64 1, (length-replicate {A = ℕ} 64 2, tt)) got
      0x40000581 (omega arith) (omega arith)

free : fwu_queue_tst wrapped ≡ some 0x400005c0
unfolding fwu_queue_tst
free = refl

fwu_queue_tst_hold_example :
    (fwu_queue_tst (get_times 3 wrapped) ≡ some 0x400005c0)
    × ((fwu_queue_get (get_times 3 wrapped)).0 ≢ some 0x400005c0)
fwu_queue_tst_hold_example = fwu_queue_tst_hold 3 wrapped 0x400005c0 wrapped-IsValid free

flash_write_lem_example :
    (rc : ℕ) × (c' : Unit {0}) × (m' : Mem) × (flash_write ready_flash 1 0x3000 0x40001000 60000
        4096 tt empty
      ≡ some (rc, c', m'))
    × (rc ≡ err_no_err → m' ≡ move 4096 0x3000 0x40001000 empty)
    × (rc ≢ err_no_err → m' ≡ empty)
    × ((rc ≡ err_wrong_param) ↔ (get_sector_number 0x3000 ≡ none))
flash_write_lem_example =
    flash_write_lem ready_flash 1 0x3000 0x40001000 60000 4096 tt empty (omega arith)

flash_erase_sectors_lem_example :
    (c' : Unit {0}) × (m' : Mem) × (flash_erase_sectors ready_flash 1 0x2000 5000 60000 tt empty
      ≡ some (err_no_err, c', m'))
    × Erased ready_flash
        (get_sector_number 0x2000)
        (get_sector_number (u32 (0x2000 + 5000 + u32_mod - 1)))
        empty
        m'
flash_erase_sectors_lem_example =
    flash_erase_sectors_lem ready_flash 1 0x2000 5000 60000 tt empty (omega arith)

get_sector_number-base_example :
    (get_sector_number 0x9000 ≡ some 8) ↔ ((sector_base 8 ≤ 0x9000) × (0x9000 < sector_base 9))
get_sector_number-base_example = get_sector_number-base 0x9000 8 (omega arith)

do_switch_to_firmware_lem_example :
    ((do_switch_to_firmware table short_image blank_info).1 ≡ true) ↔ (
      (0 < image_length short_image)
      × (image_length short_image ≤ 0x3e000)
      × (code_crc short_image ≡ stated_crc short_image))
do_switch_to_firmware_lem_example =
    do_switch_to_firmware_lem table short_image blank_info table-IsCrcTable short_image-byte

main_start_lem_example :
    (is_firmware (main_start 0x1000 0x1100 (replicate 256 0) short_image blank_info) ≡ true) ↔ (
      (has_mark short_image ≡ false)
      × (0 < image_length short_image)
      × (image_length short_image ≤ 0x3e000)
      × (code_crc short_image ≡ stated_crc short_image))
main_start_lem_example =
    main_start_lem 0x1000 0x1100 (replicate 256 0) short_image blank_info
      (length-replicate {A = ℕ} 256 0) short_image-byte
