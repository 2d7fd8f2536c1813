-- ===== src/Tests/Boots.antt =====
-- A whole upload at a concrete input: one block of 64 packets.
use usb_fwu.Base.{
  ℕ, zero, suc, ◌<◌, arith, false, if◌then◌else◌, ltb, get_or, length-replicate, ◌≡◌, refl, List,
  [], ◌∷◌, replicate, Option, some, none, true,
}
use usb_fwu.Stream.{Loader, Event, received, interrupt, interrupts, send_to_host, set_state}
use usb_fwu.Stream.Rx.{
  RxEnd, started, stream_rx, rx_loop, rx_round, rx_packet, rx_block, rx_finish, rx_switch, rx_start,
  put_header,
}
use usb_fwu.Memory.{Mem, s_memset, s_memcpy, move}
use usb_fwu.Queue.{fwu_queue_get, fwu_queue_put, fwu_queue_tst, enqueue}
use usb_fwu.Flash.{flash_write, scan_sectors, get_sector_number}
use usb_fwu.Crc.{make_cmd, calc_crc, init_crc32_table}
use usb_fwu.Image.{do_switch_to_firmware}
use usb_fwu.Memory.Bytes.{IsBytes}
use usb_fwu.Image.{has_mark, main_start}
use usb_fwu.Image.Boot.{SameFlash, is_firmware}
use usb_fwu.Stream.Bytes.{RoundsOfBytes, stream_rx-byte}
use usb_fwu.Stream.Boots.{stream_rx-boots}
use usb_fwu.Tests.Board.{zeros, table-IsCrcTable, blank_info, ready_flash, board, loader}

abbrev upload : Loader (Unit {0})
upload = record loader {
  info = record { fw_product_id = 7; fw_version = 1; fw_length = 36; fw_crc = 0x2144df1c };
}

abbrev packets : List (List Event)
packets = replicate 64 (received (replicate 64 0) ∷ [])

abbrev last_of : Option (RxEnd × Loader (Unit {0})) → Loader (Unit {0})
last_of none = upload
last_of (some (e, l)) = l

-- The state in which the firmware is started.
final : Loader (Unit {0})
final = last_of (stream_rx ready_flash board 1 packets upload)

-- The 64th packet completes the block, its CRC is right, and the firmware is started.
upload-started : stream_rx ready_flash board 1 packets upload ≡ some (started, final)
unfolding final stream_rx rx_loop rx_round rx_packet rx_block rx_finish rx_switch rx_start
    put_header interrupts interrupt send_to_host set_state s_memset s_memcpy move fwu_queue_get
    fwu_queue_put fwu_queue_tst enqueue flash_write get_sector_number scan_sectors init_crc32_table
    make_cmd calc_crc do_switch_to_firmware
upload-started = refl

-- Every byte that the rounds bring is 0.
zero_bytes : (n k : ℕ) → get_or (replicate n 0) k 0 < 256
zero_bytes zero k = omega arith
zero_bytes (suc n) zero = omega arith
zero_bytes (suc n) (suc k) = zero_bytes n k

RoundsOfBytes-replicate : (n : ℕ) → RoundsOfBytes (replicate n (received (replicate 64 0) ∷ []))
RoundsOfBytes-replicate zero = tt
RoundsOfBytes-replicate (suc n) = ((zero_bytes 64, tt), RoundsOfBytes-replicate n)

-- A memory with the same flash and with cleared RAM.
restarted : Mem
restarted a = if ltb a 0x40000000 then final.mem a else 0

final-IsBytes : IsBytes final.mem
final-IsBytes =
    stream_rx-byte ready_flash board 1 (omega arith) packets upload final started upload-started
      (RoundsOfBytes-replicate 64) zeros

restarted-IsBytes : IsBytes restarted
unfolding restarted
restarted-IsBytes a = ground (arith, final-IsBytes a)

restarted-SameFlash : SameFlash final.mem restarted
unfolding restarted
restarted-SameFlash a h = ground arith

restarted-has_mark : has_mark restarted ≡ false
unfolding restarted
restarted-has_mark = refl

stream_rx-boots_example :
    is_firmware (main_start 0x1000 0x1100 (replicate 256 0) restarted blank_info) ≡ true
stream_rx-boots_example =
    stream_rx-boots ready_flash board 1 (omega arith) packets upload final upload-started
      table-IsCrcTable zeros (RoundsOfBytes-replicate 64) 0x1000 0x1100 (replicate 256 0) restarted
      blank_info (length-replicate {A = ℕ} 256 0) restarted-IsBytes restarted-SameFlash
      restarted-has_mark
