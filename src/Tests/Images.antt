-- ===== src/Tests/Images.antt =====
-- A whole upload at a concrete input, from the image of the host to the start of the firmware.
use usb_fwu.Base.{
  ℕ, zero, suc, ◌+◌, ◌<◌, ◌≡◌, ◌⊎◌, refl, arith, List, [], ◌∷◌, ◌++◌, length, replicate,
  length-replicate, length-append, get_or, Option, some, none, false, leb, ltb, ◌&&◌, if◌then◌else◌,
  ◌≤◌,
}
use usb_fwu.Flash.Write.Works.{IsSource, IsBlank}
use usb_fwu.Queue.{fwu_queue_get, fwu_queue_put, fwu_queue_tst, enqueue}
use usb_fwu.Memory.{Mem, s_memset, s_memcpy, move}
use usb_fwu.Flash.{flash_write, scan_sectors, get_sector_number}
use usb_fwu.Crc.{make_cmd, calc_crc, init_crc32_table}
use usb_fwu.Image.{do_switch_to_firmware}
use usb_fwu.Stream.{Loader, Event, received, interrupt, interrupts, send_to_host, set_state}
use usb_fwu.Stream.Rx.{
  RxEnd, timed_out, started, stream_rx, rx_round, rx_packet, rx_block, rx_finish, rx_switch,
  rx_start, put_header,
}
use usb_fwu.Stream.Block.{rx_target}
use usb_fwu.Stream.Safe.{InRam, AllRounds}
use usb_fwu.Stream.Bytes.{RoundsOfBytes}
use usb_fwu.Stream.Arrivals.{joined, waiting, accepted, arrivals}
use usb_fwu.Stream.Judged.Upload.{IsJudged, stream_rx-IsJudged}
use usb_fwu.Stream.Written.{Completed}
use usb_fwu.Stream.Written.Upload.{stream_rx-Completed}
use usb_fwu.Host.Crc.{host_calc_crc, host_crc_loop, crc32_ref_words}
use usb_fwu.Host.Command.{cleared}
use usb_fwu.Host.Transfer.{HostData, put_fw, prepare, tx_process_buffer, copied}
use usb_fwu.Host.Transfer.Stream.{tx_blocks}
use usb_fwu.Host.Transfer.Upload.{prepare-started}
use usb_fwu.Tests.Board.{
  careful_flash, careful_flash-Works, board, zeros, table-IsCrcTable, loader, loader-InRam,
  blank_info,
}

abbrev zero_image : List ℕ
zero_image = replicate 36 0

abbrev writing : HostData
writing = record {
  mem = cleared;
  fw = record { fw = blank_info; is_valid = false; buf_ptr = 0; len = 0 };
  op_mode = put_fw;
  ctrl_rx_exch = cleared;
  event_rx_data = false;
  bytes_rxed = 0;
  h_rx_file = none;
}

-- A device with an erased block behind the upgrader, which has the description of the image.
abbrev erased : Mem
erased a = if leb 0x2000 a && ltb a 0x3000 then 255 else 0

abbrev told : Loader (Option ℕ)
told = record {
  mem = erased;
  chip = none;
  queue_ep2_rx = loader.queue_ep2_rx;
  queue_ep2_tx = loader.queue_ep2_tx;
  info = (prepare 0x100 zero_image writing).0;
  g_state = 0x10;
  g_full_block = 0;
}

told-InRam : InRam board told
told-InRam = record {
  rx = loader-InRam.rx;
  tx = loader-InRam.tx;
  stream_in_ram = loader-InRam.stream_in_ram;
  cmd_in_ram = loader-InRam.cmd_in_ram;
  stream_apart = loader-InRam.stream_apart;
  cmd_apart = loader-InRam.cmd_apart;
}

erased_bytes : (a : ℕ) → erased a < 256
erased_bytes a = ground arith

erased-IsBlank : IsBlank 0x2000 (rx_target 36) erased
erased-IsBlank k lt = ground arith

buffer-IsSource : IsSource 0x40001000 4096
buffer-IsSource = record { aligned = omega arith; from = omega arith; to = omega arith }

-- 64 packets of zeros, and then nothing for `n` rounds.
unfoldable block_then : ℕ → List (List Event)
block_then n = replicate 64 (received (replicate 64 0) ∷ []) ++ replicate n []

block_then_arrives :
    joined (waiting told ++ arrivals careful_flash board 1 (block_then 3960000) rx_start told)
    ≡ (tx_blocks 1 (prepare 0x100 zero_image writing).1).0 ++ []
unfolding block_then arrivals accepted rx_round rx_packet rx_block rx_finish rx_switch rx_start
    put_header interrupts interrupt send_to_host set_state s_memset s_memcpy move fwu_queue_get
    fwu_queue_put fwu_queue_tst enqueue flash_write get_sector_number scan_sectors init_crc32_table
    make_cmd calc_crc do_switch_to_firmware prepare host_calc_crc host_crc_loop crc32_ref_words
    tx_blocks tx_process_buffer copied
block_then_arrives = refl

AllRounds-silence : (n : ℕ) → AllRounds (replicate n [])
AllRounds-silence zero = tt
AllRounds-silence (suc n) = (tt, AllRounds-silence n)

AllRounds-packets :
    (k : ℕ) (rest : List (List Event))
    → AllRounds rest
    → AllRounds (replicate k (received (replicate 64 0) ∷ []) ++ rest)
AllRounds-packets zero rest h = h
AllRounds-packets (suc k) rest h = ((length-replicate {A = ℕ} 64 0, tt), AllRounds-packets k rest h)

block_then-AllRounds : (n : ℕ) → AllRounds (block_then n)
unfolding block_then
block_then-AllRounds n = AllRounds-packets 64 (replicate n []) (AllRounds-silence n)

zero_bytes : (n k : ℕ) → get_or (replicate n 0) k 0 < 256
zero_bytes zero k = omega arith
zero_bytes (suc n) zero = omega arith
zero_bytes (suc n) (suc k) = zero_bytes n k

RoundsOfBytes-silence : (n : ℕ) → RoundsOfBytes (replicate n [])
RoundsOfBytes-silence zero = tt
RoundsOfBytes-silence (suc n) = (tt, RoundsOfBytes-silence n)

RoundsOfBytes-packets :
    (k : ℕ) (rest : List (List Event))
    → RoundsOfBytes rest
    → RoundsOfBytes (replicate k (received (replicate 64 0) ∷ []) ++ rest)
RoundsOfBytes-packets zero rest h = h
RoundsOfBytes-packets (suc k) rest h = ((zero_bytes 64, tt), RoundsOfBytes-packets k rest h)

block_then-RoundsOfBytes : (n : ℕ) → RoundsOfBytes (block_then n)
unfolding block_then
block_then-RoundsOfBytes n = RoundsOfBytes-packets 64 (replicate n []) (RoundsOfBytes-silence n)

length-block_then : (n : ℕ) → length (block_then n) ≡ 64 + n
unfolding block_then
length-block_then n = omega (
  arith,
  length-append (replicate 64 (received (replicate 64 0) ∷ [])) (replicate n []),
  length-replicate {A = List Event} 64 (received (replicate 64 0) ∷ []),
  length-replicate {A = List Event} n [],
)

small_image : 36 ≤ 503808
small_image = omega arith

stream_rx-Completed_example :
    (e : RxEnd) × (l' : Loader (Option ℕ)) × (stream_rx careful_flash board 1
        (block_then 3960000)
        told
      ≡ some (e, l'))
    × ((e ≡ timed_out)
        ⊎ Completed board told.info
            (joined
              (waiting told ++ arrivals careful_flash board 1 (block_then 3960000) rx_start told))
            e
            l'.mem)
unfolding prepare
stream_rx-Completed_example =
    stream_rx-Completed careful_flash board 1 careful_flash-Works (omega arith) buffer-IsSource
      (block_then 3960000) told told-InRam small_image (block_then-AllRounds 3960000) tt
      erased-IsBlank (omega (arith, length-block_then 3960000))

prepare-started_example :
    (e : RxEnd) × (l' : Loader (Option ℕ)) × (stream_rx careful_flash board 1
        (block_then 3960000)
        told
      ≡ some (e, l'))
    × ((e ≡ timed_out) ⊎ (e ≡ started))
prepare-started_example =
    prepare-started careful_flash board 1 careful_flash-Works (omega arith) buffer-IsSource 0x100
      zero_image writing (block_then 3960000) told [] told-InRam table-IsCrcTable erased_bytes zeros
      (zero_bytes 36) (block_then-RoundsOfBytes 3960000) (omega arith) (omega arith)
      (block_then-AllRounds 3960000) tt erased-IsBlank (omega (arith, length-block_then 3960000))
      refl block_then_arrives

stream_rx-IsJudged_example :
    (e : RxEnd) × (l' : Loader (Option ℕ)) × (stream_rx careful_flash board 1
        (block_then 3960000)
        told
      ≡ some (e, l'))
    × IsJudged board told.info e l'
unfolding prepare
stream_rx-IsJudged_example =
    stream_rx-IsJudged careful_flash board 1 (omega arith) (block_then 3960000) told told-InRam
      table-IsCrcTable erased_bytes (block_then-RoundsOfBytes 3960000) small_image
      (block_then-AllRounds 3960000) (omega (arith, length-block_then 3960000))
