-- ===== src/Tests/Upload.antt =====
-- The main loop's streams at concrete inputs.
use usb_fwu.Base.{
  ℕ, zero, suc, ◌+◌, ◌≡◌, refl, arith, List, [], ◌∷◌, length, replicate, length-replicate, some,
  none,
}
use usb_fwu.Memory.{load_word}
use usb_fwu.Crc.{calc_crc}
use usb_fwu.Queue.{fwu_queue_get}
use usb_fwu.Queue.Fifo
use usb_fwu.Queue.Refine.{contents}
use usb_fwu.Stream.{Loader, Event, received, set_state, send_to_host}
use usb_fwu.Stream.Rx.{RxEnd, timed_out, stream_rx}
use usb_fwu.Stream.Safe.{InRam, SameBelow, AllRounds}
use usb_fwu.Stream.Tx.{tx_last_pos}
use usb_fwu.Stream.Main.{Served, main_round}
use usb_fwu.Stream.Rounds.{main_round-total}
use usb_fwu.Stream.Total.{stream_rx-total}
use usb_fwu.Stream.Timeout.{stream_rx-silent}
use usb_fwu.Stream.Send.{frame, framed, send_to_host_lem}
use usb_fwu.Tests.Board.{ready_flash, board, zeros, table, table-IsCrcTable, loader, loader-InRam}

AllRounds-replicate : (n : ℕ) → AllRounds (replicate n [])
AllRounds-replicate zero = tt
AllRounds-replicate (suc n) = (tt, AllRounds-replicate n)

-- One packet comes, and then nothing for `n` rounds.
unfoldable one_packet : ℕ → List (List Event)
one_packet n = (received (replicate 64 9) ∷ []) ∷ replicate n []

one_packet-AllRounds : (n : ℕ) → AllRounds (one_packet n)
unfolding one_packet
one_packet-AllRounds n = ((length-replicate {A = ℕ} 64 9, tt), AllRounds-replicate n)

length-one_packet : (n : ℕ) → length (one_packet n) ≡ n + 1
unfolding one_packet
length-one_packet n = ground (arith, length-replicate {A = List Event} n [])

stream_rx-total_example :
    (e : RxEnd) × (l' : Loader (Unit {0})) × (stream_rx ready_flash board 1
        (one_packet 3960000)
        loader
      ≡ some (e, l'))
    × InRam board l'
    × SameBelow loader.mem l'.mem
stream_rx-total_example =
    stream_rx-total ready_flash board 1 (omega arith) (one_packet 3960000) loader loader-InRam
      (omega arith, refl) (one_packet-AllRounds 3960000) (omega (arith, length-one_packet 3960000))

queue_empty : fwu_queue_get loader.queue_ep2_rx ≡ (none, loader.queue_ep2_rx)
unfolding fwu_queue_get
queue_empty = refl

stream_rx-silent_example :
    stream_rx ready_flash board 1 (replicate 60000 []) loader ≡ some (timed_out, set_state 0 loader)
stream_rx-silent_example =
    stream_rx-silent ready_flash board 1 60000 loader queue_empty (omega arith)

send_to_host_lem_example :
    (l' : Loader (Unit {0})) × (send_to_host board 0x73 loader ≡ some l')
    × (contents l'.mem l'.queue_ep2_tx
        ≡ (Fifo.offer 7 (contents loader.mem loader.queue_ep2_tx) (frame board 0x73 loader)).1)
    × (framed board 0x73 loader 0x40003000 ≡ 0x73)
    × (calc_crc table (framed board 0x73 loader) 0x40003000 60
        ≡ load_word (framed board 0x73 loader) 0x4000303c)
send_to_host_lem_example = send_to_host_lem board 0x73 loader loader-InRam table-IsCrcTable zeros

main_round-total_example :
    (served : Served) × (l' : Loader (Unit {0})) × (main_round ready_flash board 1
        (one_packet 8000000)
        loader
      ≡ some (served, l'))
    × InRam board l'
    × SameBelow loader.mem l'.mem
main_round-total_example =
    main_round-total ready_flash board 1 (omega arith) (one_packet 8000000) loader loader-InRam
      (omega arith, refl) (one_packet-AllRounds 8000000)
      (unfold tx_last_pos in omega (arith, length-one_packet 8000000))
