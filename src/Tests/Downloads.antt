-- ===== src/Tests/Downloads.antt =====
-- A whole download at a concrete input, from the flash to the file of the host.
use usb_fwu.Base.{
  ℕ, zero, suc, ◌+◌, ◌/◌, ◌≤◌, ◌≡◌, ◌⊎◌, refl, arith, List, [], ◌∷◌, ◌++◌, length, replicate,
  length-replicate, append-nil, ap, sym, ◌∙◌, ◌*◌, Option, some, none, inl, inr, true, false,
}
use usb_fwu.Memory.{bytes_at, s_memcpy, move}
use usb_fwu.Queue.{fwu_queue_get, fwu_queue_put, fwu_queue_tst, enqueue}
use usb_fwu.Image.{do_switch_to_firmware, fw_load_addr}
use usb_fwu.Stream.{Loader, Event, transmitted, interrupt, interrupts, set_state}
use usb_fwu.Stream.Tx.{
  TxEnd, timed_out, no_firmware, stream_tx, tx_loop, tx_round, tx_check, tx_start, tx_last_pos,
}
use usb_fwu.Stream.Safe.{InRam, InRam-queues, AllRounds}
use usb_fwu.Stream.Sent.{tx_target}
use usb_fwu.Stream.Arrivals.{joined}
use usb_fwu.Stream.Outgoing.{sending, departures}
use usb_fwu.Stream.Outgoing.Download.{stream_tx-AtEnd, stream_tx-IsSent}
use usb_fwu.Host.Command.{cleared}
use usb_fwu.Host.Transfer.{HostData, get_fw, filled}
use usb_fwu.Host.Transfer.Stream.{rx_blocks}
use usb_fwu.Host.Transfer.Download.{rx_blocks-stream_tx}
use usb_fwu.Tests.Board.{board, loader, loader-InRam}

-- A firmware of 100 bytes 9, with full blocks asked for.
abbrev asked : Loader (Unit {0})
asked = record loader { mem = λ a. 9; g_full_block = 1 }

asked-InRam : InRam board asked
asked-InRam = InRam-queues loader asked loader-InRam refl refl

-- The host takes a packet before each round.
unfoldable taking : ℕ → List (List Event)
taking n = replicate n (transmitted ∷ [])

taking-AllRounds : (n : ℕ) → AllRounds (taking n)
unfolding taking
taking-AllRounds zero = tt
taking-AllRounds (suc n) = ((tt, tt), taking-AllRounds n)

abbrev last_of : Option (TxEnd × Loader (Unit {0})) → Loader (Unit {0})
last_of none = asked
last_of (some (e, l)) = l

final : Loader (Unit {0})
final = last_of (stream_tx board (taking 64) asked)

sent : stream_tx board (taking 64) asked ≡ some (no_firmware, final)
unfolding final taking stream_tx tx_loop tx_round tx_check tx_start tx_last_pos interrupts interrupt
    set_state s_memcpy move fwu_queue_get fwu_queue_put fwu_queue_tst enqueue do_switch_to_firmware
sent = refl

abbrev block : List ℕ
block = filled 9 4096

length-block : length block ≡ 4096
unfolding filled
length-block = refl

bytes_at-nines : (n a : ℕ) → bytes_at (λ b. 9) a n ≡ filled 9 n
unfolding filled
bytes_at-nines zero a = refl
bytes_at-nines (suc n) a = ap (λ (xs : List ℕ). 9 ∷ xs) (bytes_at-nines n (a + 1))

brought :
    joined (block ∷ [])
    ≡ joined (departures board (taking 64) (tx_last_pos 100) tx_start asked ++ sending final)
brought =
    elim (stream_tx-AtEnd board (taking 64) asked final no_firmware asked-InRam (inl (omega arith))
      refl (omega arith) (omega arith) (taking-AllRounds 64) sent) [
        | inl late ↦ cc
        | inr same ↦ append-nil block ∙ sym (same ∙ bytes_at-nines 4096 0x2000)
      ]

abbrev reading : HostData
reading = record {
  mem = cleared;
  fw = record { fw = asked.info; is_valid = true; buf_ptr = 0; len = 100 };
  op_mode = get_fw;
  ctrl_rx_exch = cleared;
  event_rx_data = false;
  bytes_rxed = 0;
  h_rx_file = some [];
}

rx_blocks-stream_tx_example :
    (rx_blocks (block ∷ []) reading).h_rx_file ≡ some (bytes_at asked.mem fw_load_addr 100)
rx_blocks-stream_tx_example =
    rx_blocks-stream_tx board (taking 64) asked final no_firmware (block ∷ []) reading asked-InRam
      (inl (omega arith)) refl refl (omega arith) (omega arith) (taking-AllRounds 64) sent (λ e. cc)
      (length-block, tt) brought refl refl refl

length-taking : (n : ℕ) → length (taking n) ≡ n
unfolding taking
length-taking n = length-replicate {A = List Event} n (transmitted ∷ [])

enough_rounds : (n : ℕ) → (n ≡ 4000000) → (tx_target (tx_last_pos 100) / 64 + 1) * 60000 ≤ n
unfolding tx_last_pos
enough_rounds n e = omega arith

stream_tx-IsSent_example :
    let out = departures board (taking 4000000) (tx_last_pos 100) tx_start asked in
    (e : TxEnd) × (l' : Loader (Unit {0})) × (stream_tx board (taking 4000000) asked ≡ some (e, l'))
    × ((e ≡ timed_out)
        ⊎ (joined (out ++ sending l')
            ≡ joined (sending asked)
              ++ bytes_at asked.mem fw_load_addr ((100 + 4095) / 4096 * 4096)))
stream_tx-IsSent_example =
    stream_tx-IsSent board (taking 4000000) asked asked-InRam (inl (omega arith)) refl (omega arith)
      (omega arith) (taking-AllRounds 4000000)
      (enough_rounds (length (taking 4000000)) (length-taking 4000000))
