-- ===== src/Host/Transfer/Download.antt =====
-- A download from end to end: the firmware in the flash comes to the file of the host.
use usb_fwu.Base.{
  ℕ, zero, suc, ◌+◌, ◌-◌, ◌*◌, ◌/◌, ◌≤◌, ◌<◌, ◌≡◌, ◌≢◌, inl, inr, refl, ap, ◌∙◌, arith, some, true,
  List, [], ◌∷◌, ◌++◌, length, take,
}
use usb_fwu.Memory.{Mem, bytes_at}
use usb_fwu.Memory.Copy.{length-bytes_at}
use usb_fwu.Image.{flash_size, fw_load_addr}
use usb_fwu.Stream.{Layout, Loader, Event}
use usb_fwu.Stream.Tx.{TxEnd, timed_out, tx_start, tx_last_pos, stream_tx}
use usb_fwu.Stream.Safe.{InRam, AllRounds}
use usb_fwu.Stream.Arrivals.{joined}
use usb_fwu.Stream.Outgoing.{sending, QueuesApart, departures}
use usb_fwu.Stream.Outgoing.Download.{stream_tx-AtEnd}
use usb_fwu.Host.Transfer.{HostData}
use usb_fwu.Host.Transfer.Stream.{rx_blocks, AreStreamBlocks, rx_blocks_lem}

take-bytes_at : (m : Mem) (k n a : ℕ) → k ≤ n → take k (bytes_at m a n) ≡ bytes_at m a k
take-bytes_at m zero n a h = refl
take-bytes_at m (suc k) zero a h = absurd (omega arith)
take-bytes_at m (suc k) (suc n) a h =
    ap (λ (xs : List ℕ). m a ∷ xs) (take-bytes_at m k n (a + 1) (omega arith))

-- What the device has, the host reads. Conditions on the device: the buffers in RAM and apart, the
-- two queues among them, no packet that waits at the beginning, full blocks asked for and a firmware
-- that fits behind the upgrader. On the host: a firmware that is valid, of the length that the device
-- states, and an empty file. If `stream_tx` has ended, not by a timeout, and the host's pipe brings
-- blocks of 4096 bytes that hold the packets out of the queue of the device and those still in it, in
-- order, then the file holds exactly the firmware as it was in the flash, its header included.
pub rx_blocks-stream_tx :
    {Chip : Type 0} (layout : Layout) (rounds : List (List Event)) (l l' : Loader Chip) (e : TxEnd)
    (blocks : List (List ℕ)) (g : HostData)
    → InRam layout l
    → QueuesApart l
    → sending l ≡ []
    → l.g_full_block ≡ 1
    → 0 < l.info.fw_length
    → l.info.fw_length ≤ flash_size - fw_load_addr
    → AllRounds rounds
    → stream_tx layout rounds l ≡ some (e, l')
    → e ≢ timed_out
    → AreStreamBlocks blocks
    → joined blocks
      ≡ joined (departures layout rounds (tx_last_pos l.info.fw_length) tx_start l ++ sending l')
    → g.fw.is_valid ≡ true
    → g.fw.len ≡ l.info.fw_length
    → g.h_rx_file ≡ some []
    → (rx_blocks blocks g).h_rx_file ≡ some (bytes_at l.mem fw_load_addr l.info.fw_length)
rx_blocks-stream_tx layout rounds l l' e blocks g w apart empty full pos small s runs no_timeout
      sizes brought valid len file =
    elim (stream_tx-AtEnd layout rounds l l' e w apart full pos small s runs) [
      | inl late ↦ absurd (no_timeout late)
      | inr same ↦
          let n = (l.info.fw_length + 4095) / 4096 * 4096 in
          let all : joined blocks ≡ bytes_at l.mem fw_load_addr n =
            brought
            ∙ same
            ∙ ap (λ (ps : List (List ℕ)). joined ps ++ bytes_at l.mem fw_load_addr n) empty in
          let size = ap (λ (xs : List ℕ). length xs) all in
          let read =
            rx_blocks_lem blocks g [] sizes valid (omega arith) (omega arith)
              (omega (arith, size, length-bytes_at l.mem fw_load_addr n)) file in
          read.0
          ∙ ap some (
              ap (take g.fw.len) all
              ∙ take-bytes_at l.mem g.fw.len n fw_load_addr (omega arith)
              ∙ ap (bytes_at l.mem fw_load_addr) len)
    ]
