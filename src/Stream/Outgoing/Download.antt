-- ===== src/Stream/Outgoing/Download.antt =====
-- A download: from the firmware in the flash to the packets that the host takes.
use usb_fwu.Base.{
  ℕ, ◌+◌, ◌-◌, ◌*◌, ◌/◌, ◌≤◌, ◌<◌, ◌≡◌, ◌⊎◌, inl, inr, refl, ap, sym, ◌∙◌, arith, Option, none,
  some, List, [], ◌∷◌, ◌++◌, append_assoc, append-nil, length, true, false,
}
use usb_fwu.Memory.{Mem, bytes_at}
use usb_fwu.Queue.Fifo.{Packet}
use usb_fwu.Image.{flash_size, fw_load_addr}
use usb_fwu.Stream.{Layout, Loader, Event, interrupts}
use usb_fwu.Stream.Tx.{
  TxLocals, TxEnd, TxNext, again, stop, timed_out, tx_start, tx_last_pos, tx_round, tx_loop,
  stream_tx,
}
use usb_fwu.Stream.Safe.{InRam, AllSound, AllRounds, Kept, interrupts-Kept}
use usb_fwu.Stream.Sent.{
  tx_target, IsSending, packets_left, SendsOn, tx_round_well, interrupts-g_full_block, last_pos-le,
  tx_start-IsSending, stream_tx-total,
}
use usb_fwu.Stream.Arrivals.{joined, interrupts-aside}
use usb_fwu.Stream.Outgoing.{
  sending, taken, QueuesApart, interrupts-sending, IsGoingOut, IsSent, AfterTxRound, departures,
  departures-again, departures-stop,
}
use usb_fwu.Stream.Outgoing.Round.{tx_round-AfterTxRound}

module _ {Chip : Type 0} (layout : Layout) (last_pos : ℕ) (in_flash : last_pos ≤ 0x40000)
    (before : List ℕ) (m0 : Mem) (some_firmware : fw_load_addr < last_pos) where
  -- What the host takes has gone out.
  interrupts-IsGoingOut :
      (out : List Packet) (t : TxLocals) (es : List Event) (l : Loader Chip)
      → InRam layout l
      → AllSound es
      → IsGoingOut before m0 out last_pos t l
      → IsGoingOut before m0 (out ++ taken es l) last_pos t (interrupts es l)
  interrupts-IsGoingOut out t es l w s g =
      let (apart, moved) = interrupts-sending layout es l w s g.apart in
      record {
        sent =
            ap joined (append_assoc out (taken es l) (sending (interrupts es l)))
            ∙ ap (λ (ps : List Packet). joined (out ++ ps)) (sym moved)
            ∙ g.sent;
        flash = λ a h. interrupts-aside layout es l a w s (inl h) ∙ g.flash a h;
        apart = apart;
        ended = g.ended;
      }

  abbrev AtTxEnd : List Packet → Option (TxEnd × Loader Chip) → Type 0
  AtTxEnd out none = Unit {0}
  AtTxEnd out (some (e, l)) = (e ≡ timed_out) ⊎ IsSent before m0 out last_pos l

  AtTxEnd-out :
      (out out' : List Packet) (o : Option (TxEnd × Loader Chip))
      → out ≡ out'
      → AtTxEnd out o
      → AtTxEnd out' o
  AtTxEnd-out out out' o e a = rw (← e) a

  tx_loop-AtTxEnd :
      (rounds : List (List Event)) (t : TxLocals) (l : Loader Chip) (out : List Packet)
      → InRam layout l
      → l.g_full_block ≡ 1
      → IsSending last_pos t
      → AllRounds rounds
      → IsGoingOut before m0 out last_pos t l
      → AtTxEnd (out ++ departures layout rounds last_pos t l) (tx_loop layout rounds last_pos t l)
  unfolding tx_loop
  tx_loop-AtTxEnd [] t l out w full f s g = tt
  tx_loop-AtTxEnd (es ∷ rest) t l out w full f s g =
      let (n, ends, well) = tx_round_well layout last_pos in_flash t l1 k.in_ram full1 f in
      next n ends well (tx_loop-AtTxEnd rest)
    where
      l1 : Loader Chip
      l1 = interrupts es l

      k : Kept layout l l1
      k = interrupts-Kept es l w s.0

      full1 : l1.g_full_block ≡ 1
      full1 = interrupts-g_full_block es l ∙ full

      gone : List Packet
      gone = out ++ taken es l

      after : AfterTxRound before m0 gone last_pos (tx_round layout last_pos t (interrupts es l))
      after =
          tx_round-AfterTxRound layout last_pos before m0 gone some_firmware t l1 k.in_ram in_flash
            full1 f (interrupts-IsGoingOut out t es l w s.0 g)

      next :
          (n : TxNext Chip)
          → tx_round layout last_pos t (interrupts es l) ≡ some n
          → SendsOn layout last_pos in_flash (packets_left last_pos t) l1 n
          → ((t' : TxLocals) (l' : Loader Chip) (out' : List Packet)
              → InRam layout l'
              → l'.g_full_block ≡ 1
              → IsSending last_pos t'
              → AllRounds rest
              → IsGoingOut before m0 out' last_pos t' l'
              → AtTxEnd
                  (out' ++ departures layout rest last_pos t' l')
                  (tx_loop layout rest last_pos t' l'))
          → AtTxEnd
              (out ++ departures layout (es ∷ rest) last_pos t l)
              (tx_loop layout (es ∷ rest) last_pos t l)
      next (again t' l') ends well ih =
          let on : IsGoingOut before m0 gone last_pos t' l' = rw ends at after in
          let later = departures layout rest last_pos t' l' in
          let same =
            append_assoc out (taken es l) later
            ∙ ap (λ (ps : List Packet). out ++ ps)
                (sym (departures-again layout es rest last_pos t t' l l' ends)) in
          rw (ends, tx_loop)
            (AtTxEnd-out (gone ++ later) _ (tx_loop layout rest last_pos t' l') same
              (ih t' l' gone well.0.in_ram well.1 well.2 s.1 on))
      next (stop e l') ends well ih =
          let over : AtTxEnd gone (some (e, l')) = rw ends at after in
          let same =
            ap (λ (ps : List Packet). out ++ ps)
              (sym (append-nil (taken es l))
                ∙ sym (departures-stop layout es rest last_pos t l l' e ends)) in
          rw (ends, tx_loop) (AtTxEnd-out gone _ (some (e, l')) same over)

-- A download begins.
tx_start-IsGoingOut :
    {Chip : Type 0} (last_pos : ℕ) (l : Loader Chip)
    → QueuesApart l
    → IsGoingOut (joined (sending l)) l.mem [] last_pos tx_start l
unfolding tx_start
tx_start-IsGoingOut last_pos l apart = record {
  sent = sym (append-nil (joined (sending l)));
  flash = λ a h. refl;
  apart = apart;
  ended = λ e. let never : false ≡ true = e in cc;
}

last_pos-firmware :
    (fw_length : ℕ)
    → 0 < fw_length
    → fw_length ≤ flash_size - fw_load_addr
    → (fw_load_addr < tx_last_pos fw_length)
      × (tx_target (tx_last_pos fw_length) ≡ (fw_length + 4095) / 4096 * 4096)
unfolding tx_last_pos
last_pos-firmware fw_length pos small = ground arith

-- An end of `stream_tx` that is no timeout.
pub stream_tx-AtEnd :
    {Chip : Type 0} (layout : Layout) (rounds : List (List Event)) (l l' : Loader Chip) (e : TxEnd)
    → InRam layout l
    → QueuesApart l
    → l.g_full_block ≡ 1
    → 0 < l.info.fw_length
    → l.info.fw_length ≤ flash_size - fw_load_addr
    → AllRounds rounds
    → stream_tx layout rounds l ≡ some (e, l')
    → let out = departures layout rounds (tx_last_pos l.info.fw_length) tx_start l in
      let n = (l.info.fw_length + 4095) / 4096 * 4096 in
      (e ≡ timed_out)
      ⊎ (joined (out ++ sending l') ≡ joined (sending l) ++ bytes_at l.mem fw_load_addr n)
unfolding stream_tx
stream_tx-AtEnd layout rounds l l' e w apart full pos small s runs =
    let last_pos = tx_last_pos l.info.fw_length in
    let (some_firmware, all) = last_pos-firmware l.info.fw_length pos small in
    let ran : tx_loop layout rounds last_pos tx_start l ≡ some (e, l') = runs in
    let ended =
      tx_loop-AtTxEnd layout last_pos (last_pos-le l.info.fw_length (omega arith))
        (joined (sending l)) l.mem some_firmware rounds tx_start l [] w full
        (tx_start-IsSending last_pos) s (tx_start-IsGoingOut last_pos l apart) in
    let done = rw ran at ended in
    elim done [
      | inl late ↦ inl late
      | inr same ↦
          inr (same ∙ ap (λ (n : ℕ). joined (sending l) ++ bytes_at l.mem fw_load_addr n) all)
    ]

-- With the buffers in RAM and apart, the two queues among them, packets of 64 bytes, full blocks
-- asked for, as GET_FW does, a firmware whose stated length is positive and at most the flash behind
-- the upgrader, and enough rounds: `stream_tx` comes to an end. Unless that is by a timeout, the
-- packets that the host has taken and those that still wait for it are the ones that waited at the
-- beginning, and then exactly the whole blocks of 4096 bytes that cover the firmware, as they stood
-- in the flash from 0x2000 on.
pub stream_tx-IsSent :
    {Chip : Type 0} (layout : Layout) (rounds : List (List Event)) (l : Loader Chip)
    → InRam layout l
    → QueuesApart l
    → l.g_full_block ≡ 1
    → 0 < l.info.fw_length
    → l.info.fw_length ≤ flash_size - fw_load_addr
    → AllRounds rounds
    → (tx_target (tx_last_pos l.info.fw_length) / 64 + 1) * 60000 ≤ length rounds
    → let out = departures layout rounds (tx_last_pos l.info.fw_length) tx_start l in
      let n = (l.info.fw_length + 4095) / 4096 * 4096 in
      (e : TxEnd) × (l' : Loader Chip) × (stream_tx layout rounds l ≡ some (e, l'))
      × ((e ≡ timed_out)
          ⊎ (joined (out ++ sending l') ≡ joined (sending l) ++ bytes_at l.mem fw_load_addr n))
stream_tx-IsSent layout rounds l w apart full pos small s enough =
    let (e, l', runs, in_ram, below) =
      stream_tx-total layout rounds l w full (omega arith) s enough in
    (e, l', runs, stream_tx-AtEnd layout rounds l l' e w apart full pos small s runs)
