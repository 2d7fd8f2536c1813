-- ===== src/Stream/Outgoing.antt =====
-- The packets that the host takes while stream_tx runs.
pub mod Round
pub mod Download
use usb_fwu.Base.{
  ℕ, zero, suc, ◌+◌, ◌-◌, ◌*◌, ◌%◌, ◌≤◌, ◌<◌, ◌≡◌, ◌⊎◌, inl, inr, refl, ap, sym, ◌∙◌, arith, Option,
  none, some, List, [], ◌∷◌, ◌++◌, append_assoc, length, true,
}
use usb_fwu.Memory.{Mem, bytes_at}
use usb_fwu.Memory.Copy.{store_bytes-other}
use usb_fwu.Image.{fw_load_addr}
use usb_fwu.Queue.{entry, fwu_queue_put, fwu_queue_get}
use usb_fwu.Queue.Valid.{count, fwu_queue_tst-cases, enqueue-full, enqueue-room}
use usb_fwu.Queue.Fifo
use usb_fwu.Queue.Fifo.{Packet}
use usb_fwu.Queue.Refine.{contents, fwu_queue_get_refines}
use usb_fwu.Stream.{Layout, Loader, Event, received, transmitted, interrupt, interrupts}
use usb_fwu.Stream.Tx.{TxLocals, TxEnd, TxNext, again, stop, timed_out, tx_round}
use usb_fwu.Stream.Safe.{AreApart, InRam, SameFlash, IsSound, AllSound, array-get, interrupt-Kept}
use usb_fwu.Stream.Send.{window-congr}
use usb_fwu.Stream.Sent.{tx_target}
use usb_fwu.Stream.Arrivals.{joined}

abbrev first_of : List Packet → List Packet
first_of [] = []
first_of (p ∷ ps) = p ∷ []

first_then_rest : (ps : List Packet) → ps ≡ first_of ps ++ (Fifo.take_first ps).1
unfolding Fifo.take_first
first_then_rest [] = refl
first_then_rest (p ∷ ps) = refl

module _ {Chip : Type 0} where
  -- The packets in the queue for the host, the oldest first.
  abbrev pub sending : Loader Chip → List Packet
  sending l = contents l.mem l.queue_ep2_tx

  -- The packets that the host takes, in order.
  abbrev taken_by : Event → Loader Chip → List Packet
  taken_by (received p) l = []
  taken_by transmitted l = first_of (sending l)

  unfoldable pub taken : List Event → Loader Chip → List Packet
  taken [] l = []
  taken (e ∷ es) l = taken_by e l ++ taken es (interrupt e l)

  -- The arrays of the two queues have no byte in common.
  abbrev pub QueuesApart : Loader Chip → Type 0
  QueuesApart l =
      AreApart l.queue_ep2_rx.data_fifo (l.queue_ep2_rx.num_entries * 64) l.queue_ep2_tx.data_fifo
        (l.queue_ep2_tx.num_entries * 64)

  interrupt-sending :
      (layout : Layout) (e : Event) (l : Loader Chip)
      → InRam layout l
      → IsSound e
      → QueuesApart l
      → (QueuesApart (interrupt e l)) × (sending l ≡ taken_by e l ++ sending (interrupt e l))
  unfolding interrupt
  interrupt-sending layout (received p) l w s a = elim (fwu_queue_tst-cases w.rx.valid) [
    | inl (full, size) ↦ rw (enqueue-full l.mem l.queue_ep2_rx p full) (a, refl)
    | inr (free, room) ↦
        let i = entry l.queue_ep2_rx l.queue_ep2_rx.header_cnt in
        let q = l.queue_ep2_tx in
        rw (enqueue-room l.mem l.queue_ep2_rx p i free) (
          unfold fwu_queue_put in a,
          window-congr l.mem _ q.data_fifo q.num_entries
              (λ b lo hi. sym (store_bytes-other p l.mem i b (omega (arith, a, w.rx.valid, s))))
              q.tail_cnt (count q) w.tx.valid.tail_in,
        )
  ]
  interrupt-sending layout transmitted l w s a = (
    omega (arith, array-get l.queue_ep2_tx),
    first_then_rest (sending l)
        ∙ ap (λ (o : Option Packet × List Packet). first_of (sending l) ++ o.1)
            (sym (fwu_queue_get_refines l.mem l.queue_ep2_tx w.tx.valid)),
  )

  -- What the queue for the host held, the host has taken or it is still there.
  pub interrupts-sending :
      (layout : Layout) (es : List Event) (l : Loader Chip)
      → InRam layout l
      → AllSound es
      → QueuesApart l
      → (QueuesApart (interrupts es l)) × (sending l ≡ taken es l ++ sending (interrupts es l))
  unfolding interrupts taken
  interrupts-sending layout [] l w s a = (a, refl)
  interrupts-sending layout (e ∷ es) l w s a =
      let (a1, here) = interrupt-sending layout e l w s.0 a in
      let (a2, rest) =
        interrupts-sending layout es (interrupt e l) (interrupt-Kept e l w s.0).in_ram s.1 a1 in
      (
        a2,
        here
            ∙ ap (λ (ps : List Packet). taken_by e l ++ ps) rest
            ∙ sym (
                append_assoc (taken_by e l) (taken es (interrupt e l))
                  (sending (interrupts es (interrupt e l)))),
      )

-- Between two rounds of `stream_tx`: what has left the queue and what is in it is what was to be sent
-- before, and then the first `nbytes` bytes of the firmware, as it was in the flash at the beginning.
pub record IsGoingOut {Chip : Type 0} (before : List ℕ) (m0 : Mem) (out : List Packet)
    (last_pos : ℕ) (t : TxLocals) (l : Loader Chip) : Type 0 where
  pub sent : joined (out ++ sending l) ≡ before ++ bytes_at m0 fw_load_addr t.nbytes
  pub flash : SameFlash m0 l.mem
  pub apart : QueuesApart l
  pub ended : t.f_end ≡ true → last_pos ≤ t.flash_ptr

-- The whole blocks that cover the firmware are sent.
abbrev pub IsSent : {Chip : Type 0} → List ℕ → Mem → List Packet → ℕ → Loader Chip → Type 0
IsSent before m0 out last_pos l =
    joined (out ++ sending l) ≡ before ++ bytes_at m0 fw_load_addr (tx_target last_pos)

-- What a round leaves.
abbrev pub AfterTxRound :
    {Chip : Type 0} → List ℕ → Mem → List Packet → ℕ → Option (TxNext Chip) → Type 0
AfterTxRound before m0 out last_pos none = Unit {0}
AfterTxRound before m0 out last_pos (some (again t l)) = IsGoingOut before m0 out last_pos t l
AfterTxRound before m0 out last_pos (some (stop e l)) =
    (e ≡ timed_out) ⊎ IsSent before m0 out last_pos l

module _ {Chip : Type 0} (layout : Layout) where
  abbrev after_tx_round :
      Option (TxNext Chip) → (TxLocals → Loader Chip → List Packet) → List Packet
  after_tx_round none later = []
  after_tx_round (some (again t l)) later = later t l
  after_tx_round (some (stop e l)) later = []

  -- The packets that the host takes before the round in which `tx_loop` ends.
  unfoldable pub departures : List (List Event) → ℕ → TxLocals → Loader Chip → List Packet
  departures [] last_pos t l = []
  departures (es ∷ rest) last_pos t l =
      taken es l
      ++ after_tx_round (tx_round layout last_pos t (interrupts es l)) (departures rest last_pos)

  pub departures-again :
      (es : List Event) (rest : List (List Event)) (last_pos : ℕ) (t t' : TxLocals)
      (l l' : Loader Chip)
      → tx_round layout last_pos t (interrupts es l) ≡ some (again t' l')
      → departures (es ∷ rest) last_pos t l ≡ taken es l ++ departures rest last_pos t' l'
  unfolding departures
  departures-again es rest last_pos t t' l l' e =
      ap (λ (o : Option (TxNext Chip)). taken es l ++ after_tx_round o (departures rest last_pos)) e

  pub departures-stop :
      (es : List Event) (rest : List (List Event)) (last_pos : ℕ) (t : TxLocals)
      (l l' : Loader Chip) (end : TxEnd)
      → tx_round layout last_pos t (interrupts es l) ≡ some (stop end l')
      → departures (es ∷ rest) last_pos t l ≡ taken es l ++ []
  unfolding departures
  departures-stop es rest last_pos t l l' end e =
      ap (λ (o : Option (TxNext Chip)). taken es l ++ after_tx_round o (departures rest last_pos)) e
