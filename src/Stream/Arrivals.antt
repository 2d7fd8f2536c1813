-- ===== src/Stream/Arrivals.antt =====
-- The packets that the receive interrupt puts into the queue while stream_rx runs.
use usb_fwu.Base.{
  ℕ, ◌+◌, ◌≤◌, ◌<◌, ◌≡◌, ◌⊎◌, inl, inr, refl, ap, sym, ◌∙◌, arith, Option, none, some, List, [],
  ◌∷◌, ◌++◌, append-nil, append_assoc, ltb, ◌-◌, Bool-cases, length, Bool, true, false,
}
use usb_fwu.Memory.Copy.{store_bytes-other}
use usb_fwu.Image.{ram_start_addr}
use usb_fwu.Queue.{entry, enqueue}
use usb_fwu.Queue.Valid.{fwu_queue_tst-cases, enqueue-full, enqueue-room}
use usb_fwu.Queue.Fifo
use usb_fwu.Queue.Fifo.{Packet}
use usb_fwu.Queue.Refine.{contents, enqueue_refines}
use usb_fwu.Flash.Rom.{Iap}
use usb_fwu.Stream.{Layout, Loader, Event, received, transmitted, interrupt, interrupts}
use usb_fwu.Stream.Rx.{RxLocals, RxEnd, RxNext, again, stop, rx_round}
use usb_fwu.Stream.Safe.{InRam, IsSound, AllSound, interrupt-Kept}

-- The bytes of packets in a row.
abbrev pub joined : List Packet → List ℕ
joined [] = []
joined (p ∷ ps) = p ++ joined ps

abbrev pub if_taken : Bool → Packet → List Packet → List Packet
if_taken true p ps = p ∷ ps
if_taken false p ps = ps

-- Flash, or the stream buffer.
abbrev pub IsAside : Layout → ℕ → Type 0
IsAside layout a =
    (a < ram_start_addr) ⊎ ((layout.g_stream_rx_buf ≤ a) × (a < layout.g_stream_rx_buf + 4096))

-- What a bounded queue holds behind an offer, and the packets that come later.
pub offer-append :
    (capacity : ℕ) (q : List Packet) (p : Packet) (more : List Packet) (o : Bool × List Packet)
    → o ≡ Fifo.offer capacity q p
    → o.1 ++ more ≡ q ++ if_taken o.0 p more
unfolding Fifo.offer
offer-append capacity q p more o h = rw h (elim (Bool-cases (ltb (length q) capacity)) [
  | inl room ↦ rw room (append_assoc q (p ∷ []) more)
  | inr full ↦ rw full refl
])

module _ {Chip : Type 0} where
  -- The packets that find room, in the order in which they come.
  unfoldable pub accepted : List Event → Loader Chip → List Packet
  accepted [] l = []
  accepted (received p ∷ es) l =
      if_taken (enqueue p (l.mem, l.queue_ep2_rx)).0 p (accepted es (interrupt (received p) l))
  accepted (transmitted ∷ es) l = accepted es (interrupt transmitted l)

  -- The packets in the receive queue, the oldest first.
  abbrev pub waiting : Loader Chip → List Packet
  waiting l = contents l.mem l.queue_ep2_rx

  interrupt-aside :
      (layout : Layout) (e : Event) (l : Loader Chip) (a : ℕ)
      → InRam layout l
      → IsSound e
      → IsAside layout a
      → (interrupt e l).mem a ≡ l.mem a
  unfolding interrupt
  interrupt-aside layout (received p) l a w s h = elim (fwu_queue_tst-cases w.rx.valid) [
    | inl (full, size) ↦ rw (enqueue-full l.mem l.queue_ep2_rx p full) refl
    | inr (free, room) ↦
        let i = entry l.queue_ep2_rx l.queue_ep2_rx.header_cnt in
        rw (enqueue-room l.mem l.queue_ep2_rx p i free)
          (store_bytes-other p l.mem i a (omega (arith, w.rx.in_ram, w.stream_apart, w.rx.valid)))
  ]
  interrupt-aside layout transmitted l a w s h = refl

  -- The interrupts leave the flash and the stream buffer alone.
  pub interrupts-aside :
      (layout : Layout) (es : List Event) (l : Loader Chip) (a : ℕ)
      → InRam layout l
      → AllSound es
      → IsAside layout a
      → (interrupts es l).mem a ≡ l.mem a
  unfolding interrupts
  interrupts-aside layout [] l a w s h = refl
  interrupts-aside layout (e ∷ es) l a w s h =
      interrupts-aside layout es (interrupt e l) a (interrupt-Kept e l w s.0).in_ram s.1 h
      ∙ interrupt-aside layout e l a w s.0 h

  -- After interrupts the queue holds what it held and what was accepted.
  pub interrupts-waiting :
      (layout : Layout) (es : List Event) (l : Loader Chip)
      → InRam layout l
      → AllSound es
      → waiting (interrupts es l) ≡ waiting l ++ accepted es l
  unfolding interrupts accepted interrupt
  interrupts-waiting layout [] l w s = sym (append-nil (waiting l))
  interrupts-waiting layout (received p ∷ es) l w s =
      let next =
        interrupts-waiting layout es (interrupt (received p) l)
          (interrupt-Kept (received p) l w s.0).in_ram s.1 in
      let here = enqueue_refines l.mem l.queue_ep2_rx p w.rx.valid s.0 in
      next
      ∙ offer-append (l.queue_ep2_rx.num_entries - 1) (waiting l) p
          (accepted es (interrupt (received p) l)) _ here
  interrupts-waiting layout (transmitted ∷ es) l w s =
      interrupts-waiting layout es (interrupt transmitted l)
        (interrupt-Kept transmitted l w s.0).in_ram s.1

module _ (iap : Iap) (layout : Layout) (fuel : ℕ) where
  open iap use {Chip}

  -- What comes after a round, given what comes after another state.
  abbrev after_round : Option (RxNext Chip) → (RxLocals → Loader Chip → List Packet) → List Packet
  after_round none later = []
  after_round (some (again r l)) later = later r l
  after_round (some (stop e l)) later = []

  -- The packets that are accepted before the round in which `rx_loop` ends.
  unfoldable pub arrivals : List (List Event) → RxLocals → Loader Chip → List Packet
  arrivals [] r l = []
  arrivals (es ∷ rest) r l =
      accepted es l ++ after_round (rx_round iap layout fuel r (interrupts es l)) (arrivals rest)

  pub arrivals-again :
      (es : List Event) (rest : List (List Event)) (r r' : RxLocals) (l l' : Loader Chip)
      → rx_round iap layout fuel r (interrupts es l) ≡ some (again r' l')
      → arrivals (es ∷ rest) r l ≡ accepted es l ++ arrivals rest r' l'
  unfolding arrivals
  arrivals-again es rest r r' l l' e =
      ap (λ (o : Option (RxNext Chip)). accepted es l ++ after_round o (arrivals rest)) e

  pub arrivals-stop :
      (es : List Event) (rest : List (List Event)) (r : RxLocals) (l l' : Loader Chip) (end : RxEnd)
      → rx_round iap layout fuel r (interrupts es l) ≡ some (stop end l')
      → arrivals (es ∷ rest) r l ≡ accepted es l ++ []
  unfolding arrivals
  arrivals-stop es rest r l l' end e =
      ap (λ (o : Option (RxNext Chip)). accepted es l ++ after_round o (arrivals rest)) e
