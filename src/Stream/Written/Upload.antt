-- ===== src/Stream/Written/Upload.antt =====
-- An upload: from the packets that come to the firmware in the flash.
use usb_fwu.Base.{
  ℕ, ◌+◌, ◌-◌, ◌*◌, ◌/◌, ◌≤◌, ◌<◌, ◌≡◌, ◌⊎◌, inl, inr, refl, ap, sym, ◌∙◌, arith, Option, none,
  some, List, [], ◌∷◌, ◌++◌, append_assoc, length,
}
use usb_fwu.Queue.Fifo.{Packet}
use usb_fwu.Flash.Rom.{Iap}
use usb_fwu.Flash.Write.Works.{IsSource, IsBlank, Works}
use usb_fwu.Image.{FwInfo, fw_load_addr}
use usb_fwu.Stream.{Layout, Loader, Event, received, transmitted, interrupt, interrupts}
use usb_fwu.Stream.Rx.{
  RxLocals, RxEnd, RxNext, again, stop, timed_out, rx_start, rx_round, rx_loop, stream_rx,
}
use usb_fwu.Stream.Safe.{InRam, Kept, AllSound, AllRounds, interrupts-Kept}
use usb_fwu.Stream.Block.{rx_target, IsLength, AreFine, GoesWell, rounds_left}
use usb_fwu.Stream.Total.{rx_round_well, rx_start-AreFine, stream_rx-total}
use usb_fwu.Stream.Arrivals.{
  joined, accepted, waiting, arrivals, arrivals-again, arrivals-stop, interrupts-waiting,
  interrupts-aside,
}
use usb_fwu.Stream.Written.{
  described, Completed, IsUnderWay, AfterRound, joined-append, target_bound,
}
use usb_fwu.Stream.Written.Round.{rx_round-AfterRound}

interrupt-chip : {Chip : Type 0} (e : Event) (l : Loader Chip) → (interrupt e l).chip ≡ l.chip
unfolding interrupt
interrupt-chip (received p) l = refl
interrupt-chip transmitted l = refl

interrupts-chip :
    {Chip : Type 0} (es : List Event) (l : Loader Chip) → (interrupts es l).chip ≡ l.chip
unfolding interrupts
interrupts-chip [] l = refl
interrupts-chip (e ∷ es) l = interrupts-chip es (interrupt e l) ∙ interrupt-chip e l

-- What accepted packets do to an upload that is under way.
interrupts-IsUnderWay :
    {Chip : Type 0} (Idle : Chip → Type 0) (layout : Layout) (bytes : List ℕ) (more : List Packet)
    (r : RxLocals) (es : List Event) (l : Loader Chip)
    → InRam layout l
    → AllSound es
    → r.buf_ind ≤ 4096
    → l.info.fw_length ≤ 503808
    → IsUnderWay Idle layout bytes (accepted es l ++ more) r l
    → IsUnderWay Idle layout bytes more r (interrupts es l)
interrupts-IsUnderWay Idle layout bytes more r es l w s room small u = record {
  rest =
      u.rest
      ∙ ap (λ (xs : List ℕ). joined (waiting l) ++ xs) (joined-append (accepted es l) more)
      ∙ sym (append_assoc (joined (waiting l)) (joined (accepted es l)) (joined more))
      ∙ ap (λ (xs : List ℕ). xs ++ joined more) (sym (joined-append (waiting l) (accepted es l)))
      ∙ ap (λ (ps : List Packet). joined ps ++ joined more)
          (sym (interrupts-waiting layout es l w s));
  place = u.place;
  bound = u.bound;
  in_flash = λ k lt.
      interrupts-aside layout es l (fw_load_addr + k) w s (inl (omega (arith, u.place, u.bound)))
      ∙ u.in_flash k lt
      ∙ ap (λ (i : FwInfo). described i bytes k) (sym (interrupts-Kept es l w s).info);
  idle = rw (interrupts-chip es l) u.idle;
  blank = λ a lo hi.
      let same : rx_target (interrupts es l).info.fw_length ≡ rx_target l.info.fw_length =
        ap (λ (i : FwInfo). rx_target i.fw_length) (interrupts-Kept es l w s).info in
      interrupts-aside layout es l a w s
        (inl (omega (arith, target_bound l.info.fw_length small, same)))
      ∙ u.blank a lo (omega (arith, same));
  in_buffer = λ k lt.
      interrupts-aside layout es l (layout.g_stream_rx_buf + k) w s (inr (omega arith, omega arith))
      ∙ u.in_buffer k lt;
}

-- An upload begins.
rx_start-IsUnderWay :
    {Chip : Type 0} (Idle : Chip → Type 0) (layout : Layout) (more : List Packet) (l : Loader Chip)
    → Idle l.chip
    → IsBlank fw_load_addr (rx_target l.info.fw_length) l.mem
    → IsUnderWay Idle layout (joined (waiting l ++ more)) more rx_start l
unfolding rx_start
rx_start-IsUnderWay Idle layout more l idle blank = record {
  rest = joined-append (waiting l) more;
  place = refl;
  bound = omega arith;
  in_flash = λ k lt. absurd (omega arith);
  idle = idle;
  blank = λ a lo hi.
      let back : fw_load_addr + (a - fw_load_addr) ≡ a = omega arith in
      ap l.mem (sym back) ∙ blank (a - fw_load_addr) (omega arith);
  in_buffer = λ k lt. absurd (omega arith);
}

module _ (iap : Iap) (layout : Layout) (fuel : ℕ) (works : Works iap)
    (enough : iap.max_pending < fuel) (source : IsSource layout.g_stream_rx_buf 4096) where
  open iap use {Chip}

  abbrev AtEnd : List ℕ → FwInfo → Option (RxEnd × Loader Chip) → Type 0
  AtEnd bytes info none = Unit {0}
  AtEnd bytes info (some (e, l)) = (e ≡ timed_out) ⊎ Completed layout info bytes e l.mem

  AtEnd-info :
      (bytes : List ℕ) (i j : FwInfo) (o : Option (RxEnd × Loader Chip))
      → i ≡ j
      → AtEnd bytes i o
      → AtEnd bytes j o
  AtEnd-info bytes i j o e a = rw (← e) a

  rx_loop-AtEnd :
      (bytes : List ℕ) (rounds : List (List Event)) (r : RxLocals) (l : Loader Chip)
      → InRam layout l
      → IsLength l.info.fw_length
      → l.info.fw_length ≤ 503808
      → AreFine l.info.fw_length r
      → AllRounds rounds
      → IsUnderWay works.Idle layout bytes (arrivals iap layout fuel rounds r l) r l
      → AtEnd bytes l.info (rx_loop iap layout fuel rounds r l)
  unfolding rx_loop
  rx_loop-AtEnd bytes [] r l w len small f s u = tt
  rx_loop-AtEnd bytes (es ∷ rest) r l w len small f s u =
      let k = interrupts-Kept es l w s.0 in
      let (n, ends, well) =
        rx_round_well iap layout fuel enough r l1 k.in_ram (rw k.info len) (rw k.info f) in
      next k n ends well (rx_loop-AtEnd bytes rest)
    where
      l1 : Loader Chip
      l1 = interrupts es l

      under :
          (more : List Packet)
          → arrivals iap layout fuel (es ∷ rest) r l ≡ accepted es l ++ more
          → Kept layout l l1
          → AfterRound works.Idle layout bytes more l1.info
              (rx_round iap layout fuel r (interrupts es l))
      under more same k =
          rx_round-AfterRound iap layout fuel works enough source bytes more r l1 k.in_ram
            (rw k.info f) (rw k.info small)
            (interrupts-IsUnderWay works.Idle layout bytes more r es l w s.0 (omega arith) small
              (rw same at u))

      next :
          Kept layout l l1
          → (n : RxNext Chip) → rx_round iap layout fuel r (interrupts es l) ≡ some n
          → GoesWell iap layout fuel enough (rounds_left l1.info.fw_length r) l1 n
          → ((r' : RxLocals) (l' : Loader Chip)
              → InRam layout l'
              → IsLength l'.info.fw_length
              → l'.info.fw_length ≤ 503808
              → AreFine l'.info.fw_length r'
              → AllRounds rest
              → IsUnderWay works.Idle layout bytes (arrivals iap layout fuel rest r' l') r' l'
              → AtEnd bytes l'.info (rx_loop iap layout fuel rest r' l'))
          → AtEnd bytes l.info (rx_loop iap layout fuel (es ∷ rest) r l)
      next k (again r' l') ends well ih =
          let more = arrivals iap layout fuel rest r' l' in
          let same : l'.info ≡ l.info = well.0.info ∙ k.info in
          let start = under more (arrivals-again iap layout fuel es rest r r' l l' ends) k in
          let on : IsUnderWay works.Idle layout bytes more r' l' = rw ends at start in
          let end =
            ih r' l' well.0.in_ram (rw same len) (rw same small) (rw well.0.info well.1) s.1 on in
          rw (ends, rx_loop)
            (AtEnd-info bytes l'.info l.info (rx_loop iap layout fuel rest r' l') same end)
      next k (stop e l') ends well ih =
          let start = under [] (arrivals-stop iap layout fuel es rest r l l' e ends) k in
          let over : AtEnd bytes l1.info (some (e, l')) = rw ends at start in
          rw (ends, rx_loop) (AtEnd-info bytes l1.info l.info (some (e, l')) k.info over)

  -- With the buffers in RAM and apart, the stream buffer on a word boundary and below the top 32
  -- bytes of RAM, packets of 64 bytes, a stated length of at most 503808, which the flash has room
  -- for, the flash erased from 0x2000 on for the blocks that cover that length, an idle ROM routine
  -- that carries out allowed copies into prepared sectors, and enough rounds: `stream_rx` comes to
  -- an end, and unless that is by a timeout, the flash then holds the firmware from 0x2000 on. Its
  -- bytes are those of the packets in the queue at the beginning and of the packets accepted
  -- meanwhile, in order, with the description that the host has given over the first sixteen; and
  -- it ends with an error exactly if the CRC of the code that stands there is not the one that the
  -- host has given.
  pub stream_rx-Completed :
      (rounds : List (List Event)) (l : Loader Chip)
      → InRam layout l
      → l.info.fw_length ≤ 503808
      → AllRounds rounds
      → works.Idle l.chip
      → IsBlank fw_load_addr (rx_target l.info.fw_length) l.mem
      → (rx_target l.info.fw_length / 64 + 1) * 60000 ≤ length rounds
      → let packets = waiting l ++ arrivals iap layout fuel rounds rx_start l in
        (e : RxEnd) × (l' : Loader Chip) × (stream_rx iap layout fuel rounds l ≡ some (e, l'))
        × ((e ≡ timed_out) ⊎ Completed layout l.info (joined packets) e l'.mem)
  unfolding stream_rx
  stream_rx-Completed rounds l w small s idle blank enough_rounds =
      let more = arrivals iap layout fuel rounds rx_start l in
      let len : IsLength l.info.fw_length = (omega arith, ground arith) in
      let (e, l', runs, in_ram, below) =
        stream_rx-total iap layout fuel enough rounds l w len s enough_rounds in
      let ran : rx_loop iap layout fuel rounds rx_start l ≡ some (e, l') = runs in
      let ended =
        rx_loop-AtEnd (joined (waiting l ++ more)) rounds rx_start l w len small
          (rx_start-AreFine l.info.fw_length) s
          (rx_start-IsUnderWay works.Idle layout more l idle blank) in
      (e, l', runs, rw ran at ended)
