-- ===== src/Stream/Total.antt =====
-- stream_rx comes to an end, whatever the host does, and leaves the upgrader's own flash alone.
use usb_fwu.Base.{
  ℕ, ◌+◌, ◌-◌, ◌*◌, ◌/◌, ◌%◌, ◌≤◌, ◌<◌, ◌≡◌, inl, inr, refl, ap, ◌∙◌, arith, Option, some,
  Bool-cases, List, [], ◌∷◌, length, leb,
}
use usb_fwu.Memory.{Mem, s_memcpy, move}
use usb_fwu.Memory.Copy.{s_memcpy_lem}
use usb_fwu.Queue.{FwuDq, entry, advance, fwu_queue_get}
use usb_fwu.Queue.Valid.{IsValid, fwu_queue_get-cases, fwu_queue_get-IsValid}
use usb_fwu.Flash.Rom.{Iap}
use usb_fwu.Stream.{Layout, Loader, Event, interrupts, set_state, state_default, stream_buf_size}
use usb_fwu.Stream.Rx.{
  RxLocals, RxEnd, RxNext, again, stop, timed_out, rx_timrout, rx_start, rx_packet, rx_round,
  rx_loop, stream_rx,
}
use usb_fwu.Stream.Safe.{
  AreApart, InRam, InRam-queues, SameBelow, Kept, Kept-refl, AllRounds, interrupts-Kept, move-other,
}
use usb_fwu.Stream.Block.{
  rx_target, IsLength, target_aligned, AreFine, rounds_left, GoesWell, rebase, rx_block_well,
}

-- The start of `stream_rx`.
pub rx_start-AreFine : (fw_length : ℕ) → AreFine fw_length rx_start
unfolding rx_start
rx_start-AreFine fw_length = record {
  packets = refl;
  room = omega arith;
  counted = refl;
  fewer = ground arith;
  beyond = omega arith;
  waiting = omega arith;
  patience = omega arith;
}

module _ (iap : Iap) (layout : Layout) (fuel : ℕ) (enough : iap.max_pending < fuel) where
  open iap use {Chip}

  rx_packet_well :
      (r : RxLocals) (l : Loader Chip) (ptr : ℕ)
      → InRam layout l
      → IsLength l.info.fw_length
      → AreFine l.info.fw_length r
      → AreApart layout.g_stream_rx_buf 4096 ptr 64
      → (n : RxNext Chip) × (rx_packet iap layout fuel ptr r l ≡ some n)
        × GoesWell iap layout fuel enough (rounds_left l.info.fw_length r) l n
  unfolding rx_packet
  rx_packet_well r l ptr w small f apart =
      elim (Bool-cases (leb stream_buf_size (r.buf_ind + 64))) [
        | inl full ↦
            let (n, ends, well) =
              rx_block_well iap layout fuel enough r1 l1 (rounds_left l.info.fw_length r) k.in_ram
                small (ground arith) (omega (arith, aligned)) f.beyond refl
                (omega (arith, aligned)) in
            (
              n,
              rw (copied, rx_packet, full, ends),
              rebase iap layout fuel enough (rounds_left l.info.fw_length r) l l1 n k well,
            )
        | inr part ↦ (
          again r1 l1,
          rw (copied, rx_packet, part),
          (
            k,
            record {
              packets = omega arith;
              room = ground arith;
              counted = ground arith;
              fewer = ground (arith, aligned);
              beyond = f.beyond;
              waiting = omega arith;
              patience = omega arith;
            },
            omega (arith, aligned),
          ),
        )
      ]
    where
      aligned : rx_target l.info.fw_length % 4096 ≡ 0
      aligned = target_aligned l.info.fw_length

      dst : ℕ
      dst = layout.g_stream_rx_buf + r.buf_ind

      m : Mem
      m = move 64 dst ptr l.mem

      r1 : RxLocals
      r1 = record {
        buf_ind = r.buf_ind + 64;
        nbytes = r.nbytes + 64;
        flash_addr = r.flash_addr;
        timeout = rx_timrout;
      }

      l1 : Loader Chip
      l1 = record l { mem = m }

      copied : s_memcpy dst ptr 64 l.mem ≡ some m
      copied = s_memcpy_lem dst ptr 64 l.mem (omega arith) (omega arith)

      k : Kept layout l l1
      k = record {
        in_ram = InRam-queues l l1 w refl refl;
        below = λ a h. move-other 64 dst ptr l.mem a (inl (omega (arith, w.stream_in_ram)));
        info = refl;
      }

  -- A round that gets an entry goes on with its packet.
  pub rx_round-packet :
      (r : RxLocals) (l : Loader Chip) (ptr : ℕ) (q : FwuDq)
      → fwu_queue_get l.queue_ep2_rx ≡ (some ptr, q)
      → rx_round iap layout fuel r l
        ≡ rx_packet iap layout fuel ptr r (record l { queue_ep2_rx = q })
  unfolding rx_round
  rx_round-packet r l ptr q got =
      rw (got, rx_round)
        (ap
          (λ (g : Option ℕ × FwuDq).
            rx_packet iap layout fuel ptr r (record l { queue_ep2_rx = g.1 }))
          got)

  -- A round comes to its end with fewer rounds left, or ends the function.
  pub rx_round_well :
      (r : RxLocals) (l : Loader Chip)
      → InRam layout l
      → IsLength l.info.fw_length
      → AreFine l.info.fw_length r
      → (n : RxNext Chip) × (rx_round iap layout fuel r l ≡ some n)
        × GoesWell iap layout fuel enough (rounds_left l.info.fw_length r) l n
  unfolding rx_round set_state
  rx_round_well r l w small f = elim (fwu_queue_get-cases w.rx.valid) [
    | inr (got, more) ↦
        let l1 : Loader Chip = record l {
          queue_ep2_rx = record q { tail_cnt = advance q.num_entries q.tail_cnt };
        } in
        let valid : IsValid l1.queue_ep2_rx = rw got at (fwu_queue_get-IsValid w.rx.valid).0 in
        let k : Kept layout l l1 = record {
          in_ram = record {
            rx = record { valid = valid; in_ram = w.rx.in_ram };
            tx = w.tx;
            stream_in_ram = w.stream_in_ram;
            cmd_in_ram = w.cmd_in_ram;
            stream_apart = w.stream_apart;
            cmd_apart = w.cmd_apart;
          };
          below = λ a h. refl;
          info = refl;
        } in
        let (n, ends, well) =
          rx_packet_well r l1 (entry q q.tail_cnt) k.in_ram small f
            (omega (arith, w.stream_apart, w.rx.valid)) in
        (
          n,
          rx_round-packet r l (entry q q.tail_cnt) l1.queue_ep2_rx got ∙ ends,
          rebase iap layout fuel enough (rounds_left l.info.fw_length r) l l1 n k well,
        )
    | inl (got, empty) ↦ elim (Bool-cases (leb (r.timeout - 1) 0)) [
      | inl over ↦ (
        stop timed_out (set_state state_default l),
        rw (got, rx_round, over)
            (ap
              (λ (g : Option ℕ × FwuDq).
                some (stop timed_out (set_state state_default (record l { queue_ep2_rx = g.1 }))))
              got),
        (InRam-queues l (set_state state_default l) w refl refl, λ a h. refl),
      )
      | inr wait ↦ (
        again (record r { timeout = r.timeout - 1 }) l,
        rw (got, rx_round, wait)
            (ap
              (λ (g : Option ℕ × FwuDq).
                some
                  (again (record r { timeout = r.timeout - 1 }) (record l { queue_ep2_rx = g.1 })))
              got),
        (
          Kept-refl w,
          record {
            packets = f.packets;
            room = f.room;
            counted = f.counted;
            fewer = f.fewer;
            beyond = f.beyond;
            waiting = ground arith;
            patience = omega arith;
          },
          omega arith,
        ),
      )
    ]
  ]
    where
      q : FwuDq
      q = l.queue_ep2_rx

  -- The loop comes to an end, and its last state keeps the layout and the flash below the firmware.
  abbrev Ends : List (List Event) → RxLocals → Loader Chip → Type 0
  Ends rounds r l =
      (e : RxEnd) × (l' : Loader Chip) × (rx_loop iap layout fuel rounds r l ≡ some (e, l'))
      × InRam layout l'
      × SameBelow l.mem l'.mem

  rx_loop_well :
      (rounds : List (List Event)) (r : RxLocals) (l : Loader Chip)
      → InRam layout l
      → IsLength l.info.fw_length
      → AreFine l.info.fw_length r
      → AllRounds rounds
      → rounds_left l.info.fw_length r ≤ length rounds
      → Ends rounds r l
  unfolding rx_loop
  rx_loop_well [] r l w small f s enough_rounds = absurd (omega arith)
  rx_loop_well (es ∷ rest) r l w small f s enough_rounds =
      let l1 = interrupts es l in
      let k = interrupts-Kept es l w s.0 in
      let (n, ends, well) = rx_round_well r l1 k.in_ram (rw k.info small) (rw k.info f) in
      next n ends (rebase iap layout fuel enough (rounds_left l1.info.fw_length r) l l1 n k well)
        k.info (rx_loop_well rest)
    where
      next :
          (n : RxNext Chip)
          → rx_round iap layout fuel r (interrupts es l) ≡ some n
          → GoesWell iap layout fuel enough (rounds_left (interrupts es l).info.fw_length r) l n
          → (interrupts es l).info ≡ l.info
          → ((r' : RxLocals) (l' : Loader Chip)
              → InRam layout l'
              → IsLength l'.info.fw_length
              → AreFine l'.info.fw_length r'
              → AllRounds rest
              → rounds_left l'.info.fw_length r' ≤ length rest
              → Ends rest r' l')
          → Ends (es ∷ rest) r l
      next (stop e l') ends well same ih = (e, l', rw (ends, rx_loop), well.0, well.1)
      next (again r' l') ends well same ih =
          let k : Kept layout l l' = well.0 in
          let fewer : rounds_left l.info.fw_length r' < rounds_left l.info.fw_length r =
            rw same at well.2 in
          let (e, l'', runs, w', below) =
            ih r' l' k.in_ram (rw k.info small) (rw k.info well.1) s.1 (rw k.info (omega arith)) in
          (e, l'', rw (ends, rx_loop) runs, w', λ a h. below a h ∙ k.below a h)

  -- With the buffers in RAM and apart, a stated length of at most 0x7ffff000 and packets of 64
  -- bytes, `stream_rx` comes to an end within a number of rounds that the length bounds, whatever
  -- the host sends and when, and whatever the flash answers. The flash below the firmware, where
  -- the upgrader stands, is then as it was.
  pub stream_rx-total :
      (rounds : List (List Event)) (l : Loader Chip)
      → InRam layout l
      → IsLength l.info.fw_length
      → AllRounds rounds
      → (rx_target l.info.fw_length / 64 + 1) * 60000 ≤ length rounds
      → (e : RxEnd) × (l' : Loader Chip) × (stream_rx iap layout fuel rounds l ≡ some (e, l'))
        × InRam layout l'
        × SameBelow l.mem l'.mem
  unfolding stream_rx rx_start
  stream_rx-total rounds l w small s enough_rounds =
      rx_loop_well rounds rx_start l w small (rx_start-AreFine l.info.fw_length) s (omega arith)
