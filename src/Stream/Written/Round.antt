-- ===== src/Stream/Written/Round.antt =====
-- A round of stream_rx takes a packet's bytes from the queue to where they belong.
use usb_fwu.Base.{
  ℕ, ◌+◌, ◌-◌, ◌*◌, ◌≤◌, ◌<◌, ◌≡◌, inl, inr, refl, ap, sym, ◌∙◌, arith, Option, none, some,
  Bool-cases, leb, ltb, List, ◌∷◌, ◌++◌, append_assoc, get_or, drop,
}
use usb_fwu.Memory.{Mem, move, s_memcpy, bytes_at}
use usb_fwu.Memory.Copy.{s_memcpy_lem, length-bytes_at}
use usb_fwu.Queue.{FwuDq, entry, advance, fwu_queue_get}
use usb_fwu.Queue.Valid.{IsValid, fwu_queue_get-cases, fwu_queue_get-IsValid}
use usb_fwu.Queue.Fifo.{Packet}
use usb_fwu.Queue.Refine.{window, contents}
use usb_fwu.Flash.Rom.{Iap}
use usb_fwu.Flash.Write.Works.{IsSource, Works}
use usb_fwu.Image.{fw_load_addr}
use usb_fwu.Stream.{Layout, Loader, set_state, stream_buf_size}
use usb_fwu.Stream.Rx.{RxLocals, rx_timrout, rx_packet, rx_round}
use usb_fwu.Stream.Safe.{AreApart, InRam, InRam-queues, move-other}
use usb_fwu.Stream.Send.{get_or-bytes_at}
use usb_fwu.Stream.Block.{target_aligned, AreFine}
use usb_fwu.Stream.Total.{rx_round-packet}
use usb_fwu.Stream.Arrivals.{joined, waiting}
use usb_fwu.Stream.Written.{
  IsUnderWay, AfterRound, waiting-congr, get_or-drop, get_or-append, drop-drop, drop-append,
  target_bound,
}
use usb_fwu.Stream.Written.Block.{move-within, rx_block-AfterRound}

module _ (iap : Iap) (layout : Layout) (fuel : ℕ) (works : Works iap)
    (enough : iap.max_pending < fuel) (source : IsSource layout.g_stream_rx_buf 4096) where
  open iap use {Chip}

  -- A packet at `ptr` that has come out of the queue `q`.
  rx_packet-AfterRound :
      (bytes : List ℕ) (more : List Packet) (r : RxLocals) (l : Loader Chip) (ptr : ℕ) (q : FwuDq)
      → InRam layout l
      → AreFine l.info.fw_length r
      → l.info.fw_length ≤ 503808
      → AreApart layout.g_stream_rx_buf 4096 ptr 64
      → waiting (record l { queue_ep2_rx = q }) ≡ bytes_at l.mem ptr 64 ∷ waiting l
      → IsUnderWay works.Idle layout bytes more r (record l { queue_ep2_rx = q })
      → AfterRound works.Idle layout bytes more l.info (rx_packet iap layout fuel ptr r l)
  unfolding rx_packet
  rx_packet-AfterRound bytes more r l ptr q w f small apart taken u =
      elim (Bool-cases (leb stream_buf_size (r.buf_ind + 64))) [
        | inl full ↦
            rw (copied, rx_packet, full)
              (rx_block-AfterRound iap layout fuel works bytes more r1 l1 enough source
                (InRam-queues l l1 w refl refl) under (ground arith) (ground arith) f.beyond small
                (omega (arith, target_aligned l.info.fw_length)))
        | inr part ↦ rw (copied, rx_packet, part) under
      ]
    where
      dst : ℕ
      dst = layout.g_stream_rx_buf + r.buf_ind

      m : Mem
      m = move 64 dst ptr l.mem

      packet : List ℕ
      packet = bytes_at l.mem ptr 64

      r1 : RxLocals
      r1 = record {
        buf_ind = r.buf_ind + 64;
        nbytes = r.nbytes + 64;
        flash_addr = r.flash_addr;
        timeout = rx_timrout;
      }

      l1 : Loader Chip
      l1 = record l { mem = m }

      copied : s_memcpy dst ptr 64 l.mem ≡ some m
      copied = s_memcpy_lem dst ptr 64 l.mem (omega arith) (omega arith)

      came : drop r.nbytes bytes ≡ packet ++ (joined (waiting l) ++ joined more)
      came =
          u.rest
          ∙ ap (λ (ps : List Packet). joined ps ++ joined more) taken
          ∙ append_assoc packet (joined (waiting l)) (joined more)

      byte : (k : ℕ) → k < 64 → m (dst + k) ≡ get_or bytes (r.nbytes + k) 0
      byte k lt =
          move-within 64 dst ptr k l.mem (dst + k) refl lt
          ∙ sym (get_or-bytes_at l.mem 64 ptr k lt)
          ∙ sym (
              get_or-append packet (joined (waiting l) ++ joined more) k
                (omega (arith, length-bytes_at l.mem ptr 64)))
          ∙ sym (ap (λ (xs : List ℕ). get_or xs k 0) came)
          ∙ sym (get_or-drop r.nbytes bytes k)

      in_queue :
          (a : ℕ)
          → l.queue_ep2_rx.data_fifo ≤ a
          → a < l.queue_ep2_rx.data_fifo + l.queue_ep2_rx.num_entries * 64
          → l.mem a ≡ m a
      in_queue a lo hi = sym (move-other 64 dst ptr l.mem a (omega (arith, w.stream_apart)))

      in_buffer :
          (k : ℕ)
          → k < r.buf_ind + 64
          → m (layout.g_stream_rx_buf + k) ≡ get_or bytes (r.nbytes + 64 - (r.buf_ind + 64) + k) 0
      in_buffer k lt = elim (Bool-cases (ltb k r.buf_ind)) [
        | inl old ↦
            let same : r.nbytes - r.buf_ind + k ≡ r.nbytes + 64 - (r.buf_ind + 64) + k =
              omega arith in
            move-other 64 dst ptr l.mem (layout.g_stream_rx_buf + k) (inl (ground arith))
            ∙ u.in_buffer k (ground arith)
            ∙ ap (λ (i : ℕ). get_or bytes i 0) same
        | inr new ↦
            let here : layout.g_stream_rx_buf + k ≡ dst + (k - r.buf_ind) = ground arith in
            let index : r.nbytes + (k - r.buf_ind) ≡ r.nbytes + 64 - (r.buf_ind + 64) + k =
              ground arith in
            ap m here ∙ byte (k - r.buf_ind) (omega arith) ∙ ap (λ (i : ℕ). get_or bytes i 0) index
      ]

      under : IsUnderWay works.Idle layout bytes more r1 l1
      under = record {
        rest =
            drop-drop r.nbytes 64 bytes
            ∙ ap (λ (xs : List ℕ). drop 64 xs) came
            ∙ drop-append 64 packet (joined (waiting l) ++ joined more)
                (length-bytes_at l.mem ptr 64)
            ∙ ap (λ (ps : List Packet). joined ps ++ joined more) (waiting-congr l m w in_queue);
        place = omega (arith, u.place);
        bound = omega (arith, target_aligned l.info.fw_length, target_bound l.info.fw_length small);
        in_flash = λ k lt.
            move-other 64 dst ptr l.mem (fw_load_addr + k)
              (inl (omega (arith, w.stream_in_ram, u.place, u.bound)))
            ∙ u.in_flash k lt;
        idle = u.idle;
        blank = λ a lo hi.
            move-other 64 dst ptr l.mem a
              (inl (omega (arith, w.stream_in_ram, target_bound l.info.fw_length small)))
            ∙ u.blank a lo hi;
        in_buffer = in_buffer;
      }

  -- A round that finds the queue empty.
  rx_round_idle :
      (bytes : List ℕ) (more : List Packet) (r : RxLocals) (l : Loader Chip)
      → fwu_queue_get l.queue_ep2_rx ≡ (none, l.queue_ep2_rx)
      → IsUnderWay works.Idle layout bytes more r l
      → AfterRound works.Idle layout bytes more l.info (rx_round iap layout fuel r l)
  unfolding rx_round set_state
  rx_round_idle bytes more r l got u = elim (Bool-cases (leb (r.timeout - 1) 0)) [
    | inl over ↦ rw (got, rx_round, over) (inl refl)
    | inr wait ↦
        rw (got, rx_round, wait)
          record {
            rest =
                u.rest
                ∙ ap (λ (g : Option ℕ × FwuDq). joined (contents l.mem g.1) ++ joined more)
                    (sym got);
            place = u.place;
            bound = u.bound;
            in_flash = u.in_flash;
            idle = u.idle;
            blank = u.blank;
            in_buffer = u.in_buffer;
          }
  ]

  pub rx_round-AfterRound :
      (bytes : List ℕ) (more : List Packet) (r : RxLocals) (l : Loader Chip)
      → InRam layout l
      → AreFine l.info.fw_length r
      → l.info.fw_length ≤ 503808
      → IsUnderWay works.Idle layout bytes more r l
      → AfterRound works.Idle layout bytes more l.info (rx_round iap layout fuel r l)
  rx_round-AfterRound bytes more r l w f small u = elim (fwu_queue_get-cases w.rx.valid) [
    | inl (got, empty) ↦ rx_round_idle bytes more r l got u
    | inr (got, some_in) ↦
        let ptr : ℕ = entry q q.tail_cnt in
        let l1 : Loader Chip = record l {
          queue_ep2_rx = record q { tail_cnt = advance q.num_entries q.tail_cnt };
        } in
        let valid : IsValid l1.queue_ep2_rx = rw got at (fwu_queue_get-IsValid w.rx.valid).0 in
        let in_ram : InRam layout l1 = record {
          rx = record { valid = valid; in_ram = w.rx.in_ram };
          tx = w.tx;
          stream_in_ram = w.stream_in_ram;
          cmd_in_ram = w.cmd_in_ram;
          stream_apart = w.stream_apart;
          cmd_apart = w.cmd_apart;
        } in
        rw (rx_round-packet iap layout fuel enough r l ptr l1.queue_ep2_rx got) (
          rx_packet-AfterRound bytes more r l1 ptr q in_ram f small
            (omega (arith, w.stream_apart, w.rx.valid))
            (ap (window l.mem q.data_fifo q.num_entries q.tail_cnt) some_in) u)
  ]
    where
      q : FwuDq
      q = l.queue_ep2_rx
