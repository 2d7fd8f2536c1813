-- ===== src/Stream/Block.antt =====
-- The full block of stream_rx: it is written, and the loop goes on or ends.
use usb_fwu.Base.{
  ℕ, ◌+◌, ◌-◌, ◌*◌, ◌/◌, ◌%◌, ◌^◌, ◌≤◌, ◌<◌, ◌≡◌, inl, inr, refl, ap, ◌∙◌, arith, some, Bool-cases,
  ==_iff, sltb, sleb, if◌then◌else◌, ◌==◌, true, false,
}
use usb_fwu.Memory.{Mem}
use usb_fwu.Flash.{err_no_err}
use usb_fwu.Flash.Rom.{Iap}
use usb_fwu.Flash.Write.{flash_write_lem}
use usb_fwu.Image.{FwInfo, fw_load_addr, crc_matches}
use usb_fwu.Stream.{Layout, Loader, fw_wr_rdy, fw_wr_err, stream_buf_size, prc_clk}
use usb_fwu.Stream.Rx.{
  RxLocals, RxNext, again, stop, write_error, rx_timrout, put_header, rx_switch, rx_finish,
  rx_block,
}
use usb_fwu.Stream.Safe.{
  InRam, InRam-queues, SameBelow, Kept, Kept-trans, move-other, send_to_host-Kept,
}

-- The received bytes after which the loop is over: the first full block that reaches the length, an
-- `int`.
abbrev pub rx_target : ℕ → ℕ
rx_target fw_length = if sltb 0 fw_length then (fw_length + 4095) / 4096 * 4096 else 4096

-- An `int` that `nbytes` can reach: above 0x7ffff000 the count of whole blocks overflows.
abbrev pub IsLength : ℕ → Type 0
IsLength fw_length = (fw_length < 2 ^ 32) × (sleb fw_length 0x7ffff000 ≡ true)

pub target_aligned : (fw_length : ℕ) → rx_target fw_length % 4096 ≡ 0
target_aligned fw_length = ground arith

-- What holds of the local variables at the beginning of a round.
pub record AreFine (fw_length : ℕ) (r : RxLocals) : Type 0 where
  pub packets : r.buf_ind % 64 ≡ 0
  pub room : r.buf_ind < 4096
  pub counted : r.nbytes % 4096 ≡ r.buf_ind
  pub fewer : r.nbytes < rx_target fw_length
  pub beyond : fw_load_addr ≤ r.flash_addr
  pub waiting : 0 < r.timeout
  pub patience : r.timeout ≤ rx_timrout

-- How many rounds there can be.
abbrev pub rounds_left : ℕ → RxLocals → ℕ
rounds_left fw_length r = (rx_target fw_length - r.nbytes) / 64 * 60000 + r.timeout

target_not_reached :
    (fw_length nbytes : ℕ)
    → IsLength fw_length
    → nbytes % 4096 ≡ 0
    → nbytes ≤ rx_target fw_length
    → sleb fw_length nbytes ≡ false
    → nbytes < rx_target fw_length
target_not_reached fw_length nbytes small aligned near more = ground arith

module _ (iap : Iap) (layout : Layout) (fuel : ℕ) (enough : iap.max_pending < fuel) where
  open iap use {Chip}

  -- A round after which fewer than `before` rounds are left, or none.
  abbrev pub GoesWell : ℕ → Loader Chip → RxNext Chip → Type 0
  GoesWell before l (again r' l') =
      Kept layout l l' × AreFine l.info.fw_length r' × (rounds_left l.info.fw_length r' < before)
  GoesWell before l (stop e l') = InRam layout l' × SameBelow l.mem l'.mem

  rx_finish_well :
      (before : ℕ) (l : Loader Chip)
      → InRam layout l
      → (n : RxNext Chip) × (rx_finish iap layout fuel l ≡ some n) × GoesWell before l n
  unfolding rx_finish rx_switch
  rx_finish_well before l w = elim (Bool-cases (crc_matches layout.crc32_ref_table l.mem l.info)) [
    | inl ok ↦
        let (l1, sent, k) = send_to_host-Kept fw_wr_rdy l w in
        (
          stop (rx_switch iap layout fuel l1).0 (rx_switch iap layout fuel l1).1,
          rw (ok, sent),
          (InRam-queues l1 (rx_switch iap layout fuel l1).1 k.in_ram refl refl, k.below),
        )
    | inr bad ↦
        let (l1, sent, k) = send_to_host-Kept fw_wr_err l w in
        (stop write_error l1, rw (bad, sent), (k.in_ram, k.below))
  ]

  header_other :
      (info : FwInfo) (m : Mem) (a : ℕ)
      → a < layout.g_stream_rx_buf
      → put_header layout.g_stream_rx_buf info m a ≡ m a
  unfolding put_header
  header_other info m a h = ground arith

  -- What holds from a later state on holds from an earlier one.
  pub rebase :
      (before : ℕ) (l l2 : Loader Chip) (n : RxNext Chip)
      → Kept layout l l2
      → GoesWell before l2 n
      → GoesWell before l n
  rebase before l l2 (again r' l') k g = (Kept-trans k g.0, rw (← k.info) g.1, rw (← k.info) g.2)
  rebase before l l2 (stop e l') k g = (g.0, λ a h. g.1 a h ∙ k.below a h)

  pub rx_block_well :
      (r : RxLocals) (l : Loader Chip) (before : ℕ)
      → InRam layout l
      → IsLength l.info.fw_length
      → r.nbytes % 4096 ≡ 0
      → r.nbytes ≤ rx_target l.info.fw_length
      → fw_load_addr ≤ r.flash_addr
      → r.timeout ≡ rx_timrout
      → (rx_target l.info.fw_length - r.nbytes) / 64 * 60000 + 60000 < before
      → (n : RxNext Chip) × (rx_block iap layout fuel r l ≡ some n) × GoesWell before l n
  unfolding rx_block
  rx_block_well r l before w small aligned near beyond fresh fall =
      let (rc, c2, m2, wrote, done, undone, wrong) =
        flash_write_lem iap fuel r.flash_addr layout.g_stream_rx_buf prc_clk stream_buf_size l.chip
          m1 enough in
      let l2 : Loader Chip = record l { chip = c2; mem = m2 } in
      let r2 : RxLocals = record r { buf_ind = 0; flash_addr = r.flash_addr + stream_buf_size } in
      let below : SameBelow m1 m2 = λ a h. elim (Bool-cases (rc == err_no_err)) [
        | inl ok ↦
            ap (λ (m : Mem). m a) (done ((==_iff rc 0).0 ok))
            ∙ move-other 4096 r.flash_addr layout.g_stream_rx_buf m1 a (inl (omega arith))
        | inr bad ↦ ap (λ (m : Mem). m a) (undone (λ e. ground arith))
      ] in
      let k : Kept layout l l2 = record {
        in_ram = InRam-queues l l2 w refl refl;
        below = λ a h. below a h ∙ first a h;
        info = refl;
      } in
      let fine : r.nbytes < rx_target l.info.fw_length → AreFine l.info.fw_length r2 = λ f. record {
        packets = refl;
        room = omega arith;
        counted = aligned;
        fewer = f;
        beyond = omega arith;
        waiting = omega arith;
        patience = omega arith;
      } in
      elim (Bool-cases (sleb l.info.fw_length r.nbytes)) [
        | inl last ↦
            let (n, ends, well) = rx_finish_well before l2 k.in_ram in
            (n, rw (wrote, rx_block, last, ends), rebase before l l2 n k well)
        | inr more ↦ (
          again r2 l2,
          rw (wrote, rx_block, more),
          (
            k,
            fine (target_not_reached l.info.fw_length r.nbytes small aligned near more),
            omega arith,
          ),
        )
      ]
    where
      m1 : Mem
      m1 =
          if r.flash_addr == fw_load_addr
          then put_header layout.g_stream_rx_buf l.info l.mem
          else l.mem

      first : SameBelow l.mem m1
      first a h = elim (Bool-cases (r.flash_addr == fw_load_addr)) [
        | inl e ↦ rw e (header_other l.info l.mem a (omega (arith, w.stream_in_ram)))
        | inr e ↦ rw e
      ]
