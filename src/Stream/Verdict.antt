-- ===== src/Stream/Verdict.antt =====
-- stream_rx starts the firmware only if the image in the flash passes the check of a reset.
use usb_fwu.Base.{
  ℕ, ◌≡◌, refl, sym, ◌∙◌, Option, none, some, Option-cases, Bool, Bool-cases, true, false, List, [],
  ◌∷◌, arith, inl, inr, leb, sleb, ◌==◌, ◌+◌, ◌-◌, if◌then◌else◌,
}
use usb_fwu.Memory.{Mem, s_memcpy}
use usb_fwu.Queue.{fwu_queue_get}
use usb_fwu.Flash.{flash_write}
use usb_fwu.Flash.Rom.{Iap}
use usb_fwu.Image.{FwInfo, do_switch_to_firmware, crc_matches, fw_load_addr}
use usb_fwu.Stream.{
  Layout, Loader, Event, interrupts, send_to_host, set_state, state_default, fw_wr_rdy, fw_wr_err,
  stream_buf_size, prc_clk,
}
use usb_fwu.Stream.Rx.{
  RxLocals, RxEnd, RxNext, again, stop, timed_out, write_error, not_started, started, rx_start,
  put_header, rx_switch, rx_finish, rx_block, rx_packet, rx_round, rx_loop, stream_rx,
}

module _ (iap : Iap) (layout : Layout) (fuel : ℕ) where
  open iap use {Chip}

  -- `do_switch_to_firmware` on a memory, whatever the globals held before.
  abbrev pub starts : Mem → Bool
  starts m =
      (do_switch_to_firmware layout.crc32_ref_table m
        (record { fw_product_id = 0; fw_version = 0; fw_length = 0; fw_crc = 0 })).1

  pub starts_lem :
      (m : Mem) (info : FwInfo) → (do_switch_to_firmware layout.crc32_ref_table m info).1 ≡ starts m
  unfolding do_switch_to_firmware
  starts_lem m info = ground arith

  -- The verdict that an end of the function stands for.
  abbrev pub Verdict : RxEnd → Loader Chip → Type 0
  Verdict started l = starts l.mem ≡ true
  Verdict not_started l = starts l.mem ≡ false
  Verdict write_error l = Unit
  Verdict timed_out l = l.g_state ≡ state_default

  abbrev Post : Option (RxNext Chip) → Type 0
  Post none = Unit
  Post (some (again r l)) = Unit
  Post (some (stop e l)) = Verdict e l

  rx_switch-Verdict :
      (l : Loader Chip) → Verdict (rx_switch iap layout fuel l).0 (rx_switch iap layout fuel l).1
  unfolding rx_switch
  rx_switch-Verdict l =
      elim (Bool-cases (do_switch_to_firmware layout.crc32_ref_table l.mem l.info).1) [
        | inl run ↦ rw run (sym (starts_lem l.mem l.info) ∙ run)
        | inr stay ↦ rw stay (sym (starts_lem l.mem l.info) ∙ stay)
      ]

  rx_finish-Post : (l : Loader Chip) → Post (rx_finish iap layout fuel l)
  unfolding rx_finish
  rx_finish-Post l = elim (Bool-cases (crc_matches layout.crc32_ref_table l.mem l.info)) [
    | inl ok ↦ elim (Option-cases (send_to_host layout fw_wr_rdy l)) [
      | inl e ↦ rw (ok, rx_finish, e) tt
      | inr (l1, e) ↦ rw (ok, rx_finish, e) (rx_switch-Verdict l1)
    ]
    | inr bad ↦ elim (Option-cases (send_to_host layout fw_wr_err l)) [
      | inl e ↦ rw (bad, rx_finish, e) tt
      | inr (l1, e) ↦ rw (bad, rx_finish, e) tt
    ]
  ]

  rx_block-Post : (r : RxLocals) (l : Loader Chip) → Post (rx_block iap layout fuel r l)
  unfolding rx_block
  rx_block-Post r l = elim (Option-cases written) [
    | inl e ↦ rw (e, rx_block) tt
    | inr ((rc, c2, m2), e) ↦ elim (Bool-cases (sleb l.info.fw_length r.nbytes)) [
      | inl last ↦ rw (e, rx_block, last) (rx_finish-Post (record l { chip = c2; mem = m2 }))
      | inr more ↦ rw (e, rx_block, more) tt
    ]
  ]
    where
      written : Option (ℕ × Chip × Mem)
      written =
          flash_write iap fuel r.flash_addr layout.g_stream_rx_buf prc_clk stream_buf_size l.chip (
            if r.flash_addr == fw_load_addr
            then put_header layout.g_stream_rx_buf l.info l.mem
            else l.mem)

  rx_packet-Post :
      (ptr : ℕ) (r : RxLocals) (l : Loader Chip) → Post (rx_packet iap layout fuel ptr r l)
  unfolding rx_packet
  rx_packet-Post ptr r l =
      elim (Option-cases (s_memcpy (layout.g_stream_rx_buf + r.buf_ind) ptr 64 l.mem)) [
        | inl e ↦ rw (e, rx_packet) tt
        | inr (m, e) ↦ elim (Bool-cases (leb stream_buf_size (r.buf_ind + 64))) [
          | inl full ↦ rw (e, rx_packet, full) (rx_block-Post _ (record l { mem = m }))
          | inr part ↦ rw (e, rx_packet, part) tt
        ]
      ]

  rx_round-Post : (r : RxLocals) (l : Loader Chip) → Post (rx_round iap layout fuel r l)
  unfolding rx_round set_state
  rx_round-Post r l = elim (Option-cases (fwu_queue_get l.queue_ep2_rx).0) [
    | inr (ptr, e) ↦
        rw (e, rx_round)
          (rx_packet-Post ptr r (record l { queue_ep2_rx = (fwu_queue_get l.queue_ep2_rx).1 }))
    | inl e ↦ elim (Bool-cases (leb (r.timeout - 1) 0)) [
      | inl over ↦ rw (e, rx_round, over) refl
      | inr wait ↦ rw (e, rx_round, wait) tt
    ]
  ]

  abbrev Result : Option (RxEnd × Loader Chip) → Type 0
  Result none = Unit
  Result (some (e, l)) = Verdict e l

  rx_loop-Result :
      (rounds : List (List Event)) (r : RxLocals) (l : Loader Chip)
      → Result (rx_loop iap layout fuel rounds r l)
  unfolding rx_loop
  rx_loop-Result [] r l = tt
  rx_loop-Result (es ∷ rest) r l =
      next (rx_round iap layout fuel r (interrupts es l)) refl (rx_round-Post r (interrupts es l))
        (rx_loop-Result rest)
    where
      next :
          (o : Option (RxNext Chip))
          → rx_round iap layout fuel r (interrupts es l) ≡ o
          → Post o
          → ((r1 : RxLocals) (l1 : Loader Chip) → Result (rx_loop iap layout fuel rest r1 l1))
          → Result (rx_loop iap layout fuel (es ∷ rest) r l)
      next none k p ih = rw (k, rx_loop) tt
      next (some (again r1 l1)) k p ih = rw (k, rx_loop) (ih r1 l1)
      next (some (stop e1 l1)) k p ih = rw (k, rx_loop) p

  -- If `stream_rx` ends by calling `start_firmware`, the image in the flash passes
  -- `do_switch_to_firmware`; if the CRC of the host was right and it returns all the same, the
  -- image does not pass; if it ends by a timeout, the state is the default one. Of the end with a
  -- wrong CRC nothing is said.
  pub stream_rx-Verdict :
      (rounds : List (List Event)) (l l' : Loader Chip) (e : RxEnd)
      → stream_rx iap layout fuel rounds l ≡ some (e, l')
      → Verdict e l'
  unfolding stream_rx
  stream_rx-Verdict rounds l l' e h = rw h at p
    where
      p : Result (stream_rx iap layout fuel rounds l)
      p = rx_loop-Result rounds rx_start l
