-- ===== src/Stream/Judged.antt =====
-- What stream_rx tells the host, against the image in the flash.
pub mod Upload
use usb_fwu.Base.{
  ℕ, ◌+◌, ◌-◌, ◌*◌, ◌/◌, ◌≤◌, ◌<◌, ◌≡◌, ◌≢◌, refl, ap, sym, ◌∙◌, Option, none, some, Option-cases,
  Bool, Bool-cases, true, false, List, [], ◌∷◌, length, arith, inl, inr, leb, sleb, sltb, sub32,
  ◌==◌, ==_iff, if◌then◌else◌, bit_xor,
}
use usb_fwu.Memory.{Mem, s_memcpy}
use usb_fwu.Memory.Bytes.{IsBytes}
use usb_fwu.Crc.{calc_crc}
use usb_fwu.Crc.Table.{IsCrcTable}
use usb_fwu.Crc.Command.{crc_loop_congr}
use usb_fwu.Queue.{fwu_queue_get}
use usb_fwu.Queue.Valid.{fwu_queue_get-IsValid}
use usb_fwu.Flash.{flash_write}
use usb_fwu.Flash.Rom.{Iap}
use usb_fwu.Image.{FwInfo, do_switch_to_firmware, crc_matches, fw_load_addr, flash_size}
use usb_fwu.Image.Accept.{
  image_length, stated_crc, code_crc, crc_of_code, calc_crc-code, do_switch_to_firmware_lem,
}
use usb_fwu.Stream.{
  Layout, Loader, Event, interrupts, send_to_host, set_state, state_default, fw_wr_rdy, fw_wr_err,
  stream_buf_size, prc_clk,
}
use usb_fwu.Stream.Rx.{
  RxLocals, RxEnd, RxNext, again, stop, timed_out, write_error, not_started, started, rx_start,
  put_header, rx_switch, rx_finish, rx_block, rx_packet, rx_round, rx_loop, stream_rx,
}
use usb_fwu.Stream.Safe.{
  InRam, InRam-queues, SameFlash, AllRounds, interrupts-Kept, send_to_host-ends, array-get,
}
use usb_fwu.Stream.Block.{rx_target, IsLength}
use usb_fwu.Stream.Bytes.{RoundsOfBytes, stream_rx-byte}
use usb_fwu.Stream.Total.{stream_rx-total}
use usb_fwu.Stream.Verdict.{Verdict, starts, stream_rx-Verdict}

-- What an end of the function tells of the check of the CRC that the host has given.
abbrev pub Tells : RxEnd → Bool → Type 0
Tells write_error ok = ok ≡ false
Tells timed_out ok = Unit {0}
Tells not_started ok = ok ≡ true
Tells started ok = ok ≡ true

-- The check of the CRC reads the flash only.
pub crc_matches-flash :
    (table : List ℕ) (m m' : Mem) (info : FwInfo)
    → info.fw_length ≤ 503808
    → SameFlash m m'
    → crc_matches table m' info ≡ crc_matches table m info
unfolding calc_crc
crc_matches-flash table m m' info small flash =
    let n = sub32 info.fw_length 32 in
    ap (λ (r : ℕ). bit_xor r 0xffffffff == info.fw_crc)
      (crc_loop_congr table m' m (if sltb 0 n then n else 0) 0x2020 0xffffffff
        (λ a lo hi. flash a (ground arith)))

-- Memory and the queue to the host are as `send_to_host` of `cmd` leaves them.
abbrev pub Answered : {Chip : Type 0} → Layout → ℕ → Loader Chip → Type 0
Answered {Chip} layout cmd l' =
    (l : Loader Chip) × (l1 : Loader Chip) × (send_to_host layout cmd l ≡ some l1)
    × (l'.mem ≡ l1.mem)
    × (l'.queue_ep2_tx ≡ l1.queue_ep2_tx)

abbrev pub Answers : {Chip : Type 0} → Layout → RxEnd → Loader Chip → Type 0
Answers layout write_error l = Answered layout fw_wr_err l
Answers layout not_started l = Answered layout fw_wr_rdy l
Answers layout started l = Answered layout fw_wr_rdy l
Answers layout timed_out l = Unit {0}

module _ (iap : Iap) (layout : Layout) (fuel : ℕ) where
  open iap use {Chip}

  pub rx_switch-Tells :
      (l : Loader Chip) (ok : Bool) → ok ≡ true → Tells (rx_switch iap layout fuel l).0 ok
  unfolding rx_switch
  rx_switch-Tells l ok right =
      elim (Bool-cases (do_switch_to_firmware layout.crc32_ref_table l.mem l.info).1) [
        | inl run ↦ rw run right
        | inr stay ↦ rw stay right
      ]

  rx_switch-Answers :
      (l l1 : Loader Chip)
      → send_to_host layout fw_wr_rdy l ≡ some l1
      → Answers layout (rx_switch iap layout fuel l1).0 (rx_switch iap layout fuel l1).1
  unfolding rx_switch
  rx_switch-Answers l l1 sent =
      elim (Bool-cases (do_switch_to_firmware layout.crc32_ref_table l1.mem l1.info).1) [
        | inl run ↦ rw run (l, l1, sent, refl, refl)
        | inr stay ↦ rw stay (l, l1, sent, refl, refl)
      ]

  -- What a round keeps, and what it has told at an end.
  abbrev Post : FwInfo → Option (RxNext Chip) → Type 0
  Post info none = Unit {0}
  Post info (some (again r l)) = InRam layout l × (l.info ≡ info)
  Post info (some (stop e l)) =
      Tells e (crc_matches layout.crc32_ref_table l.mem info) × Answers layout e l

  Post-info : (i j : FwInfo) (o : Option (RxNext Chip)) → i ≡ j → Post i o → Post j o
  Post-info i j o e p = rw (← e) p

  rx_finish-Post :
      (l : Loader Chip)
      → InRam layout l
      → l.info.fw_length ≤ 503808
      → Post l.info (rx_finish iap layout fuel l)
  unfolding rx_finish
  rx_finish-Post l w small =
      let table = layout.crc32_ref_table in
      elim (Bool-cases (crc_matches table l.mem l.info)) [
        | inl ok ↦
            let (l1, sent, in_ram, flash, info) = send_to_host-ends fw_wr_rdy l w in
            rw (ok, rx_finish, sent)
              (
                rx_switch-Tells l1 (crc_matches table l1.mem l.info)
                    (crc_matches-flash table l.mem l1.mem l.info small flash ∙ ok),
                rx_switch-Answers l l1 sent,
              )
        | inr bad ↦
            let (l1, sent, in_ram, flash, info) = send_to_host-ends fw_wr_err l w in
            rw (bad, rx_finish, sent)
              (
                crc_matches-flash table l.mem l1.mem l.info small flash ∙ bad,
                (l, l1, sent, refl, refl),
              )
      ]

  rx_block-Post :
      (r : RxLocals) (l : Loader Chip)
      → InRam layout l
      → l.info.fw_length ≤ 503808
      → Post l.info (rx_block iap layout fuel r l)
  unfolding rx_block
  rx_block-Post r l w small = elim (Option-cases written) [
    | inl e ↦ rw (e, rx_block) tt
    | inr ((rc, c2, m2), e) ↦
        let l2 : Loader Chip = record l { chip = c2; mem = m2 } in
        let in_ram = InRam-queues l l2 w refl refl in
        elim (Bool-cases (sleb l.info.fw_length r.nbytes)) [
          | inl last ↦ rw (e, rx_block, last) (rx_finish-Post l2 in_ram small)
          | inr more ↦ rw (e, rx_block, more) (in_ram, refl)
        ]
  ]
    where
      written : Option (ℕ × Chip × Mem)
      written =
          flash_write iap fuel r.flash_addr layout.g_stream_rx_buf prc_clk stream_buf_size l.chip (
            if r.flash_addr == fw_load_addr
            then put_header layout.g_stream_rx_buf l.info l.mem
            else l.mem)

  rx_packet-Post :
      (ptr : ℕ) (r : RxLocals) (l : Loader Chip)
      → InRam layout l
      → l.info.fw_length ≤ 503808
      → Post l.info (rx_packet iap layout fuel ptr r l)
  unfolding rx_packet
  rx_packet-Post ptr r l w small =
      elim (Option-cases (s_memcpy (layout.g_stream_rx_buf + r.buf_ind) ptr 64 l.mem)) [
        | inl e ↦ rw (e, rx_packet) tt
        | inr (m, e) ↦
            let in_ram = InRam-queues l (record l { mem = m }) w refl refl in
            elim (Bool-cases (leb stream_buf_size (r.buf_ind + 64))) [
              | inl full ↦
                  rw (e, rx_packet, full) (rx_block-Post _ (record l { mem = m }) in_ram small)
              | inr part ↦ rw (e, rx_packet, part) (in_ram, refl)
            ]
      ]

  rx_round-Post :
      (r : RxLocals) (l : Loader Chip)
      → InRam layout l
      → l.info.fw_length ≤ 503808
      → Post l.info (rx_round iap layout fuel r l)
  unfolding rx_round set_state
  rx_round-Post r l w small = elim (Option-cases (fwu_queue_get l.queue_ep2_rx).0) [
    | inr (ptr, e) ↦ rw (e, rx_round) (rx_packet-Post ptr r l1 in_ram small)
    | inl e ↦ elim (Bool-cases (leb (r.timeout - 1) 0)) [
      | inl over ↦ rw (e, rx_round, over) (tt, tt)
      | inr wait ↦ rw (e, rx_round, wait) (in_ram, refl)
    ]
  ]
    where
      l1 : Loader Chip
      l1 = record l { queue_ep2_rx = (fwu_queue_get l.queue_ep2_rx).1 }

      in_ram : InRam layout l1
      in_ram = record {
        rx = record {
          valid = (fwu_queue_get-IsValid w.rx.valid).0;
          in_ram = omega (arith, array-get l.queue_ep2_rx, w.rx.in_ram);
        };
        tx = w.tx;
        stream_in_ram = w.stream_in_ram;
        cmd_in_ram = w.cmd_in_ram;
        stream_apart = omega (arith, array-get l.queue_ep2_rx, w.stream_apart);
        cmd_apart = w.cmd_apart;
      }

  abbrev pub Result : FwInfo → Option (RxEnd × Loader Chip) → Type 0
  Result info none = Unit {0}
  Result info (some (e, l)) =
      Tells e (crc_matches layout.crc32_ref_table l.mem info) × Answers layout e l

  pub rx_loop-Result :
      (info : FwInfo) (rounds : List (List Event)) (r : RxLocals) (l : Loader Chip)
      → InRam layout l
      → l.info ≡ info
      → info.fw_length ≤ 503808
      → AllRounds rounds
      → Result info (rx_loop iap layout fuel rounds r l)
  unfolding rx_loop
  rx_loop-Result info [] r l w same small s = tt
  rx_loop-Result info (es ∷ rest) r l w same small s =
      let k = interrupts-Kept es l w s.0 in
      let now : (interrupts es l).info ≡ info = k.info ∙ same in
      next (rx_round iap layout fuel r (interrupts es l)) refl
        (Post-info (interrupts es l).info info (rx_round iap layout fuel r (interrupts es l)) now
          (rx_round-Post r (interrupts es l) k.in_ram (rw now small)))
        (rx_loop-Result info rest)
    where
      next :
          (o : Option (RxNext Chip))
          → rx_round iap layout fuel r (interrupts es l) ≡ o
          → Post info o
          → ((r1 : RxLocals) (l1 : Loader Chip)
              → InRam layout l1
              → l1.info ≡ info
              → info.fw_length ≤ 503808
              → AllRounds rest
              → Result info (rx_loop iap layout fuel rest r1 l1))
          → Result info (rx_loop iap layout fuel (es ∷ rest) r l)
      next none k p ih = rw (k, rx_loop) tt
      next (some (again r1 l1)) k p ih = rw (k, rx_loop) (ih r1 l1 p.0 p.1 small s.1)
      next (some (stop e1 l1)) k p ih = rw (k, rx_loop) p
