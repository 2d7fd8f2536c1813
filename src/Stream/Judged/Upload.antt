-- ===== src/Stream/Judged/Upload.antt =====
-- What stream_rx tells the host, and what it starts, against the images in the flash.
use usb_fwu.Base.{
  ℕ, ◌+◌, ◌-◌, ◌*◌, ◌/◌, ◌≤◌, ◌<◌, ◌≡◌, ◌≢◌, refl, sym, ◌∙◌, some, true, false, List, length, arith,
  ==_iff,
}
use usb_fwu.Memory.{Mem}
use usb_fwu.Memory.Bytes.{IsBytes}
use usb_fwu.Crc.Table.{IsCrcTable}
use usb_fwu.Flash.Rom.{Iap}
use usb_fwu.Image.{FwInfo, crc_matches, fw_load_addr, flash_size}
use usb_fwu.Image.Accept.{
  image_length, stated_crc, code_crc, crc_of_code, calc_crc-code, do_switch_to_firmware_lem,
}
use usb_fwu.Stream.{Layout, Loader, Event, state_default, fw_wr_rdy, fw_wr_err}
use usb_fwu.Stream.Rx.{
  RxEnd, timed_out, write_error, not_started, started, rx_start, rx_loop, stream_rx,
}
use usb_fwu.Stream.Safe.{InRam, AllRounds}
use usb_fwu.Stream.Block.{rx_target, IsLength}
use usb_fwu.Stream.Bytes.{RoundsOfBytes, stream_rx-byte}
use usb_fwu.Stream.Total.{stream_rx-total}
use usb_fwu.Stream.Verdict.{Verdict, starts, stream_rx-Verdict}
use usb_fwu.Stream.Judged.{Tells, Answered, Answers, Result, rx_loop-Result}

-- An image in the flash that a reset may start.
abbrev pub Passes : Mem → Type 0
Passes m =
    (0 < image_length m)
    × (image_length m ≤ flash_size - fw_load_addr)
    × (code_crc m ≡ stated_crc m)

-- The code in the flash has the CRC that the host has given.
abbrev pub HasGivenCrc : FwInfo → Mem → Type 0
HasGivenCrc info m = crc_of_code m info.fw_length ≡ info.fw_crc

-- What an end of the function means.
abbrev pub IsJudged : {Chip : Type 0} → Layout → FwInfo → RxEnd → Loader Chip → Type 0
IsJudged layout info timed_out l = l.g_state ≡ state_default
IsJudged layout info write_error l =
    ((crc_of_code l.mem info.fw_length) ≢ info.fw_crc) × Answered layout fw_wr_err l
IsJudged layout info not_started l =
    HasGivenCrc info l.mem × Answered layout fw_wr_rdy l × (¬ Passes l.mem)
IsJudged layout info started l = HasGivenCrc info l.mem × Answered layout fw_wr_rdy l × Passes l.mem

module _ (iap : Iap) (layout : Layout) (fuel : ℕ) (enough : iap.max_pending < fuel) where
  open iap use {Chip}

  judged :
      (info : FwInfo) (e : RxEnd) (l : Loader Chip)
      → IsCrcTable layout.crc32_ref_table
      → IsBytes l.mem
      → info.fw_length ≤ 503808
      → Tells e (crc_matches layout.crc32_ref_table l.mem info)
      → Answers layout e l
      → Verdict iap layout fuel e l
      → IsJudged layout info e l
  judged info timed_out l t b small tells answers v = v
  judged info write_error l t b small tells answers v =
      let crc = calc_crc-code layout.crc32_ref_table l.mem info.fw_length t b (omega arith) in
      (λ e. let same = (==_iff _ _).1 (crc ∙ e) in let wrong = tells in cc, answers)
  judged info not_started l t b small tells answers v =
      let crc = calc_crc-code layout.crc32_ref_table l.mem info.fw_length t b (omega arith) in
      (
        sym crc ∙ (==_iff _ _).0 tells,
        answers,
        λ p.
            let runs : starts iap layout fuel l.mem ≡ true =
              (do_switch_to_firmware_lem layout.crc32_ref_table l.mem _ t b).1 p in
            let stays : starts iap layout fuel l.mem ≡ false = v in cc,
      )
  judged info started l t b small tells answers v =
      let crc = calc_crc-code layout.crc32_ref_table l.mem info.fw_length t b (omega arith) in
      (
        sym crc ∙ (==_iff _ _).0 tells,
        answers,
        (do_switch_to_firmware_lem layout.crc32_ref_table l.mem _ t b).0 v,
      )

  -- With the buffers in RAM and apart, a table of CRC-32, bytes in memory and in the packets of 64
  -- bytes, a stated length of at most 503808 and enough rounds, `stream_rx` comes to an end,
  -- whatever the flash answers. If it ends with an error, the code in the flash has not the CRC
  -- that the host has given, and memory and the queue to the host are as `send_to_host` of
  -- FW_WR_ERR leaves them. After a timeout the state is the default one. Else the code has that
  -- CRC, memory and the queue are as `send_to_host` of FW_WR_RDY leaves them, and the firmware is
  -- started exactly if the length that stands in the flash is positive and at most the flash behind
  -- the upgrader, and the CRC that stands there is that of the code.
  pub stream_rx-IsJudged :
      (rounds : List (List Event)) (l : Loader Chip)
      → InRam layout l
      → IsCrcTable layout.crc32_ref_table
      → IsBytes l.mem
      → RoundsOfBytes rounds
      → l.info.fw_length ≤ 503808
      → AllRounds rounds
      → (rx_target l.info.fw_length / 64 + 1) * 60000 ≤ length rounds
      → (e : RxEnd) × (l' : Loader Chip) × (stream_rx iap layout fuel rounds l ≡ some (e, l'))
        × IsJudged layout l.info e l'
  unfolding stream_rx
  stream_rx-IsJudged rounds l w t b packets small s enough_rounds =
      let len : IsLength l.info.fw_length = (omega arith, ground arith) in
      let (e, l', runs, in_ram, below) =
        stream_rx-total iap layout fuel enough rounds l w len s enough_rounds in
      let ran : rx_loop iap layout fuel rounds rx_start l ≡ some (e, l') = runs in
      let result = rx_loop-Result iap layout fuel l.info rounds rx_start l w refl small s in
      let told : Result iap layout fuel l.info (some (e, l')) = rw ran at result in
      let bytes = stream_rx-byte iap layout fuel enough rounds l l' e runs packets b in
      let v = stream_rx-Verdict iap layout fuel rounds l l' e runs in
      (e, l', runs, judged l.info e l' t bytes small told.0 told.1 v)
