-- ===== src/Stream/Rx.antt =====
-- LPC214X_USB_FWU/usb_fwu/fwu.c: stream_rx, which receives the firmware and writes it to the flash.
use usb_fwu.Base.{ℕ, ◌+◌, ◌-◌, ◌==◌, leb, sleb, if◌then◌else◌, Option, none, some, List, [], ◌∷◌}
use usb_fwu.Memory.{Mem, store_word, s_memcpy}
use usb_fwu.Queue.{fwu_queue_get}
use usb_fwu.Flash.{flash_write}
use usb_fwu.Flash.Rom.{Iap}
use usb_fwu.Image.{
  FwInfo, fw_load_addr, fw_rom_product_id_offset, fw_rom_version_offset, fw_rom_length_offset,
  fw_rom_crc_offset, crc_matches, do_switch_to_firmware,
}
use usb_fwu.Stream.{
  Layout, Loader, Event, interrupts, set_state, send_to_host, state_default, fw_wr_rdy, fw_wr_err,
  ctrl_buf_size, stream_buf_size, prc_clk,
}

abbrev pub rx_timrout : ℕ
rx_timrout = 60000

-- the local variables of `stream_rx`
pub record RxLocals : Type 0 where
  pub buf_ind : ℕ
  pub nbytes : ℕ
  pub flash_addr : ℕ
  pub timeout : ℕ

unfoldable pub rx_start : RxLocals
rx_start = record { buf_ind = 0; nbytes = 0; flash_addr = fw_load_addr; timeout = rx_timrout }

-- How `stream_rx` ends: no packet came in time, the CRC is wrong, the CRC is right but the image is
-- not started, or `start_firmware` is called.
pub data RxEnd : Type 0 where
  timed_out write_error not_started started : RxEnd

-- The four words of the firmware's description at the beginning of the first block.
unfoldable pub put_header : ℕ → FwInfo → Mem → Mem
put_header buf info m =
    store_word
      (store_word
        (store_word (store_word m (buf + fw_rom_product_id_offset) info.fw_product_id)
          (buf + fw_rom_version_offset) info.fw_version)
        (buf + fw_rom_length_offset) info.fw_length)
      (buf + fw_rom_crc_offset) info.fw_crc

-- What a round comes to: another round, or the end of the function.
pub data RxNext (Chip : Type 0) : Type 0 where
  again : RxLocals → Loader Chip → RxNext Chip
  stop : RxEnd → Loader Chip → RxNext Chip

module _ (iap : Iap) (layout : Layout) (fuel : ℕ) where
  open iap use {Chip}

  -- `switch_to_firmware` after the right CRC; the interrupts are enabled again if it returns.
  unfoldable pub rx_switch : Loader Chip → RxEnd × Loader Chip
  rx_switch l =
      let (info, run) = do_switch_to_firmware layout.crc32_ref_table l.mem l.info in
      (if run then started else not_started, record l { info = info })

  -- the last block is in the flash
  unfoldable pub rx_finish : Loader Chip → Option (RxNext Chip)
  unfolding rx_switch
  rx_finish l =
      if crc_matches layout.crc32_ref_table l.mem l.info
      then (elim (send_to_host layout fw_wr_rdy l) [
        | none ↦ none
        | some l1 ↦ some (stop (rx_switch l1).0 (rx_switch l1).1)
      ])
      else (elim (send_to_host layout fw_wr_err l) [
        | none ↦ none
        | some l1 ↦ some (stop write_error l1)
      ])

  -- the buffer is full; what `flash_write` answers is not looked at
  unfoldable pub rx_block : RxLocals → Loader Chip → Option (RxNext Chip)
  rx_block r l =
      let m1 =
        if r.flash_addr == fw_load_addr
        then put_header layout.g_stream_rx_buf l.info l.mem
        else l.mem in
      elim (flash_write iap fuel r.flash_addr layout.g_stream_rx_buf prc_clk stream_buf_size l.chip
        m1) [
          | none ↦ none
          | some (rc, c2, m2) ↦
              let l2 = record l { chip = c2; mem = m2 } in
              let r2 = record r { buf_ind = 0; flash_addr = r.flash_addr + stream_buf_size } in
              if sleb l.info.fw_length r.nbytes then rx_finish l2 else some (again r2 l2)
        ]

  -- a packet at `ptr`
  unfoldable pub rx_packet : ℕ → RxLocals → Loader Chip → Option (RxNext Chip)
  rx_packet ptr r l = elim (s_memcpy (layout.g_stream_rx_buf + r.buf_ind) ptr ctrl_buf_size l.mem) [
    | none ↦ none
    | some m ↦
        let r1 : RxLocals = record {
          buf_ind = r.buf_ind + ctrl_buf_size;
          nbytes = r.nbytes + ctrl_buf_size;
          flash_addr = r.flash_addr;
          timeout = rx_timrout;
        } in
        if leb stream_buf_size r1.buf_ind
        then rx_block r1 (record l { mem = m })
        else some (again r1 (record l { mem = m }))
  ]

  -- One round of the loop. `Timeout` is above 0 at its beginning.
  unfoldable pub rx_round : RxLocals → Loader Chip → Option (RxNext Chip)
  rx_round r l =
      let (p, q) = fwu_queue_get l.queue_ep2_rx in
      let l1 = record l { queue_ep2_rx = q } in
      elim p [
        | some ptr ↦ rx_packet ptr r l1
        | none ↦
            let r1 = record r { timeout = r.timeout - 1 } in
            if leb r1.timeout 0
            then some (stop timed_out (set_state state_default l1))
            else some (again r1 l1)
      ]

  -- The loop, with the interrupts that come before each round. `none` is a loop still running when
  -- the list ends.
  unfoldable pub rx_loop : List (List Event) → RxLocals → Loader Chip → Option (RxEnd × Loader Chip)
  rx_loop [] r l = none
  rx_loop (es ∷ rest) r l = elim (rx_round r (interrupts es l)) [
    | none ↦ none
    | some (again r1 l1) ↦ rx_loop rest r1 l1
    | some (stop e l1) ↦ some (e, l1)
  ]

  unfoldable pub stream_rx : List (List Event) → Loader Chip → Option (RxEnd × Loader Chip)
  unfolding rx_loop rx_start
  stream_rx rounds l = rx_loop rounds rx_start l
