-- ===== src/Stream/Tx.antt =====
-- LPC214X_USB_FWU/usb_fwu/fwu.c: stream_tx, which sends the firmware in the flash to the host.
use usb_fwu.Base.{
  ℕ, ◌+◌, ◌-◌, ◌%◌, ◌==◌, leb, sleb, sltb, if◌then◌else◌, ◌&&◌, ◌||◌, Bool, false, Option, none,
  some, List, [], ◌∷◌,
}
use usb_fwu.Memory.{s_memcpy}
use usb_fwu.Queue.{fwu_queue_tst, fwu_queue_put}
use usb_fwu.Image.{fw_load_addr, flash_size, do_switch_to_firmware}
use usb_fwu.Stream.{Layout, Loader, Event, interrupts, set_state, state_default, stream_buf_size}

abbrev pub tx_timrout : ℕ
tx_timrout = 60000

abbrev pub now_chk_break : ℕ
now_chk_break = 64

-- the local variables of `stream_tx`
pub record TxLocals : Type 0 where
  pub flash_ptr : ℕ
  pub chkbreak_cnt : ℕ
  pub f_end : Bool
  pub nbytes : ℕ
  pub timeout : ℕ

unfoldable pub tx_start : TxLocals
tx_start = record {
  flash_ptr = fw_load_addr;
  chkbreak_cnt = 0;
  f_end = false;
  nbytes = 0;
  timeout = tx_timrout;
}

-- `last_pos`, from the `int` `fw_length`
unfoldable pub tx_last_pos : ℕ → ℕ
tx_last_pos fw_length =
    if sleb fw_length 0 || sltb (flash_size - fw_load_addr) fw_length
    then fw_load_addr
    else fw_load_addr + fw_length

-- How `stream_tx` ends: the host took no packet in time, all is sent and there is no firmware to
-- start, `start_firmware` is called, or all is sent and full blocks are not wanted.
pub data TxEnd : Type 0 where
  timed_out no_firmware started sent : TxEnd

-- What a round comes to: another round, or the end of the function.
pub data TxNext (Chip : Type 0) : Type 0 where
  again : TxLocals → Loader Chip → TxNext Chip
  stop : TxEnd → Loader Chip → TxNext Chip

module _ {Chip : Type 0} (layout : Layout) where
  -- the end of a round: the tests from `if(flash_ptr >= last_pos)` on
  unfoldable pub tx_check : ℕ → TxLocals → Loader Chip → TxNext Chip
  tx_check last_pos t l =
      let f_end = leb last_pos t.flash_ptr || t.f_end in
      let cnt = t.chkbreak_cnt + 1 in
      let (info, run) = do_switch_to_firmware layout.crc32_ref_table l.mem l.info in
      let l1 = record l { info = info } in
      if t.nbytes % stream_buf_size == 0 && l.g_full_block == 1 && f_end
      then (if run then stop started l1 else stop no_firmware (set_state state_default l1))
      else if leb now_chk_break cnt
      then (if f_end && l.g_full_block == 0
          then stop sent l
          else again (record t { f_end = f_end; chkbreak_cnt = 0 }) l)
      else again (record t { f_end = f_end; chkbreak_cnt = cnt }) l

  -- One round of the loop.
  unfoldable pub tx_round : ℕ → TxLocals → Loader Chip → Option (TxNext Chip)
  tx_round last_pos t l = elim (fwu_queue_tst l.queue_ep2_tx) [
    | some ptr ↦ elim (s_memcpy ptr t.flash_ptr 64 l.mem) [
      | none ↦ none
      | some m ↦
          let t1 = record t {
            timeout = tx_timrout;
            flash_ptr = t.flash_ptr + 64;
            nbytes = t.nbytes + 64;
          } in
          some (
            tx_check last_pos t1
              (record l { mem = m; queue_ep2_tx = fwu_queue_put l.queue_ep2_tx }))
    ]
    | none ↦
        let t1 = record t { timeout = t.timeout - 1 } in
        if leb t1.timeout 0
        then some (stop timed_out (set_state state_default l))
        else some (tx_check last_pos t1 l)
  ]

  -- The loop, with the interrupts that come before each round. `none` is a loop still running when
  -- the list ends.
  unfoldable pub tx_loop :
      List (List Event) → ℕ → TxLocals → Loader Chip → Option (TxEnd × Loader Chip)
  tx_loop [] last_pos t l = none
  tx_loop (es ∷ rest) last_pos t l = elim (tx_round last_pos t (interrupts es l)) [
    | none ↦ none
    | some (again t1 l1) ↦ tx_loop rest last_pos t1 l1
    | some (stop e l1) ↦ some (e, l1)
  ]

  unfoldable pub stream_tx : List (List Event) → Loader Chip → Option (TxEnd × Loader Chip)
  unfolding tx_loop tx_start tx_last_pos
  stream_tx rounds l = tx_loop rounds (tx_last_pos l.info.fw_length) tx_start l
