-- ===== src/Usb/Bulk.antt =====
-- LPC214X_USB_FWU/usb_fwu/fwu_usb_ep.c: the interrupt handlers of the bulk endpoint.
use usb_fwu.Base.{ℕ, ◌*◌, ◌/◌, ◌^◌, ◌==◌, bit_and, bit_or, Option, none, some, if◌then◌else◌}
use usb_fwu.Queue.{FwuDq, fwu_queue_tst, fwu_queue_put, fwu_queue_get}
use usb_fwu.Usb.{
  Controller, Usb, Action, ◌>>=◌, ◌>>◌, pure, set_reg, usb_ep_int_clr, usb_tx_p_len, usb_ctrl,
}
use usb_fwu.Usb.Engine.{tn_usb_lpc_cmd, tn_usb_lpc_cmd_read}
use usb_fwu.Usb.Endpoint.{
  usb_max_packet0, cmd_ep_select, cmd_ep_select_clear, cmd_ep_clear_buffer, cmd_ep_validate_buffer,
  rd_en, wr_en, await_packet, read_fifo, write_fifo,
}

-- the physical endpoints of `gEP2RX_EI` and `gEP2TX_EI`
abbrev pub ep2_rx : ℕ
ep2_rx = 4

abbrev pub ep2_tx : ℕ
ep2_tx = 5

module _ (ctl : Controller) (spin : ℕ) {Chip : Type 0} where
  open ctl use {Dev}

  abbrev get_rx : Action (Usb Dev Chip) FwuDq
  get_rx s = some (s.loader.queue_ep2_rx, s)

  abbrev set_rx : FwuDq → Action (Usb Dev Chip) (Unit {0})
  set_rx q s = some (tt, record s { loader = record s.loader { queue_ep2_rx = q } })

  unfoldable pub tn_usb_ep_rx_enable : ℕ → Action (Usb Dev Chip) (Unit {0})
  tn_usb_ep_rx_enable ep_num_phys = do
    tn_usb_lpc_cmd ctl spin (bit_or cmd_ep_select ep_num_phys)
    tn_usb_lpc_cmd ctl spin cmd_ep_clear_buffer

  -- a packet goes into the free entry
  unfoldable pub read_packet : ℕ → Action (Usb Dev Chip) (Unit {0})
  read_packet ptr = do
    set_reg ctl usb_ctrl (bit_or rd_en (ep2_rx / 2 * 4))
    len ← await_packet ctl spin spin
    read_fifo ctl spin spin (some ptr)
    set_reg ctl usb_ctrl 0
    tn_usb_ep_rx_enable ep2_rx
    q ← get_rx
    set_rx (fwu_queue_put q)

  unfoldable pub tn_usb_ep_rx_int : Action (Usb Dev Chip) (Unit {0})
  tn_usb_ep_rx_int = do
    ep_status ← tn_usb_lpc_cmd_read ctl spin (bit_or cmd_ep_select_clear ep2_rx)
    q ← get_rx
    if bit_and ep_status 0x60 == 0
        then pure tt
        else elim (fwu_queue_tst q) [ none ↦ pure tt | some ptr ↦ read_packet ptr ]
    set_reg ctl usb_ep_int_clr (2 ^ ep2_rx)

  -- a packet goes to the endpoint
  unfoldable pub write_packet : ℕ → Action (Usb Dev Chip) (Unit {0})
  write_packet ptr = do
    set_reg ctl usb_ctrl (bit_or wr_en (ep2_tx / 2 * 4))
    set_reg ctl usb_tx_p_len usb_max_packet0
    write_fifo ctl spin spin ptr
    set_reg ctl usb_ctrl 0
    tn_usb_lpc_cmd ctl spin (bit_or cmd_ep_select ep2_tx)
    tn_usb_lpc_cmd ctl spin cmd_ep_validate_buffer

  -- `fwu_queue_geti` on the queue for the host
  abbrev get_tx_entry : Action (Usb Dev Chip) (Option ℕ)
  get_tx_entry s = some (
    (fwu_queue_get s.loader.queue_ep2_tx).0,
    record s {
      loader = record s.loader { queue_ep2_tx = (fwu_queue_get s.loader.queue_ep2_tx).1 };
    },
  )

  unfoldable pub tn_usb_ep_tx_int : Action (Usb Dev Chip) (Unit {0})
  tn_usb_ep_tx_int = do
    entry ← get_tx_entry
    elim entry [ none ↦ pure tt | some ptr ↦ write_packet ptr ]
    set_reg ctl usb_ep_int_clr (2 ^ ep2_tx)
