-- ===== src/Usb/Control.antt =====
-- LPC214X_USB_FWU/usb_fwu: tn_usb_EP0_SETUP and tn_usb_st_DATAIN of fwu_usb_req.c and the interrupt
-- handlers of the control endpoint in fwu_usb_ep.c.
pub mod Stage
use usb_fwu.Base.{
  ℕ, ◌+◌, ◌*◌, ◌==◌, sltb, sub32, u32, bit_and, bit_or, Option, none, some, Bool, true, false,
  if◌then◌else◌, ◌||◌, not,
}
use usb_fwu.Memory.{Mem}
use usb_fwu.Stream.{Layout}
use usb_fwu.Usb.{
  Controller, Usb, UsbDeviceInfo, Action, ◌>>=◌, ◌>>◌, pure, when, set_reg, get_mem, get_udi,
  set_udi, usb_ep_int_clr,
}
use usb_fwu.Usb.Engine.{tn_usb_lpc_cmd_read}
use usb_fwu.Usb.Endpoint.{
  usb_max_packet0, cmd_ep_select_clear, tn_usb_ep0_write, tn_usb_ep_read, tn_usb_stall_ep,
}
use usb_fwu.Usb.Request.{
  bm_request_type, b_request, w_length, usb_set_address, usb_set_feature, usb_clear_feature,
  usb_set_configuration, usb_set_interface, usb_exch_stage_stallout, usb_get_status,
  usb_get_descriptor, usb_get_configuration, usb_get_interface, tn_usb_class_request,
}
use usb_fwu.Usb.Vendor.{tn_usb_vendor_request_out, tn_usb_vendor_request_in}

-- a setup packet arrived
abbrev pub stp : ℕ
stp = 4

-- `eps->pdata += bytes` on a pointer to words
abbrev pub pdata_after : ℕ → ℕ → ℕ
pdata_after pdata bytes = u32 (pdata + 4 * bytes)

-- the number of bytes in the next packet
abbrev pub packet_size : ℕ → ℕ
packet_size nbytes = if sltb usb_max_packet0 nbytes then usb_max_packet0 else nbytes

module _ (ctl : Controller) (layout : Layout) (spin rounds : ℕ) {Chip : Type 0} where
  open ctl use {Dev}

  unfoldable pub tn_usb_st_datain : Action (Usb Dev Chip) (Unit {0})
  tn_usb_st_datain = do
    eps ← get_udi ctl
    bytes ← tn_usb_ep0_write ctl spin 0x80 eps.pdata (packet_size eps.nbytes)
    set_udi ctl
        (record eps { nbytes = sub32 eps.nbytes bytes; pdata = pdata_after eps.pdata bytes })

  -- the switch of USB_CMD_STD_DEV_OUT
  unfoldable pub std_dev_out : ℕ → Action (Usb Dev Chip) Bool
  std_dev_out request =
      if request == 0x05
      then usb_set_address ctl spin
      else if request == 0x03
      then usb_set_feature ctl spin
      else if request == 0x01
      then usb_clear_feature ctl spin
      else if request == 0x09
      then usb_set_configuration ctl spin rounds
      else if request == 0x0b
      then usb_set_interface ctl spin
      else if request == 0x07
      then usb_exch_stage_stallout ctl spin >> pure false
      else pure false

  -- the switch of USB_CMD_STD_DEV_IN
  unfoldable pub std_dev_in : ℕ → Action (Usb Dev Chip) Bool
  std_dev_in request =
      if request == 0x00
      then usb_get_status ctl spin
      else if request == 0x06
      then usb_get_descriptor ctl spin rounds
      else if request == 0x08
      then usb_get_configuration ctl spin
      else if request == 0x0a
      then usb_get_interface ctl spin
      else pure false

  unfoldable pub tn_usb_ep0_setup : Action (Usb Dev Chip) Bool
  tn_usb_ep0_setup = do
    m ← get_mem ctl
    udi ← get_udi ctl
    let kind = bit_and (bm_request_type m udi) 0xe0
    let request = b_request m udi
    if kind == 0x00
        then std_dev_out request
        else if kind == 0x80
        then std_dev_in request
        else if kind == 0xa0 || kind == 0x20
        then tn_usb_class_request ctl spin
        else if kind == 0x40
        then tn_usb_vendor_request_out ctl layout
        else if kind == 0xc0
        then tn_usb_vendor_request_in ctl layout
        else pure false

  unfoldable pub tn_usb_ep0_tx_int_func : Action (Usb Dev Chip) (Unit {0})
  tn_usb_ep0_tx_int_func = do
    ep_status ← tn_usb_lpc_cmd_read ctl spin (bit_or cmd_ep_select_clear 1)
    tn_usb_st_datain
    set_reg ctl usb_ep_int_clr 2

  -- `if(eps->nbytes > usp->wLength) eps->nbytes = usp->wLength;`
  unfoldable pub clamp_nbytes : Action (Usb Dev Chip) (Unit {0})
  clamp_nbytes = do
    m ← get_mem ctl
    eps ← get_udi ctl
    set_udi ctl (record eps {
      nbytes = if sltb (w_length m eps) eps.nbytes then w_length m eps else eps.nbytes;
    })

  -- the answer to a request without data from the host
  unfoldable pub setup_stage : Action (Usb Dev Chip) (Unit {0})
  setup_stage = do
    rc ← tn_usb_ep0_setup
    if rc then clamp_nbytes >> tn_usb_st_datain else tn_usb_stall_ep ctl spin 0 true

  -- the branch of a setup packet
  unfoldable pub setup_arrived : Action (Usb Dev Chip) (Unit {0})
  setup_arrived = do
    udi ← get_udi ctl
    len ← tn_usb_ep_read ctl spin 0 (some udi.ep0_setup_packet)
    m ← get_mem ctl
    eps ← get_udi ctl
    set_udi ctl (record eps { pdata = eps.pbuf; nbytes = w_length m eps })
    when (w_length m eps == 0 || not (bit_and (bm_request_type m eps) 0x80 == 0)) setup_stage

  -- all the data of the host is in the buffer
  unfoldable pub data_complete : Action (Usb Dev Chip) (Unit {0})
  data_complete = do
    eps ← get_udi ctl
    set_udi ctl (record eps { pdata = eps.pbuf })
    rc ← tn_usb_ep0_setup
    if rc then tn_usb_st_datain else tn_usb_stall_ep ctl spin 0 true

  -- the branch of data from the host
  unfoldable pub data_arrived : Action (Usb Dev Chip) (Unit {0})
  data_arrived = do
    eps ← get_udi ctl
    bytes ← tn_usb_ep_read ctl spin 0 (some eps.pdata)
    eps1 ← get_udi ctl
    set_udi ctl
        (record eps1 { nbytes = sub32 eps1.nbytes bytes; pdata = pdata_after eps1.pdata bytes })
    if sub32 eps1.nbytes bytes == 0
        then data_complete
        else tn_usb_ep_read ctl spin 0 none >> pure tt

  unfoldable pub tn_usb_ep0_rx_int_func : Action (Usb Dev Chip) (Unit {0})
  tn_usb_ep0_rx_int_func = do
    ep_status ← tn_usb_lpc_cmd_read ctl spin (bit_or cmd_ep_select_clear 0)
    eps ← get_udi ctl
    if bit_and ep_status stp == 0 then when (sltb 0 eps.nbytes) data_arrived else setup_arrived
    set_reg ctl usb_ep_int_clr 1
