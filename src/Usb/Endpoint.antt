-- ===== src/Usb/Endpoint.antt =====
-- LPC214X_USB_FWU/usb_fwu: the operations on endpoints of fwu_usb_thumb.c and fwu_usb_hw.c.
use usb_fwu.Base.{
  ℕ, zero, suc, ◌+◌, ◌*◌, ◌/◌, ◌^◌, ◌==◌, sltb, bit_and, bit_or, Option, none, some, Bool, true,
  false, if◌then◌else◌, not,
}
use mathlib.Core.Option
use usb_fwu.Memory.{Mem, load_word, store_word}
use usb_fwu.Flash.{err_no_err}
use usb_fwu.Usb.{
  Controller, Usb, Action, ◌>>=◌, ◌>>◌, pure, when, set_reg, get_reg, get_mem, await,
  usb_dev_int_clr, usb_ep_int_en, usb_re_ep, usb_ep_ind, usb_max_p_size, usb_rx_data, usb_rx_p_len,
  usb_tx_data, usb_tx_p_len, usb_ctrl,
}
use usb_fwu.Usb.Engine.{tn_usb_lpc_cmd, tn_usb_lpc_cmd_write}

abbrev pub ep_num_lg2ph : ℕ → ℕ
ep_num_lg2ph x = bit_or (bit_and x 0x0f * 2) (bit_and x 0x80 / 128)

-- a little-endian halfword
abbrev pub load_half : Mem → ℕ → ℕ
load_half m a = m a + 256 * m (a + 1)

-- a store through a pointer that may be NULL
abbrev pub store_at : Option ℕ → ℕ → Mem → Mem
store_at none word m = m
store_at (some p) word m = store_word m p word

abbrev pub cmd_dev_status : ℕ
cmd_dev_status = 0xfe

abbrev pub cmd_dev_config : ℕ
cmd_dev_config = 0xd8

abbrev pub cmd_dev_set_address : ℕ
cmd_dev_set_address = 0xd0

abbrev pub cmd_dev_set_mode : ℕ
cmd_dev_set_mode = 0xf3

abbrev pub cmd_ep_select : ℕ
cmd_ep_select = 0x00

abbrev pub cmd_ep_select_clear : ℕ
cmd_ep_select_clear = 0x40

abbrev pub cmd_ep_set_status : ℕ
cmd_ep_set_status = 0x40

abbrev pub cmd_ep_clear_buffer : ℕ
cmd_ep_clear_buffer = 0xf2

abbrev pub cmd_ep_validate_buffer : ℕ
cmd_ep_validate_buffer = 0xfa

abbrev pub rd_en : ℕ
rd_en = 1

abbrev pub wr_en : ℕ
wr_en = 2

abbrev pub pkt_rdy : ℕ
pkt_rdy = 0x800

abbrev pub pkt_lngth_mask : ℕ
pkt_lngth_mask = 0x3ff

abbrev pub ep_rlzed : ℕ
ep_rlzed = 0x100

abbrev pub usb_max_packet0 : ℕ
usb_max_packet0 = 64

module _ (ctl : Controller) (spin : ℕ) {Chip : Type 0} where
  open ctl use {Dev}

  unfoldable pub ep_bulk_release : ℕ → ℕ → Action (Usb Dev Chip) (Unit {0})
  ep_bulk_release ep_num_phys packet_size = do
    re_ep ← get_reg ctl usb_re_ep
    set_reg ctl usb_re_ep (bit_or re_ep (2 ^ ep_num_phys))
    set_reg ctl usb_ep_ind ep_num_phys
    set_reg ctl usb_max_p_size packet_size
    await ctl spin ep_rlzed
    set_reg ctl usb_dev_int_clr ep_rlzed

  -- `ptr` is the address of an endpoint descriptor
  unfoldable pub tn_usb_config_ep : ℕ → Action (Usb Dev Chip) (Unit {0})
  tn_usb_config_ep ptr = do
    m ← get_mem ctl
    let ep_num_phys = ep_num_lg2ph (bit_and (m (ptr + 2)) 0x8f)
    re_ep ← get_reg ctl usb_re_ep
    set_reg ctl usb_re_ep (bit_or re_ep (2 ^ ep_num_phys))
    set_reg ctl usb_ep_ind ep_num_phys
    set_reg ctl usb_max_p_size (load_half m (ptr + 4))
    await ctl spin ep_rlzed
    set_reg ctl usb_dev_int_clr ep_rlzed
    tn_usb_lpc_cmd_write ctl spin (bit_or cmd_ep_set_status ep_num_phys) 0
    tn_usb_lpc_cmd_write ctl spin (bit_or cmd_ep_set_status ep_num_phys) 0
    ep_int_en ← get_reg ctl usb_ep_int_en
    set_reg ctl usb_ep_int_en (bit_or ep_int_en (2 ^ ep_num_phys))

  -- `while(rUSBCtrl & WR_EN)`: four bytes at a time, to the FIFO
  unfoldable pub write_fifo : ℕ → ℕ → Action (Usb Dev Chip) (Unit {0})
  write_fifo zero buf s = none
  write_fifo (suc n) buf s =
      let (ctrl, d) = ctl.read usb_ctrl s.dev in
      let s1 = record s { dev = d } in
      let rest =
        write_fifo n (buf + 4)
          (record s { dev = ctl.write usb_tx_data (load_word s.loader.mem buf) d }) in
      elim (bit_and ctrl wr_en == 0) [ true ↦ some (tt, s1) | false ↦ rest ]

  unfoldable pub tn_usb_ep0_write : ℕ → ℕ → ℕ → Action (Usb Dev Chip) ℕ
  tn_usb_ep0_write ep buf nbytes = do
    let ep_num_logical = bit_and ep 0x8f
    set_reg ctl usb_ctrl (bit_or wr_en (bit_and ep_num_logical 0x0f * 4))
    set_reg ctl usb_tx_p_len nbytes
    when (sltb 0 nbytes) (write_fifo spin buf)
    set_reg ctl usb_ctrl 0
    tn_usb_lpc_cmd ctl spin (bit_or cmd_ep_select (ep_num_lg2ph ep_num_logical))
    tn_usb_lpc_cmd ctl spin cmd_ep_validate_buffer
    pure nbytes

  -- `do { len = rUSBRxPLen; } while((len & PKT_RDY) == 0);`
  unfoldable pub await_packet : ℕ → Action (Usb Dev Chip) ℕ
  await_packet zero s = none
  await_packet (suc n) s =
      let (len, d) = ctl.read usb_rx_p_len s.dev in
      let s1 = record s { dev = d } in
      let rest = await_packet n s1 in
      elim (bit_and len pkt_rdy == 0) [ true ↦ rest | false ↦ some (len, s1) ]

  -- `while(rUSBCtrl & RD_EN)`: a word of the FIFO is stored, or dropped if there is no buffer
  unfoldable pub read_fifo : ℕ → Option ℕ → Action (Usb Dev Chip) (Unit {0})
  read_fifo zero buf s = none
  read_fifo (suc n) buf s =
      let (ctrl, d) = ctl.read usb_ctrl s.dev in
      let (word, d2) = ctl.read usb_rx_data d in
      let rest = read_fifo n (Option.map (λ (p : ℕ). p + 4) buf) (record s {
        dev = d2;
        loader = record s.loader { mem = store_at buf word s.loader.mem };
      }) in
      elim (bit_and ctrl rd_en == 0) [ true ↦ some (tt, record s { dev = d }) | false ↦ rest ]

  -- `none` is the buffer NULL
  unfoldable pub tn_usb_ep_read : ℕ → Option ℕ → Action (Usb Dev Chip) ℕ
  tn_usb_ep_read ep buf = do
    let ep_num_logical = bit_and ep 0x8f
    set_reg ctl usb_ctrl (bit_or rd_en (ep_num_logical * 4))
    len ← await_packet spin
    read_fifo spin buf
    set_reg ctl usb_ctrl 0
    tn_usb_lpc_cmd ctl spin (bit_or cmd_ep_select (ep_num_lg2ph ep_num_logical))
    tn_usb_lpc_cmd ctl spin cmd_ep_clear_buffer
    pure (bit_and len pkt_lngth_mask)

  unfoldable pub tn_usb_stall_ep : ℕ → Bool → Action (Usb Dev Chip) (Unit {0})
  tn_usb_stall_ep ep_num_logical mode =
      tn_usb_lpc_cmd_write ctl spin
        (bit_or cmd_ep_set_status (ep_num_lg2ph (bit_and ep_num_logical 0x8f)))
        (if mode then 1 else 0)

  unfoldable pub tn_usb_set_addr : ℕ → Action (Usb Dev Chip) (Unit {0})
  tn_usb_set_addr addr = do
    tn_usb_lpc_cmd_write ctl spin cmd_dev_set_address (bit_or 0x80 (bit_and addr 0xff))
    tn_usb_lpc_cmd_write ctl spin cmd_dev_set_mode 0x60

  unfoldable pub tn_usb_reset_ep : ℕ → Action (Usb Dev Chip) (Unit {0})
  tn_usb_reset_ep ep_num_logical =
      tn_usb_lpc_cmd_write ctl spin
        (bit_or cmd_ep_set_status (ep_num_lg2ph (bit_and ep_num_logical 0x8f))) 0

  -- the loop of `tn_usb_configure`, with the rounds left
  unfoldable pub enable_endpoints : ℕ → ℕ → Action (Usb Dev Chip) (Unit {0})
  enable_endpoints zero i = pure tt
  enable_endpoints (suc n) i = do
    ep_int_en ← get_reg ctl usb_ep_int_en
    when (not (bit_and ep_int_en (2 ^ i) == 0))
        (tn_usb_lpc_cmd_write ctl spin (bit_or cmd_ep_set_status i) 0)
    enable_endpoints n (i + 1)

  unfoldable pub tn_usb_configure : Bool → Action (Usb Dev Chip) (Unit {0})
  tn_usb_configure mode = do
    ep_int_en ← get_reg ctl usb_ep_int_en
    set_reg ctl usb_re_ep ep_int_en
    enable_endpoints 32 0
    tn_usb_lpc_cmd_write ctl spin cmd_dev_config (if mode then 1 else 0)

  unfoldable pub tn_usb_configure_device : Bool → Action (Usb Dev Chip) (Unit {0})
  tn_usb_configure_device mode =
      tn_usb_lpc_cmd_write ctl spin cmd_dev_config (if mode then 1 else 0)

  unfoldable pub tn_usb_config_ep0 : Action (Usb Dev Chip) (Unit {0})
  tn_usb_config_ep0 = do
    ep_bulk_release 0 usb_max_packet0
    ep_bulk_release 1 usb_max_packet0
    ep_int_en ← get_reg ctl usb_ep_int_en
    set_reg ctl usb_ep_int_en (bit_or ep_int_en 3)

  unfoldable pub tn_usb_connect : Bool → Action (Usb Dev Chip) ℕ
  tn_usb_connect mode =
      tn_usb_lpc_cmd_write ctl spin cmd_dev_status (if mode then 1 else 0) >> pure err_no_err
