-- ===== src/Usb/Engine.antt =====
-- LPC214X_USB_FWU/usb_fwu/fwu_usb_thumb.c: the commands to the protocol engine, tn_usb_lpc_cmd,
-- tn_usb_lpc_cmd_write and tn_usb_lpc_cmd_read. They end on a controller that takes commands.
use usb_fwu.Base.{ℕ, ◌*◌, ◌^◌, bit_or, u32}
use usb_fwu.Usb.{
  Controller, Usb, Action, ◌>>=◌, ◌>>◌, pure, set_reg, get_reg, await, usb_dev_int_clr,
  usb_cmd_code, usb_cmd_data,
}

abbrev pub ccemty : ℕ
ccemty = 0x10

abbrev pub cdfull : ℕ
cdfull = 0x20

-- `0x00000500 | (cmd << 16)`, and the words of the data phases
abbrev pub cmd_code : ℕ → ℕ
cmd_code cmd = bit_or 0x500 (u32 (cmd * 2 ^ 16))

abbrev pub write_code : ℕ → ℕ
write_code value = bit_or 0x100 (u32 (value * 2 ^ 16))

abbrev pub read_code : ℕ → ℕ
read_code cmd = bit_or 0x200 (u32 (cmd * 2 ^ 16))

module _ (ctl : Controller) (spin : ℕ) {Chip : Type 0} where
  open ctl use {Dev}

  unfoldable pub tn_usb_lpc_cmd : ℕ → Action (Usb Dev Chip) (Unit {0})
  tn_usb_lpc_cmd cmd = do
    set_reg ctl usb_dev_int_clr (bit_or cdfull ccemty)
    set_reg ctl usb_cmd_code (cmd_code cmd)
    await ctl spin ccemty
    set_reg ctl usb_dev_int_clr ccemty

  unfoldable pub tn_usb_lpc_cmd_write : ℕ → ℕ → Action (Usb Dev Chip) (Unit {0})
  tn_usb_lpc_cmd_write cmd value = do
    set_reg ctl usb_dev_int_clr (bit_or cdfull ccemty)
    set_reg ctl usb_cmd_code (cmd_code cmd)
    await ctl spin ccemty
    set_reg ctl usb_dev_int_clr ccemty
    set_reg ctl usb_cmd_code (write_code value)
    await ctl spin ccemty
    set_reg ctl usb_dev_int_clr ccemty

  unfoldable pub tn_usb_lpc_cmd_read : ℕ → Action (Usb Dev Chip) ℕ
  tn_usb_lpc_cmd_read cmd = do
    set_reg ctl usb_dev_int_clr (bit_or cdfull ccemty)
    set_reg ctl usb_cmd_code (cmd_code cmd)
    await ctl spin ccemty
    set_reg ctl usb_dev_int_clr ccemty
    set_reg ctl usb_cmd_code (read_code cmd)
    await ctl spin cdfull
    ret_val ← get_reg ctl usb_cmd_data
    set_reg ctl usb_dev_int_clr cdfull
    pure ret_val
