-- ===== src/Usb/Interrupt.antt =====
-- LPC214X_USB_FWU/usb_fwu: the reset of fwu_usb_thumb.c and the USB and timer interrupts of fwu_int.c.
use usb_fwu.Base.{
  ℕ, ◌-◌, ◌^◌, ◌==◌, leb, bit_and, bit_or, Bool, true, false, if◌then◌else◌, not, ◌&&◌,
}
use usb_fwu.Stream.{Layout}
use usb_fwu.Usb.{
  Controller, Usb, Action, ◌>>=◌, ◌>>◌, pure, when, set_reg, get_reg, get_udi, set_udi,
  usb_dev_int_st, usb_dev_int_en, usb_dev_int_clr, usb_ep_int_st, usb_ep_int_clr, vic_vect_addr,
  t0ir, io0set, io0clr,
}
use usb_fwu.Usb.Engine.{tn_usb_lpc_cmd_read}
use usb_fwu.Usb.Endpoint.{cmd_dev_status, tn_usb_config_ep0}
use usb_fwu.Usb.Request.{tn_usb_reset_data}
use usb_fwu.Usb.Control.{tn_usb_ep0_rx_int_func, tn_usb_ep0_tx_int_func}
use usb_fwu.Usb.Bulk.{ep2_rx, ep2_tx, tn_usb_ep_rx_int, tn_usb_ep_tx_int}

abbrev pub dev_stat : ℕ
dev_stat = 8

abbrev pub ep_slow : ℕ
ep_slow = 4

abbrev pub con_ch : ℕ
con_ch = 2

abbrev pub rst : ℕ
rst = 16

abbrev pub blink_val : ℕ
blink_val = 10

-- the static variables of `tn_timer0_int_func`
pub record Blink : Type 0 where
  pub cnt : ℕ
  pub flag : Bool

module _ (ctl : Controller) (layout : Layout) (spin rounds : ℕ) {Chip : Type 0} where
  open ctl use {Dev}

  unfoldable pub tn_usb_int_reset : Action (Usb Dev Chip) (Unit {0})
  tn_usb_int_reset = do
    set_reg ctl usb_ep_int_clr 0xffffffff
    tn_usb_config_ep0 ctl spin
    set_reg ctl usb_dev_int_clr 0xffffffff
    dev_int_en ← get_reg ctl usb_dev_int_en
    set_reg ctl usb_dev_int_en (bit_or dev_int_en 0xc)
    udi ← get_udi ctl
    set_udi ctl (tn_usb_reset_data udi)

  unfoldable pub tn_usb_int_con_ch : Action (Usb Dev Chip) (Unit {0})
  tn_usb_int_con_ch = tn_usb_int_reset

  -- `if(rUSBDevIntSt & DEV_STAT)`; suspending and resuming do nothing
  unfoldable pub device_status : Action (Usb Dev Chip) (Unit {0})
  device_status = do
    status ← tn_usb_lpc_cmd_read ctl spin cmd_dev_status
    when (not (bit_and status rst == 0)) tn_usb_int_reset
    when (not (bit_and status con_ch == 0)) tn_usb_int_con_ch
    set_reg ctl usb_dev_int_clr dev_stat

  -- `if(rUSBDevIntSt & EP_SLOW)`
  unfoldable pub endpoint_status : Action (Usb Dev Chip) (Unit {0})
  endpoint_status = do
    status ← get_reg ctl usb_ep_int_st
    if not (bit_and status 1 == 0)
        then tn_usb_ep0_rx_int_func ctl layout spin rounds
        else when (not (bit_and status 2 == 0)) (tn_usb_ep0_tx_int_func ctl layout spin rounds)
    when (not (bit_and status (2 ^ ep2_rx) == 0)) (tn_usb_ep_rx_int ctl spin)
    when (not (bit_and status (2 ^ ep2_tx) == 0)) (tn_usb_ep_tx_int ctl spin)
    set_reg ctl usb_dev_int_clr ep_slow

  unfoldable pub tn_usb_int_func : Action (Usb Dev Chip) (Unit {0})
  tn_usb_int_func = do
    first ← get_reg ctl usb_dev_int_st
    when (not (bit_and first dev_stat == 0)) device_status
    second ← get_reg ctl usb_dev_int_st
    when (not (bit_and second ep_slow == 0)) endpoint_status
    set_reg ctl vic_vect_addr 0

  -- the LED of a device that is not configured is switched
  unfoldable pub switch_led : Bool → Action (Usb Dev Chip) Bool
  switch_led true = do
    pins ← get_reg ctl io0clr
    set_reg ctl io0clr (bit_or pins (2 ^ 14))
    pure false
  switch_led false = do
    pins ← get_reg ctl io0set
    set_reg ctl io0set (bit_or pins (2 ^ 14))
    pure true

  unfoldable pub tn_timer0_int_func : Blink → Action (Usb Dev Chip) Blink
  tn_timer0_int_func b = do
    set_reg ctl t0ir 0xff
    udi ← get_udi ctl
    let due = leb b.cnt 1
    flag ← if due && udi.configuration == 0 then switch_led b.flag else pure b.flag
    set_reg ctl vic_vect_addr 0xff
    pure (record { cnt = if due then blink_val else b.cnt - 1; flag = flag })
