-- ===== src/Usb.antt =====
-- LPC214X_USB_FWU/usb_fwu: the USB device of fwu_usb_*.c and fwu_int.c. This file: the registers of
-- lpc214x.h that these files use, the controller behind them, gUSBInfo (fwu_usb.h), and the
-- actions on the whole state.
pub mod Engine
pub mod Responds
pub mod Endpoint
pub mod Descriptors
pub mod Request
pub mod Vendor
pub mod Control
pub mod Bulk
pub mod Interrupt
use usb_fwu.Base.{
  ℕ, zero, suc, ◌+◌, ◌*◌, ◌==◌, ◌<◌, ◌≤◌, ◌≡◌, bit_and, Option, none, some, Bool, true, false,
  if◌then◌else◌,
}
use usb_fwu.Memory.{Mem}
use usb_fwu.Stream.{Loader}

pub data Reg : Type 0 where
  usb_dev_int_st usb_dev_int_en usb_dev_int_clr usb_ep_int_st usb_ep_int_en usb_ep_int_clr : Reg
  usb_re_ep usb_ep_ind usb_max_p_size usb_rx_data usb_rx_p_len usb_tx_data usb_tx_p_len : Reg
  usb_ctrl usb_cmd_code usb_cmd_data vic_vect_addr t0ir io0set io0clr : Reg

-- The registers are volatile: a read may change the controller, as that of a FIFO does, and two reads
-- may differ.
pub record Controller : Type 1 where
  pub Dev : Type 0
  pub write : Reg → ℕ → Dev → Dev
  pub read : Reg → Dev → ℕ × Dev

-- `USB_DEVICE_INFO` with its `USB_EP_STATUS`. `nbytes` is an `int`; `pdata` counts in words of 4 bytes;
-- `ep0_setup_packet` is the address of the `USB_SETUP_PACKET`.
pub record UsbDeviceInfo : Type 0 where
  pub nbytes : ℕ
  pub pdata : ℕ
  pub pbuf : ℕ
  pub ep0_setup_packet : ℕ
  pub descriptors : ℕ
  pub configuration : ℕ

-- The controller, gUSBInfo and the globals of fwu.c.
pub record Usb (Dev Chip : Type 0) : Type 0 where
  pub dev : Dev
  pub udi : UsbDeviceInfo
  pub loader : Loader Chip

-- An action on the state; `none` is a loop that polls on when the fuel is spent.
abbrev pub Action : Type 0 → Type 0 → Type 0
Action S A = S → Option (A × S)

module _ {S : Type 0} where
  abbrev pub pure : {A : Type 0} → A → Action S A
  pure a s = some (a, s)

  abbrev pub and_then : {A B : Type 0} → Option (A × S) → (A → Action S B) → Option (B × S)
  and_then none f = none
  and_then (some (a, s)) f = f a s

  infixl 5 ◌>>=◌ ◌>>◌
  abbrev pub ◌>>=◌ : {A B : Type 0} → Action S A → (A → Action S B) → Action S B
  ◌>>=◌ m f s = and_then (m s) f

  abbrev pub ◌>>◌ : {A B : Type 0} → Action S A → Action S B → Action S B
  m >> n = m >>= λ _. n

  abbrev pub when : Bool → Action S (Unit {0}) → Action S (Unit {0})
  when test m = if test then m else pure tt

module _ (ctl : Controller) {Chip : Type 0} where
  open ctl use {Dev}

  abbrev pub set_reg : Reg → ℕ → Action (Usb Dev Chip) (Unit {0})
  set_reg r v s = some (tt, record s { dev = ctl.write r v s.dev })

  abbrev pub get_reg : Reg → Action (Usb Dev Chip) ℕ
  get_reg r s = let (v, d) = ctl.read r s.dev in some (v, record s { dev = d })

  abbrev pub get_mem : Action (Usb Dev Chip) Mem
  get_mem s = some (s.loader.mem, s)

  abbrev pub set_mem : Mem → Action (Usb Dev Chip) (Unit {0})
  set_mem m s = some (tt, record s { loader = record s.loader { mem = m } })

  abbrev pub get_udi : Action (Usb Dev Chip) UsbDeviceInfo
  get_udi s = some (s.udi, s)

  abbrev pub set_udi : UsbDeviceInfo → Action (Usb Dev Chip) (Unit {0})
  set_udi u s = some (tt, record s { udi = u })

  -- `while(!(rUSBDevIntSt & mask));` with the reads allowed
  unfoldable pub await : ℕ → ℕ → Action (Usb Dev Chip) (Unit {0})
  await zero mask s = none
  await (suc n) mask s =
      let (v, d) = ctl.read usb_dev_int_st s.dev in
      let s1 = record s { dev = d } in
      let rest = await n mask s1 in
      elim (bit_and v mask == 0) [ true ↦ rest | false ↦ some (tt, s1) ]
