-- ===== src/Usb/Request.antt =====
-- LPC214X_USB_FWU/usb_fwu/fwu_usb_req.c: the standard and the class requests.
pub mod Lookup
pub mod Scan
pub mod Configure
use usb_fwu.Base.{
  ℕ, zero, suc, ◌+◌, ◌*◌, ◌/◌, ◌==◌, bit_and, Option, none, some, Bool, true, false, if◌then◌else◌,
  ◌&&◌, ◌||◌,
}
use usb_fwu.Memory.{Mem, store_word}
use usb_fwu.Usb.{
  Controller, Usb, UsbDeviceInfo, Action, ◌>>=◌, ◌>>◌, pure, when, get_mem, set_mem, get_udi,
  set_udi,
}
use usb_fwu.Usb.Endpoint.{
  load_half, tn_usb_config_ep, tn_usb_stall_ep, tn_usb_set_addr, tn_usb_configure_device,
}
use usb_fwu.Usb.Descriptors.{
  usb_descr_type_configuration, usb_descr_type_interface, usb_descr_type_endpoint,
}

-- The fields of the `USB_SETUP_PACKET` at an address.
abbrev pub bm_request_type : Mem → UsbDeviceInfo → ℕ
bm_request_type m u = m u.ep0_setup_packet

abbrev pub b_request : Mem → UsbDeviceInfo → ℕ
b_request m u = m (u.ep0_setup_packet + 1)

abbrev pub w_value : Mem → UsbDeviceInfo → ℕ
w_value m u = load_half m (u.ep0_setup_packet + 2)

abbrev pub w_index : Mem → UsbDeviceInfo → ℕ
w_index m u = load_half m (u.ep0_setup_packet + 4)

abbrev pub w_length : Mem → UsbDeviceInfo → ℕ
w_length m u = load_half m (u.ep0_setup_packet + 6)

-- `bmRequestType & CMD_MASK_RECIP`
abbrev pub recipient : Mem → UsbDeviceInfo → ℕ
recipient m u = bit_and (bm_request_type m u) 0x1f

abbrev pub cmd_recip_device : ℕ
cmd_recip_device = 0

abbrev pub cmd_recip_interface : ℕ
cmd_recip_interface = 1

abbrev pub cmd_recip_endpoint : ℕ
cmd_recip_endpoint = 2

unfoldable pub tn_usb_reset_data : UsbDeviceInfo → UsbDeviceInfo
tn_usb_reset_data u = record u { configuration = 0; nbytes = 0 }

-- The scan of `usb_GET_DESCRIPTOR` from `ptr` on: the descriptor of the type that is the `left`-th to
-- come, or none before the terminating zero. The outer `none` is a scan that has not ended.
unfoldable pub scan_descriptors : ℕ → Mem → ℕ → ℕ → ℕ → ℕ → Option (Option ℕ)
scan_descriptors zero m req_type req_index ptr ind = none
scan_descriptors (suc n) m req_type req_index ptr ind =
    let hit = m (ptr + 1) == req_type in
    let rest =
      scan_descriptors n m req_type req_index (ptr + m ptr) (if hit then ind + 1 else ind) in
    if m ptr == 0
    then some none
    else if hit
    then (if ind == req_index then some (some ptr) else rest)
    else rest

module _ (ctl : Controller) (spin : ℕ) {Chip : Type 0} where
  open ctl use {Dev}

  unfoldable pub usb_set_address : Action (Usb Dev Chip) Bool
  usb_set_address = do
    m ← get_mem ctl
    u ← get_udi ctl
    if recipient m u == cmd_recip_device
        then tn_usb_set_addr ctl spin (w_value m u) >> pure true
        else pure false

  -- no feature can be set
  unfoldable pub usb_set_feature : Action (Usb Dev Chip) Bool
  usb_set_feature = pure false

  unfoldable pub usb_clear_feature : Action (Usb Dev Chip) Bool
  usb_clear_feature = do
    m ← get_mem ctl
    u ← get_udi ctl
    if recipient m u == cmd_recip_endpoint && w_value m u == 0
        then tn_usb_stall_ep ctl spin (w_index m u) false >> pure true
        else pure false

  -- A round of the scan of `usb_SET_CONFIGURATION`: `ptr`, `aset` and `rc` afterwards.
  unfoldable pub configure_round : ℕ → ℕ × ℕ × Bool → Action (Usb Dev Chip) (ℕ × ℕ × Bool)
  configure_round value (ptr, aset, rc) = do
    m ← get_mem ctl
    u ← get_udi ctl
    if m (ptr + 1) == usb_descr_type_configuration && m (ptr + 5) == value
        then set_udi ctl (record u { configuration = value })
          >> tn_usb_configure_device ctl spin true
          >> pure (ptr + m ptr, aset, true)
        else if m (ptr + 1) == usb_descr_type_configuration
        then pure (ptr + load_half m (ptr + 2), aset, rc)
        else if m (ptr + 1) == usb_descr_type_interface
        then pure (ptr + m ptr, m (ptr + 3), rc)
        else if m (ptr + 1) == usb_descr_type_endpoint
        then when (aset == 0) (tn_usb_config_ep ctl spin ptr) >> pure (ptr + m ptr, aset, rc)
        else pure (ptr + m ptr, aset, rc)

  -- `while(*ptr)`, with the rounds allowed
  unfoldable pub configure_loop : ℕ → ℕ → ℕ × ℕ × Bool → Action (Usb Dev Chip) Bool
  configure_loop zero value (ptr, aset, rc) s = none
  configure_loop (suc n) value (ptr, aset, rc) s = elim (s.loader.mem ptr == 0) [
    | true ↦ some (rc, s)
    | false ↦ elim (configure_round value (ptr, aset, rc) s) [
      | none ↦ none
      | some (next, s1) ↦ configure_loop n value next s1
    ]
  ]

  -- a configuration, or 0 for the address state
  unfoldable pub select_configuration : ℕ → ℕ → Action (Usb Dev Chip) Bool
  select_configuration rounds value = do
    u ← get_udi ctl
    if value == 0
        then set_udi ctl (record u { configuration = 0 })
          >> tn_usb_configure_device ctl spin false
          >> pure false
        else configure_loop rounds value (u.descriptors, 0, false)

  unfoldable pub usb_set_configuration : ℕ → Action (Usb Dev Chip) Bool
  usb_set_configuration rounds = do
    m ← get_mem ctl
    u ← get_udi ctl
    let value = bit_and (w_value m u) 0xff
    rc ← select_configuration rounds value
    u1 ← get_udi ctl
    pure (if u1.configuration == value then true else rc)

  unfoldable pub usb_set_interface : Action (Usb Dev Chip) Bool
  usb_set_interface = pure false

  unfoldable pub usb_exch_stage_stallout : Action (Usb Dev Chip) (Unit {0})
  usb_exch_stage_stallout = do
    tn_usb_stall_ep ctl spin 0 true
    u ← get_udi ctl
    set_udi ctl (record u { nbytes = 0 })

  -- `pdata[0] = 0; pdata[1] = 0;`, which are words, and two bytes to send
  unfoldable pub usb_get_status : Action (Usb Dev Chip) Bool
  usb_get_status = do
    m ← get_mem ctl
    u ← get_udi ctl
    if recipient m u == cmd_recip_device
          || recipient m u == cmd_recip_interface
          || recipient m u == cmd_recip_endpoint
        then set_mem ctl (store_word (store_word m u.pdata 0) (u.pdata + 4) 0)
          >> set_udi ctl (record u { nbytes = 2 })
          >> pure true
        else pure false

  unfoldable pub usb_get_descriptor : ℕ → Action (Usb Dev Chip) Bool
  usb_get_descriptor rounds s =
      let m = s.loader.mem in
      let req_type = w_value m s.udi / 256 in
      let found =
        scan_descriptors rounds m req_type (bit_and (w_value m s.udi) 0xff) s.udi.descriptors 0 in
      if recipient m s.udi == cmd_recip_device
      then (elim found [
        | none ↦ none
        | some none ↦ some (false, s)
        | some (some ptr) ↦
            let size =
              if req_type == usb_descr_type_configuration then load_half m (ptr + 2) else m ptr in
            some (true, record s { udi = record s.udi { pdata = ptr; nbytes = size } })
      ])
      else some (false, s)

  unfoldable pub usb_get_configuration : Action (Usb Dev Chip) Bool
  usb_get_configuration = do
    m ← get_mem ctl
    u ← get_udi ctl
    if recipient m u == cmd_recip_device
        then set_mem ctl (store_word m u.pdata u.configuration)
          >> set_udi ctl (record u { nbytes = 1 })
          >> pure true
        else pure false

  unfoldable pub usb_get_interface : Action (Usb Dev Chip) Bool
  usb_get_interface = pure false

  unfoldable pub tn_usb_class_request : Action (Usb Dev Chip) Bool
  tn_usb_class_request = do
    m ← get_mem ctl
    u ← get_udi ctl
    if b_request m u == 0xfe
        then set_mem ctl (store_word m u.pdata 0)
          >> set_udi ctl (record u { nbytes = 1 })
          >> pure true
        else if b_request m u == 0xff
        then pure true
        else pure false
