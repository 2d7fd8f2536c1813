-- ===== src/Usb/Request/Configure.antt =====
-- usb_SET_CONFIGURATION on the descriptors of the device.
use usb_fwu.Base.{
  ℕ, ◌==◌, ◌<◌, ◌≡◌, ◌≢◌, ap, sym, ◌∙◌, arith, bit_and, Option, some, Bool, true, false,
  if◌then◌else◌,
}
use usb_fwu.Usb.{Controller, Usb, and_then}
use usb_fwu.Usb.Endpoint.{tn_usb_configure_device}
use usb_fwu.Usb.Responds.{Responds, tn_usb_lpc_cmd_write-Ends}
use usb_fwu.Usb.Request.{configure_loop, select_configuration, usb_set_configuration, w_value}
use usb_fwu.Usb.Request.Scan.{IsDeviceTable, Configures, scan_first, scan_other}
use usb_fwu.Usb.Engine.{tn_usb_lpc_cmd_write}

module _ (ctl : Controller) (resp : Responds ctl) (spin : ℕ) (enough : resp.max_polls < spin)
    {Chip : Type 0} where
  open ctl use {Dev}

  -- The end of the request, after the scan.
  usb_set_configuration-select :
      (s s1 : Usb Dev Chip) (rc : Bool)
      → let value = bit_and (w_value s.loader.mem s.udi) 0xff in
        select_configuration ctl spin 10 value s ≡ some (rc, s1)
        → usb_set_configuration ctl spin 10 s
          ≡ some (
            if s1.udi.configuration == bit_and (w_value s.loader.mem s.udi) 0xff then true else rc,
            s1,
          )
  unfolding usb_set_configuration
  usb_set_configuration-select s s1 rc e =
      ap
        (λ (o : Option (Bool × Usb Dev Chip)). and_then o (λ (r : Bool) (s2 : Usb Dev Chip). some (
          if s2.udi.configuration == bit_and (w_value s.loader.mem s.udi) 0xff then true else r,
          s2,
        )))
        e

  -- On a controller that responds and with the descriptors of the device, SET_CONFIGURATION ends,
  -- with ten rounds of its scan. Value 1 answers true with configuration 1; the controller has then
  -- had the command CONFIGURE DEVICE with 1, and behind it both bulk endpoints of the descriptors
  -- are opened. Value 0 answers true with configuration 0, and the controller has had CONFIGURE
  -- DEVICE with 0. Any other value changes nothing, not the controller either, and the answer is
  -- true only if it was the configuration before.
  pub usb_set_configuration_lem :
      (s : Usb Dev Chip)
      → IsDeviceTable s.loader.mem s.udi.descriptors
      → let value = bit_and (w_value s.loader.mem s.udi) 0xff in
        let out = usb_set_configuration ctl spin 10 s in
        (value ≡ 1
          → (d : Dev) × (out
              ≡ some (true, record s { dev = d; udi = record s.udi { configuration = 1 } }))
            × Configures ctl resp spin enough s.udi.descriptors s d)
        × (value ≡ 0
            → (d : Dev) × (out
                ≡ some (true, record s { dev = d; udi = record s.udi { configuration = 0 } }))
              × (tn_usb_lpc_cmd_write ctl spin 0xd8 0
                    (record s { udi = record s.udi { configuration = 0 } })
                  ≡ some (tt, record s { dev = d; udi = record s.udi { configuration = 0 } })))
        × (value ≢ 0
            → value ≢ 1
            → out ≡ some (if s.udi.configuration == value then true else false, s))
  unfolding select_configuration tn_usb_configure_device
  usb_set_configuration_lem s w = (
    λ one.
        let (d, e, configured) = scan_first ctl resp spin enough s.udi.descriptors s w in
        let positive : (value == 0) ≡ false = ground (arith, one) in
        let asked : (1 == value) ≡ true = ground (arith, one) in
        (
          d,
          usb_set_configuration-select s
                (record s { dev = d; udi = record s.udi { configuration = 1 } }) true
                (rw positive
                  (ap (λ v. configure_loop ctl spin 10 v (s.udi.descriptors, 0, false) s) one ∙ e))
              ∙ rw asked,
          configured,
        ),
    λ none_wanted.
        let (d, e) =
          tn_usb_lpc_cmd_write-Ends ctl resp spin enough 0xd8 0
            (record s { udi = record s.udi { configuration = 0 } }) in
        let zero_value : (value == 0) ≡ true = ground (arith, none_wanted) in
        let asked : (0 == value) ≡ true = ground (arith, none_wanted) in
        (
          d,
          usb_set_configuration-select s
                (record s { dev = d; udi = record s.udi { configuration = 0 } }) false
                (rw (zero_value, e))
              ∙ rw asked,
          e,
        ),
    λ not_zero not_one.
        let e =
          scan_other ctl resp spin enough s.udi.descriptors value s w (λ z. not_one (sym z)) in
        let positive : (value == 0) ≡ false = ground (arith, not_zero) in
        usb_set_configuration-select s s false (rw positive e),
  )
    where
      value : ℕ
      value = bit_and (w_value s.loader.mem s.udi) 0xff
