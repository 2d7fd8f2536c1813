-- ===== src/Usb/Request/Scan.antt =====
-- The scan of usb_SET_CONFIGURATION through the descriptors of the device.
use usb_fwu.Base.{ℕ, suc, ◌+◌, ◌==◌, ◌<◌, ◌≡◌, ◌≢◌, ap, ap₂, ◌∙◌, arith, some, Bool, true, false}
use usb_fwu.Memory.{Mem}
use usb_fwu.Usb.{Controller, Usb, UsbDeviceInfo}
use usb_fwu.Usb.Endpoint.{load_half, tn_usb_configure_device, tn_usb_config_ep}
use usb_fwu.Usb.Engine.{tn_usb_lpc_cmd_write}
use usb_fwu.Usb.Responds.{Responds, tn_usb_config_ep-Ends, tn_usb_lpc_cmd_write-Ends}
use usb_fwu.Usb.Request.{configure_round, configure_loop}

-- What the scan looks at in the descriptors of the device, from the address `b` on.
pub record IsDeviceTable (m : Mem) (b : ℕ) : Type 0 where
  pub device : (m b ≡ 18) × (m (b + 1) ≡ 1)
  pub configuration : (m (b + 18) ≡ 9) × (m (b + 18 + 1) ≡ 2) × (m (b + 18 + 5) ≡ 1)
  pub total : load_half m (b + 18 + 2) ≡ 32
  pub first_setting : (m (b + 27) ≡ 9) × (m (b + 27 + 1) ≡ 4) × (m (b + 27 + 3) ≡ 0)
  pub ep2_out : (m (b + 36) ≡ 7) × (m (b + 36 + 1) ≡ 5)
  pub ep2_in : (m (b + 43) ≡ 7) × (m (b + 43 + 1) ≡ 5)
  pub language : (m (b + 50) ≡ 4) × (m (b + 50 + 1) ≡ 3)
  pub manufacturer : (m (b + 54) ≡ 16) × (m (b + 54 + 1) ≡ 3)
  pub product : (m (b + 70) ≡ 44) × (m (b + 70 + 1) ≡ 3)
  pub serial : (m (b + 114) ≡ 14) × (m (b + 114 + 1) ≡ 3)
  pub after : m (b + 128) ≡ 0

module _ (ctl : Controller) (resp : Responds ctl) (spin : ℕ) (enough : resp.max_polls < spin)
    {Chip : Type 0} where
  open ctl use {Dev}

  -- The scan from a position on ends with the result, the device's description and the controller.
  abbrev pub Scans : ℕ → ℕ → ℕ → ℕ → Bool → Usb Dev Chip → Bool → UsbDeviceInfo → Dev → Type 0
  Scans n value ptr aset rc s r u d =
      configure_loop ctl spin n value (ptr, aset, rc) s ≡ some (r, record s { dev = d; udi = u })

  -- The controller is told that the device is configured, and both endpoints are opened.
  abbrev pub Configures : ℕ → Usb Dev Chip → Dev → Type 0
  Configures b s d =
      let u : UsbDeviceInfo = record s.udi { configuration = 1 } in
      (d1 : Dev) × (d2 : Dev) × (tn_usb_lpc_cmd_write ctl spin 0xd8 1 (record s { udi = u })
        ≡ some (tt, record s { dev = d1; udi = u }))
      × (tn_usb_config_ep ctl spin (b + 36) (record s { dev = d1; udi = u })
          ≡ some (tt, record s { dev = d2; udi = u }))
      × (tn_usb_config_ep ctl spin (b + 43) (record s { dev = d2; udi = u })
          ≡ some (tt, record s { dev = d; udi = u }))

  end-scan :
      (n value ptr aset : ℕ) (rc : Bool) (s : Usb Dev Chip)
      → s.loader.mem ptr ≡ 0
      → Scans (suc n) value ptr aset rc s rc s.udi s.dev
  unfolding configure_loop
  end-scan n value ptr aset rc s h = unfold configure_loop in ground (arith, h)

  -- A round that takes the scan to a next position, and what comes then.
  step :
      (n value ptr aset : ℕ) (rc : Bool) (s s1 : Usb Dev Chip) (next : ℕ × ℕ × Bool)
      → 0 < s.loader.mem ptr
      → configure_round ctl spin value (ptr, aset, rc) s ≡ some (next, s1)
      → configure_loop ctl spin (suc n) value (ptr, aset, rc) s
        ≡ configure_loop ctl spin n value next s1
  unfolding configure_loop
  step n value ptr aset rc s s1 next pos round =
      let present : (s.loader.mem ptr == 0) ≡ false = ground arith in
      rw (present, configure_loop, round)

  -- A descriptor that is none of a configuration, an interface or an endpoint is passed over.
  skip :
      (n value ptr aset len kind : ℕ) (rc r : Bool) (s : Usb Dev Chip) (u : UsbDeviceInfo) (d : Dev)
      → (s.loader.mem ptr ≡ len) × (s.loader.mem (ptr + 1) ≡ kind)
      → 0 < len
      → kind ≢ 2
      → kind ≢ 4
      → kind ≢ 5
      → Scans n value (ptr + len) aset rc s r u d
      → Scans (suc n) value ptr aset rc s r u d
  unfolding configure_round
  skip n value ptr aset len kind rc r s u d (size, type) pos c i p e =
      let no_configuration : (s.loader.mem (ptr + 1) == 2) ≡ false = ground arith in
      let no_interface : (s.loader.mem (ptr + 1) == 4) ≡ false = ground arith in
      let no_endpoint : (s.loader.mem (ptr + 1) == 5) ≡ false = ground arith in
      (step n value ptr aset rc s s (ptr + s.loader.mem ptr, aset, rc) (omega arith)
          (rw (no_configuration, no_interface, no_endpoint))
        ∙ ap (λ k. configure_loop ctl spin n value (ptr + k, aset, rc) s) size
        ∙ e)

  interface :
      (n value ptr aset : ℕ) (rc r : Bool) (s : Usb Dev Chip) (u : UsbDeviceInfo) (d : Dev)
      → (s.loader.mem ptr ≡ 9) × (s.loader.mem (ptr + 1) ≡ 4) × (s.loader.mem (ptr + 3) ≡ 0)
      → Scans n value (ptr + 9) 0 rc s r u d
      → Scans (suc n) value ptr aset rc s r u d
  unfolding configure_round
  interface n value ptr aset rc r s u d (size, type, setting) e =
      let no_configuration : (s.loader.mem (ptr + 1) == 2) ≡ false = ground arith in
      let here : (s.loader.mem (ptr + 1) == 4) ≡ true = ground arith in
      (step n value ptr aset rc s s (ptr + s.loader.mem ptr, s.loader.mem (ptr + 3), rc)
          (omega arith) (rw (no_configuration, here))
        ∙ ap₂ (λ k a. configure_loop ctl spin n value (ptr + k, a, rc) s) size setting
        ∙ e)

  -- An endpoint of the first setting is opened.
  endpoint :
      (n value ptr : ℕ) (rc r : Bool) (s : Usb Dev Chip) (u : UsbDeviceInfo) (d1 d : Dev)
      → (s.loader.mem ptr ≡ 7) × (s.loader.mem (ptr + 1) ≡ 5)
      → tn_usb_config_ep ctl spin ptr s ≡ some (tt, record s { dev = d1 })
      → Scans n value (ptr + 7) 0 rc (record s { dev = d1 }) r u d
      → Scans (suc n) value ptr 0 rc s r u d
  unfolding configure_round
  endpoint n value ptr rc r s u d1 d (size, type) opened e =
      let no_configuration : (s.loader.mem (ptr + 1) == 2) ≡ false = ground arith in
      let no_interface : (s.loader.mem (ptr + 1) == 4) ≡ false = ground arith in
      let here : (s.loader.mem (ptr + 1) == 5) ≡ true = ground arith in
      step n value ptr 0 rc s (record s { dev = d1 }) (ptr + s.loader.mem ptr, 0, rc) (omega arith)
        (rw (no_configuration, no_interface, here, opened))
      ∙ ap (λ a. configure_loop ctl spin n value (ptr + a, 0, rc) (record s { dev = d1 })) size
      ∙ e

  -- The configuration that is asked for is set.
  matching :
      (n value ptr aset : ℕ) (rc r : Bool) (s : Usb Dev Chip) (u : UsbDeviceInfo) (d1 d : Dev)
      → (s.loader.mem ptr ≡ 9) × (s.loader.mem (ptr + 1) ≡ 2) × (s.loader.mem (ptr + 5) ≡ value)
      → tn_usb_lpc_cmd_write ctl spin 0xd8 1
          (record s { udi = record s.udi { configuration = value } })
        ≡ some (tt, record s { dev = d1; udi = record s.udi { configuration = value } })
      → Scans n value
          (ptr + 9)
          aset
          true
          (record s { dev = d1; udi = record s.udi { configuration = value } })
          r
          u
          d
      → Scans (suc n) value ptr aset rc s r u d
  unfolding configure_round tn_usb_configure_device
  matching n value ptr aset rc r s u d1 d (size, type, same) set e =
      let here : (s.loader.mem (ptr + 1) == 2) ≡ true = ground arith in
      let it : (s.loader.mem (ptr + 5) == value) ≡ true = ground arith in
      step n value ptr aset rc s
        (record s { dev = d1; udi = record s.udi { configuration = value } })
        (ptr + s.loader.mem ptr, aset, true) (omega arith) (rw (here, it, set))
      ∙ ap
          (λ a.
            configure_loop ctl spin n value (ptr + a, aset, true)
              (record s { dev = d1; udi = record s.udi { configuration = value } }))
          size
      ∙ e

  -- Another configuration is passed over with all its descriptors.
  other :
      (n value ptr aset number total : ℕ) (rc r : Bool) (s : Usb Dev Chip) (u : UsbDeviceInfo)
      (d : Dev)
      → (s.loader.mem ptr ≡ 9) × (s.loader.mem (ptr + 1) ≡ 2) × (s.loader.mem (ptr + 5) ≡ number)
      → load_half s.loader.mem (ptr + 2) ≡ total
      → number ≢ value
      → Scans n value (ptr + total) aset rc s r u d
      → Scans (suc n) value ptr aset rc s r u d
  unfolding configure_round
  other n value ptr aset number total rc r s u d (size, type, number_at) total_at differs e =
      let here : (s.loader.mem (ptr + 1) == 2) ≡ true = ground arith in
      let not_it : (s.loader.mem (ptr + 5) == value) ≡ false = ground arith in
      (step n value ptr aset rc s s (ptr + load_half s.loader.mem (ptr + 2), aset, rc) (omega arith)
          (rw (here, not_it))
        ∙ ap (λ a. configure_loop ctl spin n value (ptr + a, aset, rc) s) total_at
        ∙ e)

  located :
      (n value ptr ptr' aset : ℕ) (rc r : Bool) (s : Usb Dev Chip) (u : UsbDeviceInfo) (d : Dev)
      → ptr' ≡ ptr
      → Scans n value ptr aset rc s r u d
      → Scans n value ptr' aset rc s r u d
  located n value ptr ptr' aset rc r s u d e x = rw e x

  -- Behind the configuration stand strings only.
  strings :
      (k value b aset : ℕ) (rc : Bool) (s : Usb Dev Chip)
      → IsDeviceTable s.loader.mem b
      → Scans (suc (suc (suc (suc (suc k))))) value (b + 50) aset rc s rc s.udi s.dev
  strings k value b aset rc s w =
      skip (suc (suc (suc (suc k)))) value (b + 50) aset 4 3 rc rc s s.udi s.dev w.language
        (omega arith) (omega arith) (omega arith) (omega arith)
        (located (suc (suc (suc (suc k)))) value (b + 54) (b + 50 + 4) aset rc rc s s.udi s.dev
          (omega arith)
          (skip (suc (suc (suc k))) value (b + 54) aset 16 3 rc rc s s.udi s.dev w.manufacturer
            (omega arith) (omega arith) (omega arith) (omega arith)
            (located (suc (suc (suc k))) value (b + 70) (b + 54 + 16) aset rc rc s s.udi s.dev
              (omega arith)
              (skip (suc (suc k)) value (b + 70) aset 44 3 rc rc s s.udi s.dev w.product
                (omega arith) (omega arith) (omega arith) (omega arith)
                (located (suc (suc k)) value (b + 114) (b + 70 + 44) aset rc rc s s.udi s.dev
                  (omega arith)
                  (skip (suc k) value (b + 114) aset 14 3 rc rc s s.udi s.dev w.serial (omega arith)
                    (omega arith) (omega arith) (omega arith)
                    (located (suc k) value (b + 128) (b + 114 + 14) aset rc rc s s.udi s.dev
                      (omega arith) (end-scan k value (b + 128) aset rc s w.after))))))))

  -- The scan for configuration 1 sets it and opens both endpoints.
  pub scan_first :
      (b : ℕ) (s : Usb Dev Chip)
      → IsDeviceTable s.loader.mem b
      → (d : Dev) × Scans 10 1 b 0 false s true (record s.udi { configuration = 1 }) d
        × Configures b s d
  scan_first b s w =
      let (d1, set) =
        tn_usb_lpc_cmd_write-Ends ctl resp spin enough 0xd8 1 (record s { udi = u }) in
      let (d2, opened_out) = tn_usb_config_ep-Ends ctl resp spin enough (b + 36) (after_set d1) in
      let (d, opened_in) = tn_usb_config_ep-Ends ctl resp spin enough (b + 43) (after_set d2) in
      (
        d,
        skip 9 1 b 0 18 1 false true s u d w.device (omega arith) (omega arith) (omega arith)
            (omega arith)
            (matching 8 1 (b + 18) 0 false true s u d1 d w.configuration set (
              located 8 1 (b + 27) (b + 18 + 9) 0 true true (after_set d1) u d (omega arith) (
                interface 7 1 (b + 27) 0 true true (after_set d1) u d w.first_setting (
                  located 7 1 (b + 36) (b + 27 + 9) 0 true true (after_set d1) u d (omega arith) (
                    endpoint 6 1 (b + 36) true true (after_set d1) u d2 d w.ep2_out opened_out (
                      located 6 1 (b + 43) (b + 36 + 7) 0 true true (after_set d2) u d (omega arith)
                        (endpoint 5 1 (b + 43) true true (after_set d2) u d d w.ep2_in opened_in (
                          located 5 1 (b + 50) (b + 43 + 7) 0 true true (after_set d) u d
                            (omega arith) (strings 0 1 b 0 true (after_set d) w))))))))),
        (d1, d2, set, opened_out, opened_in),
      )
    where
      u : UsbDeviceInfo
      u = record s.udi { configuration = 1 }

      after_set : Dev → Usb Dev Chip
      after_set d = record s { dev = d; udi = u }

  -- The scan for another configuration changes nothing.
  pub scan_other :
      (b value : ℕ) (s : Usb Dev Chip)
      → IsDeviceTable s.loader.mem b
      → 1 ≢ value
      → Scans 10 value b 0 false s false s.udi s.dev
  scan_other b value s w differs =
      skip 9 value b 0 18 1 false false s s.udi s.dev w.device (omega arith) (omega arith)
        (omega arith) (omega arith)
        (other 8 value (b + 18) 0 1 32 false false s s.udi s.dev w.configuration w.total differs (
          located 8 value (b + 50) (b + 18 + 32) 0 false false s s.udi s.dev (omega arith)
            (strings 3 value b 0 false s w)))
