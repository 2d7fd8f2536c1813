-- ===== src/Usb/Control/Stage.antt =====
-- The packets of an answer on the control endpoint.
use usb_fwu.Base.{ℕ, ◌+◌, ◌-◌, ◌*◌, ◌^◌, ◌%◌, ◌≤◌, ◌<◌, ◌≡◌, refl, arith, sub32, some}
use usb_fwu.Stream.{Layout}
use usb_fwu.Usb.{Controller, Usb}
use usb_fwu.Usb.Responds.{Responds, tn_usb_ep0_write-Ends}
use usb_fwu.Usb.Control.{packet_size, pdata_after, tn_usb_st_datain}

module _ (ctl : Controller) (resp : Responds ctl) (layout : Layout) (spin rounds : ℕ)
    (enough : resp.max_polls < spin) {Chip : Type 0} where
  open ctl use {Dev}

  datain-step :
      (s : Usb Dev Chip)
      → (d : Dev) × (tn_usb_st_datain ctl layout spin rounds s
          ≡ some (
            tt,
            record s {
              dev = d;
              udi = record s.udi {
                nbytes = sub32 s.udi.nbytes (packet_size s.udi.nbytes);
                pdata = pdata_after s.udi.pdata (packet_size s.udi.nbytes);
              };
            },
          ))
  unfolding tn_usb_st_datain
  datain-step s =
      let (d, e) =
        tn_usb_ep0_write-Ends ctl resp spin enough 0x80 s.udi.pdata (packet_size s.udi.nbytes) s in
      (d, rw (e, tn_usb_st_datain))

  -- On a controller that responds, a packet of an answer takes the next 64 bytes off what is left
  -- to send, or all of it if that is less, and changes no memory. `pdata` moves by four times the
  -- bytes sent.
  pub tn_usb_st_datain_lem :
      (s : Usb Dev Chip)
      → s.udi.nbytes < 2 ^ 31
      → (s' : Usb Dev Chip) × (tn_usb_st_datain ctl layout spin rounds s ≡ some (tt, s'))
        × (s'.loader ≡ s.loader)
        × (s'.udi.nbytes ≡ s.udi.nbytes - 64)
        × (s.udi.nbytes ≤ 64 → s'.udi.pdata ≡ (s.udi.pdata + 4 * s.udi.nbytes) % 2 ^ 32)
        × (64 ≤ s.udi.nbytes → s'.udi.pdata ≡ (s.udi.pdata + 256) % 2 ^ 32)
  tn_usb_st_datain_lem s h =
      let (d, e) = datain-step s in
      (_, e, refl, ground arith, λ small. ground arith, λ large. ground arith)
