-- ===== src/Tests/Requests.antt =====
-- The USB requests at concrete inputs.
use usb_fwu.Base.{
  ℕ, ◌+◌, ◌%◌, ◌^◌, ◌==◌, ◌≤◌, ◌<◌, ◌≡◌, ◌≢◌, refl, arith, [], ◌∷◌, some, true, false,
  if◌then◌else◌,
}
use usb_fwu.Memory.{Mem, load_word, store_bytes}
use usb_fwu.Crc.Spec.{crc32}
use usb_fwu.Usb.{Usb, UsbDeviceInfo}
use usb_fwu.Usb.Descriptors.{ab_descriptors, descriptor_list}
use usb_fwu.Usb.Request.{usb_get_descriptor, usb_set_configuration}
use usb_fwu.Usb.Request.Scan.{IsDeviceTable, Configures}
use usb_fwu.Usb.Engine.{tn_usb_lpc_cmd_write}
use usb_fwu.Usb.Request.Configure.{usb_set_configuration_lem}
use usb_fwu.Usb.Request.Lookup.{IsTable, answer, usb_get_descriptor_lem}
use usb_fwu.Usb.Vendor.{
  info_at, rom_info, info_frame, tn_usb_vendor_request_out, tn_usb_vendor_request_in,
}
use usb_fwu.Usb.Vendor.Gate.{tn_usb_vendor_request_out_lem, vendor_request_out-in}
use usb_fwu.Usb.Control.{tn_usb_st_datain}
use usb_fwu.Usb.Control.Stage.{tn_usb_st_datain_lem}
use usb_fwu.Tests.Board.{ready_usb, ready_usb-Responds, board, table, table-IsCrcTable, loader}

-- The descriptors at 0x1000, and a SETUP packet at 0x40004000: the device, a request, and a value.
abbrev setup : ℕ → ℕ → ℕ → ℕ → Mem
setup kind request low high =
    store_bytes (store_bytes (λ a. 0) 0x1000 ab_descriptors) 0x40004000
      (kind ∷ request ∷ low ∷ high ∷ 0 ∷ 0 ∷ 64 ∷ 0 ∷ [])

abbrev usb_info : UsbDeviceInfo
usb_info = record {
  nbytes = 64;
  pdata = 0x40005000;
  pbuf = 0x40005000;
  ep0_setup_packet = 0x40004000;
  descriptors = 0x1000;
  configuration = 0;
}

abbrev asked : ℕ → ℕ → ℕ → ℕ → Usb (Unit {0}) (Unit {0})
asked kind request low high = record {
  dev = tt;
  udi = usb_info;
  loader = record loader { mem = setup kind request low high };
}

-- A SETUP packet alone, for a vendor request.
abbrev vendor : ℕ → ℕ → Usb (Unit {0}) (Unit {0})
vendor kind request = record {
  dev = tt;
  udi = usb_info;
  loader = record loader {
    mem = λ a. if a == 0x40004000 then kind else if a == 0x40004001 then request else 0;
  };
}

vendor-byte :
    (kind request : ℕ)
    → kind < 256
    → request < 256
    → (a : ℕ) → (vendor kind request).loader.mem a < 256
vendor-byte kind request hk hr a = ground arith

setup-IsTable : IsTable (setup 0x80 0x06 2 3) 0x1000 descriptor_list
setup-IsTable = (
  refl,
  omega arith,
  refl,
  (
    refl,
    omega arith,
    refl,
    (
      refl,
      omega arith,
      refl,
      (
        refl,
        omega arith,
        refl,
        (
          refl,
          omega arith,
          refl,
          (
            refl,
            omega arith,
            refl,
            (refl, omega arith, refl, (refl, omega arith, refl, (refl, omega arith, refl, refl))),
          ),
        ),
      ),
    ),
  ),
)

usb_get_descriptor_lem_example :
    usb_get_descriptor ready_usb 1 10 (asked 0x80 0x06 2 3)
    ≡ some (answer ready_usb 1 3 (asked 0x80 0x06 2 3) (some 0x1046))
usb_get_descriptor_lem_example =
    usb_get_descriptor_lem ready_usb 1 10 (asked 0x80 0x06 2 3) descriptor_list setup-IsTable
      (omega arith) refl

tn_usb_vendor_request_out_lem_example :
    let s = vendor 0x40 0x10 in
    let m = s.loader.mem in
    let out = tn_usb_vendor_request_out ready_usb board s in
    (crc32 m 0x40005000 60 ≡ load_word m 0x4000503c
      → out
        ≡ some (
          true,
          record s { loader = record s.loader { info = info_at m 0x40005000; g_state = 0x10 } },
        ))
    × (crc32 m 0x40005000 60 ≢ load_word m 0x4000503c → out ≡ some (false, s))
tn_usb_vendor_request_out_lem_example =
    tn_usb_vendor_request_out_lem ready_usb board (vendor 0x40 0x10) table-IsCrcTable
      (vendor-byte 0x40 0x10 (omega arith) (omega arith)) refl

tn_usb_st_datain_lem_example :
    let s = record (asked 0x80 0x06 0 2) { udi = record usb_info { nbytes = 100 } } in
    (s' : Usb (Unit {0}) (Unit {0})) × (tn_usb_st_datain ready_usb board 1 10 s ≡ some (tt, s'))
    × (s'.loader ≡ s.loader)
    × (s'.udi.nbytes ≡ 36)
    × (100 ≤ 64 → s'.udi.pdata ≡ (0x40005000 + 400) % 2 ^ 32)
    × (64 ≤ 100 → s'.udi.pdata ≡ (0x40005000 + 256) % 2 ^ 32)
tn_usb_st_datain_lem_example =
    tn_usb_st_datain_lem ready_usb ready_usb-Responds board 1 10 (omega arith)
      (record (asked 0x80 0x06 0 2) { udi = record usb_info { nbytes = 100 } }) (omega arith)

-- The answer to GET_FW_INFO, and the same state with PUT_FW_INFO in the SETUP packet.
abbrev answered : Usb (Unit {0}) (Unit {0})
answered = record (vendor 0xc0 0x05) {
  loader = record loader {
    mem = info_frame table 0x40005000 (vendor 0xc0 0x05).loader.mem;
    info = rom_info (info_frame table 0x40005000 (vendor 0xc0 0x05).loader.mem);
  };
}

abbrev returned : Usb (Unit {0}) (Unit {0})
returned = record answered {
  loader = record answered.loader {
    mem = λ a. if a == 0x40004001 then 0x10 else answered.loader.mem a;
  };
}

vendor-in : tn_usb_vendor_request_in ready_usb board (vendor 0xc0 0x05) ≡ some (true, answered)
unfolding tn_usb_vendor_request_in
vendor-in = refl

frame_kept :
    (a : ℕ) → 0x40005000 ≤ a → a < 0x40005040 → returned.loader.mem a ≡ answered.loader.mem a
frame_kept a lo hi = let elsewhere : (a == 0x40004001) ≡ false = ground arith in rw elsewhere

vendor_request_out-in_example :
    tn_usb_vendor_request_out ready_usb board returned
    ≡ some (
      true,
      record returned {
        loader = record returned.loader {
          info = rom_info (vendor 0xc0 0x05).loader.mem;
          g_state = 0x10;
        };
      },
    )
vendor_request_out-in_example =
    vendor_request_out-in ready_usb board (vendor 0xc0 0x05) table-IsCrcTable
      (vendor-byte 0xc0 0x05 (omega arith) (omega arith)) (omega arith) refl answered returned
      vendor-in refl frame_kept refl

setup-IsDeviceTable : IsDeviceTable (setup 0 9 1 0) 0x1000
setup-IsDeviceTable = record {
  device = (refl, refl);
  configuration = (refl, refl, refl);
  total = refl;
  first_setting = (refl, refl, refl);
  ep2_out = (refl, refl);
  ep2_in = (refl, refl);
  language = (refl, refl);
  manufacturer = (refl, refl);
  product = (refl, refl);
  serial = (refl, refl);
  after = refl;
}

enough_polls : 0 < 1
enough_polls = omega arith

usb_set_configuration_lem_example :
    let s = asked 0 9 1 0 in
    let value : ℕ = 1 in
    let out = usb_set_configuration ready_usb 1 10 s in
    (value ≡ 1
      → (d : Unit {0}) × (out
          ≡ some (true, record s { dev = d; udi = record usb_info { configuration = 1 } }))
        × Configures ready_usb ready_usb-Responds 1 enough_polls 0x1000 s d)
    × (value ≡ 0
        → (d : Unit {0}) × (out
            ≡ some (true, record s { dev = d; udi = record usb_info { configuration = 0 } }))
          × (tn_usb_lpc_cmd_write ready_usb 1 0xd8 0
                (record s { udi = record usb_info { configuration = 0 } })
              ≡ some (tt, record s { dev = d; udi = record usb_info { configuration = 0 } })))
    × (value ≢ 0 → value ≢ 1 → out ≡ some (false, s))
usb_set_configuration_lem_example =
    usb_set_configuration_lem ready_usb ready_usb-Responds 1 enough_polls (asked 0 9 1 0)
      setup-IsDeviceTable
