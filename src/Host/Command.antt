-- ===== src/Host/Command.antt =====
-- fwl_src/usbfwu/fwu_cmd.cpp, IsFWU of fwu_utils.cpp and MakeRxCmd of RxPipe.cpp: the requests that
-- the host sends over the control endpoint and the answers that it takes.
pub mod Exchange
use usb_fwu.Base.{ℕ, ◌+◌, ◌%◌, ◌==◌, Bool, true, false, if◌then◌else◌}
use usb_fwu.Memory.{Mem, store, load_word, store_word}
use usb_fwu.Crc.{ctrl_buf_crc_off}
use usb_fwu.Image.{FwInfo}
use usb_fwu.Stream.{put_fw_info, ctrl_buf_size}
use usb_fwu.Usb.Vendor.{
  get_fw_info, get_isfwu, get_isfwu_ask, fw_product_id_offset, fw_version_offset, fw_length_offset,
  fw_crc_offset, info_at,
}
use usb_fwu.Host.Crc.{host_calc_crc}

abbrev pub app_cmd : ℕ
app_cmd = 0x50

abbrev pub fw_rx_rdy : ℕ
fw_rx_rdy = 0x09

-- A vendor request to the device, with the bytes of its data phase. `value` is 0 where the code leaves
-- it unset.
pub record VendorRequest : Type 0 where
  pub request : ℕ
  pub value : ℕ
  pub byte_count : ℕ
  pub buffer : Mem

-- A local array that `memset` has cleared; it stands at address 0 of a memory of its own.
abbrev pub cleared : Mem
cleared a = 0

-- `FW_INFO`, with the address and the number of the bytes that are still to be moved
pub record HostFw : Type 0 where
  pub fw : FwInfo
  pub is_valid : Bool
  pub buf_ptr : ℕ
  pub len : ℕ

abbrev pub cmd_to_app : ℕ → VendorRequest
cmd_to_app cmd = record { request = app_cmd; value = cmd; byte_count = 0; buffer = cleared }

abbrev pub cmd_no_data : ℕ → VendorRequest
cmd_no_data cmd = record { request = cmd; value = 0; byte_count = 0; buffer = cleared }

-- the array that `cmd_PUT_FW_INFO` fills, up to its CRC
abbrev pub put_fields : FwInfo → Mem
put_fields pfw =
    let b1 = store_word cleared fw_product_id_offset pfw.fw_product_id in
    let b2 = store_word b1 fw_version_offset pfw.fw_version in
    let b3 = store_word b2 fw_length_offset pfw.fw_length in
    let b4 = store_word b3 fw_crc_offset pfw.fw_crc in store b4 0 put_fw_info

unfoldable pub cmd_put_fw_info : FwInfo → VendorRequest
cmd_put_fw_info pfw = record {
  request = put_fw_info;
  value = 0;
  byte_count = ctrl_buf_size;
  buffer =
      store_word (put_fields pfw) ctrl_buf_crc_off
        (host_calc_crc (put_fields pfw) 0 ctrl_buf_crc_off);
}

-- The request of `cmd_GET_FW_INFO`, and what it makes of the 64 bytes `mbuf` that answer it. `fw_buf`
-- is the address of `FWBuf`. That the open file is rewound is left out.
abbrev pub get_fw_info_request : VendorRequest
get_fw_info_request = record {
  request = get_fw_info;
  value = 0;
  byte_count = ctrl_buf_size;
  buffer = cleared;
}

unfoldable pub cmd_get_fw_info : ℕ → Mem → HostFw → Bool × HostFw
cmd_get_fw_info fw_buf mbuf g =
    if host_calc_crc mbuf 0 ctrl_buf_crc_off == load_word mbuf ctrl_buf_crc_off
    then (
      true,
      record {
        fw = info_at mbuf 0;
        buf_ptr = fw_buf;
        len = (info_at mbuf 0).fw_length;
        is_valid = true;
      },
    )
    else (false, record g { is_valid = false })

-- The request of `IsFWU`, and what it makes of the answer.
abbrev pub is_fwu_request : VendorRequest
is_fwu_request = record { request = get_isfwu; value = 0; byte_count = 8; buffer = cleared }

unfoldable pub is_fwu : Mem → Bool
is_fwu mbuf = if load_word mbuf 0 == get_isfwu_ask then true else false

-- `CRxPipe::MakeRxCmd`, into an array at address 0
unfoldable pub make_rx_cmd : ℕ → Mem
make_rx_cmd cmd =
    let buf = store cleared 0 (cmd % 256) in
    store_word buf ctrl_buf_crc_off (host_calc_crc buf 0 ctrl_buf_crc_off)
