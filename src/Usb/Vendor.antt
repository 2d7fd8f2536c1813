-- ===== src/Usb/Vendor.antt =====
-- LPC214X_USB_FWU/usb_fwu/fwu_usb_thumb.c: the vendor requests, by which the host describes the
-- firmware that it will send, asks for the one in the flash, or asks whether this is the upgrader.
pub mod Frame
pub mod Gate
use usb_fwu.Base.{ℕ, ◌+◌, ◌==◌, List, Option, none, some, Bool, true, false, if◌then◌else◌}
use usb_fwu.Memory.{Mem, load_word, store_word, s_memset}
use usb_fwu.Crc.{calc_crc, ctrl_buf_crc_off}
use usb_fwu.Image.{FwInfo, fw_load_addr}
use usb_fwu.Stream.{Layout, put_fw_info, get_fw}
use usb_fwu.Usb.{Controller, Usb, UsbDeviceInfo, Action, pure}
use usb_fwu.Usb.Request.{b_request}

abbrev pub get_fw_info : ℕ
get_fw_info = 0x05

abbrev pub user_abort : ℕ
user_abort = 0x0d

abbrev pub get_isfwu : ℕ
get_isfwu = 0x16

abbrev pub get_isfwu_ask : ℕ
get_isfwu_ask = 0x1234aa55

abbrev pub fw_product_id_offset : ℕ
fw_product_id_offset = 4

abbrev pub fw_version_offset : ℕ
fw_version_offset = 8

abbrev pub fw_length_offset : ℕ
fw_length_offset = 12

abbrev pub fw_crc_offset : ℕ
fw_crc_offset = 16

-- the four words of a frame that describe a firmware
abbrev pub info_at : Mem → ℕ → FwInfo
info_at m ptr = record {
  fw_product_id = load_word m (ptr + fw_product_id_offset);
  fw_version = load_word m (ptr + fw_version_offset);
  fw_length = load_word m (ptr + fw_length_offset);
  fw_crc = load_word m (ptr + fw_crc_offset);
}

-- The copies of `tn_usb_vendor_request_in` into a frame that is filled with zeros, and its CRC. Each
-- `s_memcpy` of four bytes is a load and a `store_word` (Memory.Copy).
unfoldable pub info_frame : List ℕ → ℕ → Mem → Mem
info_frame table ptr m =
    let m0 = s_memset ptr 0 ctrl_buf_crc_off m in
    let m1 = store_word m0 (ptr + fw_product_id_offset) (load_word m0 fw_load_addr) in
    let m2 = store_word m1 (ptr + fw_version_offset) (load_word m1 (fw_load_addr + 4)) in
    let m3 = store_word m2 (ptr + fw_length_offset) (load_word m2 (fw_load_addr + 8)) in
    let m4 = store_word m3 (ptr + fw_crc_offset) (load_word m3 (fw_load_addr + 12)) in
    store_word m4 (ptr + ctrl_buf_crc_off) (calc_crc table m4 ptr ctrl_buf_crc_off)

-- the description that stands in front of the firmware in the flash
abbrev pub rom_info : Mem → FwInfo
rom_info m = record {
  fw_product_id = load_word m fw_load_addr;
  fw_version = load_word m (fw_load_addr + 4);
  fw_length = load_word m (fw_load_addr + 8);
  fw_crc = load_word m (fw_load_addr + 12);
}

module _ (ctl : Controller) (layout : Layout) {Chip : Type 0} where
  open ctl use {Dev}

  -- `tmp1 == tmp2`
  abbrev pub frame_crc_ok : Usb Dev Chip → Bool
  frame_crc_ok s =
      calc_crc layout.crc32_ref_table s.loader.mem s.udi.pdata ctrl_buf_crc_off
      == load_word s.loader.mem (s.udi.pdata + ctrl_buf_crc_off)

  unfoldable pub tn_usb_vendor_request_out : Action (Usb Dev Chip) Bool
  tn_usb_vendor_request_out s =
      if b_request s.loader.mem s.udi == put_fw_info
      then (if frame_crc_ok s
          then some (
            true,
            record s {
              loader = record s.loader {
                info = info_at s.loader.mem s.udi.pdata;
                g_state = put_fw_info;
              };
            },
          )
          else some (false, s))
      else if b_request s.loader.mem s.udi == get_fw
      then some (true, record s { loader = record s.loader { g_state = get_fw } })
      else if b_request s.loader.mem s.udi == user_abort
      then some (true, s)
      else some (false, s)

  unfoldable pub tn_usb_vendor_request_in : Action (Usb Dev Chip) Bool
  tn_usb_vendor_request_in s =
      if b_request s.loader.mem s.udi == get_fw_info
      then some (
        true,
        record s {
          loader = record s.loader {
            mem = info_frame layout.crc32_ref_table s.udi.pdata s.loader.mem;
            info = rom_info (info_frame layout.crc32_ref_table s.udi.pdata s.loader.mem);
          };
        },
      )
      else if b_request s.loader.mem s.udi == get_isfwu
      then some (
        true,
        record s {
          udi = record s.udi { nbytes = 8 };
          loader = record s.loader { mem = store_word s.loader.mem s.udi.pdata get_isfwu_ask };
        },
      )
      else some (false, s)
