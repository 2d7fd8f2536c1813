-- ===== src/Host/Transfer/Accepted.antt =====
-- The device starts the image that the host has prepared.
use usb_fwu.Base.{
  ℕ, ◌+◌, ◌-◌, ◌^◌, ◌≤◌, ◌<◌, ◌≡◌, ◌↔◌, ap, sym, ◌∙◌, arith, true, sltb, sub32, if◌then◌else◌, List,
  length, get_or, bit_xor,
}
use usb_fwu.Memory.{Mem, load_word, store_bytes}
use usb_fwu.Memory.Bytes.{store_bytes-byte}
use usb_fwu.Crc.{calc_crc}
use usb_fwu.Crc.Table.{IsCrcTable}
use usb_fwu.Image.{FwInfo, flash_size, fw_load_addr, do_switch_to_firmware}
use usb_fwu.Host.Crc.Agree.{host_calc_crc-eq}
use usb_fwu.Host.Command.Exchange.{crc_loop-shift}
use usb_fwu.Host.Transfer.{HostData, prepare}

-- The code of an image stands in the flash of the device behind its header.
abbrev pub HasCode : List ℕ → Mem → Type 0
HasCode image m = (k : ℕ) → 0x20 ≤ k → k < length image → m (0x2000 + k) ≡ get_or image k 0

-- The header in the flash states a length and a CRC.
abbrev pub States : FwInfo → Mem → Type 0
States pfw m = (load_word m 0x2008 ≡ pfw.fw_length) × (load_word m 0x200c ≡ pfw.fw_crc)

pub prepared_crc :
    (table : List ℕ) (fw_buf : ℕ) (image : List ℕ) (g : HostData) (m : Mem)
    → IsCrcTable table
    → ((a : ℕ) → m a < 256)
    → ((a : ℕ) → g.mem a < 256)
    → ((k : ℕ) → get_or image k 0 < 256)
    → length image < 2 ^ 31
    → HasCode image m
    → calc_crc table m 0x2020 (sub32 (length image) 0x20) ≡ (prepare fw_buf image g).0.fw_crc
unfolding prepare calc_crc
prepared_crc table fw_buf image g m t bytes host_bytes image_bytes small code =
    let sent = store_bytes g.mem fw_buf image in
    let left = sub32 (length image) 0x20 in
    let host =
      host_calc_crc-eq table sent (fw_buf + 0x20) left t
        (store_bytes-byte g.mem fw_buf image image_bytes host_bytes) in
    ap (λ (r : ℕ). bit_xor r 0xffffffff)
      (crc_loop-shift table m sent (if sltb 0 left then left else 0) 0x2020 (fw_buf + 0x20)
        0xffffffff
        (λ k lt.
          let within : 0x20 + k < length image = ground arith in
          let up : 0x2020 + k ≡ 0x2000 + (0x20 + k) = omega arith in
          let here : fw_buf + 0x20 + k - fw_buf ≡ 0x20 + k = omega arith in
          ap m up ∙ code (0x20 + k) (omega arith) within ∙ ground arith))
    ∙ sym host

-- With a table of CRC-32 and bytes in both memories and in the image, of less than 2 GB: a device
-- whose flash holds the code of the image, and whose header states the length and the CRC that the
-- host has computed when it prepared the image, starts it exactly if the image is not empty and fits
-- behind the upgrader.
pub prepare-accepted :
    (table : List ℕ) (fw_buf : ℕ) (image : List ℕ) (g : HostData) (m : Mem) (info : FwInfo)
    → IsCrcTable table
    → ((a : ℕ) → m a < 256)
    → ((a : ℕ) → g.mem a < 256)
    → ((k : ℕ) → get_or image k 0 < 256)
    → length image < 2 ^ 31
    → HasCode image m
    → States (prepare fw_buf image g).0 m
    → ((do_switch_to_firmware table m info).1 ≡ true)
      ↔ ((0 < length image) × (length image ≤ flash_size - fw_load_addr))
unfolding do_switch_to_firmware prepare
prepare-accepted table fw_buf image g m info t bytes host_bytes image_bytes small code (len, crc) =
    let matches =
      prepared_crc table fw_buf image g m t bytes host_bytes image_bytes small code ∙ sym crc in
    ground (arith, matches)
