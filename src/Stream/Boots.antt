-- ===== src/Stream/Boots.antt =====
-- What an upload that ended well is worth after a reset.
use usb_fwu.Base.{ℕ, ◌≤◌, ◌<◌, ◌≡◌, sym, ◌∙◌, arith, some, false, true, List, length}
use usb_fwu.Memory.{Mem}
use usb_fwu.Memory.Bytes.{IsBytes}
use usb_fwu.Crc.Table.{IsCrcTable}
use usb_fwu.Flash.Rom.{Iap}
use usb_fwu.Image.{FwInfo, has_mark, main_start}
use usb_fwu.Image.Accept.{image_length, stated_crc, code_crc, do_switch_to_firmware_lem}
use usb_fwu.Image.Boot.{SameFlash, load_word-congr, code_crc-congr, is_firmware, main_start_lem}
use usb_fwu.Stream.{Layout, Loader, Event}
use usb_fwu.Stream.Rx.{started, stream_rx}
use usb_fwu.Stream.Bytes.{RoundsOfBytes, stream_rx-byte}
use usb_fwu.Stream.Verdict.{stream_rx-Verdict}

module _ (iap : Iap) (layout : Layout) (fuel : ℕ) (enough : iap.max_pending < fuel) where
  open iap use {Chip}

  -- An upload that ends in the start of the firmware holds after a reset: with a table of CRC-32,
  -- and bytes in memory and in the packets, `main` starts the firmware after any reset that finds
  -- the same flash, bytes in memory and no request for the upgrader in RAM.
  pub stream_rx-boots :
      (rounds : List (List Event)) (l l' : Loader Chip)
      → stream_rx iap layout fuel rounds l ≡ some (started, l')
      → IsCrcTable layout.crc32_ref_table
      → IsBytes l.mem
      → RoundsOfBytes rounds
      → (isr fiq : ℕ) (table : List ℕ) (m : Mem) (info : FwInfo) → length table ≡ 256
      → IsBytes m
      → SameFlash l'.mem m
      → has_mark m ≡ false
      → is_firmware (main_start isr fiq table m info) ≡ true
  stream_rx-boots rounds l l' h t start packets isr fiq table m info e bytes' same unmarked =
      (main_start_lem isr fiq table m info e bytes').1 (
        unmarked,
        rw size positive,
        rw size small,
        sym (code_crc-congr l'.mem m same small) ∙ right ∙ stated,
      )
    where
      bytes : IsBytes l'.mem
      bytes = stream_rx-byte iap layout fuel enough rounds l l' started h packets start

      accepted :
          (0 < image_length l'.mem)
          × (image_length l'.mem ≤ 0x3e000)
          × (code_crc l'.mem ≡ stated_crc l'.mem)
      accepted =
          (do_switch_to_firmware_lem layout.crc32_ref_table l'.mem _ t bytes).0
            (stream_rx-Verdict iap layout fuel rounds l l' started h)

      positive : 0 < image_length l'.mem
      positive = accepted.0

      small : image_length l'.mem ≤ 0x3e000
      small = accepted.1

      right : code_crc l'.mem ≡ stated_crc l'.mem
      right = accepted.2

      size : image_length m ≡ image_length l'.mem
      size = sym (load_word-congr l'.mem m 0x2008 same (omega arith))

      stated : stated_crc l'.mem ≡ stated_crc m
      stated = load_word-congr l'.mem m 0x200c same (omega arith)
