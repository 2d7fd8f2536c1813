-- ===== src/Stream/Main.antt =====
-- LPC214X_USB_FWU/usb_fwu/fwu.c: one round of the endless loop of main.
use usb_fwu.Base.{ℕ, ◌==◌, if◌then◌else◌, not, Option, none, some, List}
use usb_fwu.Flash.{flash_erase_sectors}
use usb_fwu.Flash.Rom.{Iap}
use usb_fwu.Image.{fw_load_addr}
use usb_fwu.Stream.{
  Layout, Loader, Event, set_state, send_to_host, state_default, get_fw, put_fw_info,
  put_fw_info_ask, prc_clk,
}
use usb_fwu.Stream.Rx.{RxEnd, stream_rx}
use usb_fwu.Stream.Tx.{TxEnd, stream_tx}

-- What a round did.
pub data Served : Type 0 where
  received : RxEnd → Served
  sent : TxEnd → Served
  idle : Served

module _ (iap : Iap) (layout : Layout) (fuel : ℕ) where
  open iap use {Chip}

  -- the branch of PUT_FW_INFO: erase, tell the host, receive
  unfoldable pub serve_put : List (List Event) → Loader Chip → Option (Served × Loader Chip)
  serve_put rounds l =
      elim (flash_erase_sectors iap fuel fw_load_addr l.info.fw_length prc_clk l.chip l.mem) [
        | none ↦ none
        | some (rc, c, m) ↦
            elim (send_to_host layout put_fw_info_ask
              (record l { g_full_block = 0; chip = c; mem = m })) [
                | none ↦ none
                | some l1 ↦ elim (stream_rx iap layout fuel rounds (set_state state_default l1)) [
                  | none ↦ none
                  | some (e, l2) ↦ some (received e, l2)
                ]
              ]
      ]

  unfoldable pub serve_get : List (List Event) → Loader Chip → Option (Served × Loader Chip)
  serve_get rounds l =
      elim (stream_tx layout rounds (set_state state_default (record l { g_full_block = 1 }))) [
        | none ↦ none
        | some (e, l1) ↦ some (sent e, l1)
      ]

  -- One round of `for(;;)` in `main`, with the interrupts of the stream that it may serve. `none` is a
  -- round that has not come to its end.
  unfoldable pub main_round : List (List Event) → Loader Chip → Option (Served × Loader Chip)
  unfolding serve_put serve_get
  main_round rounds l =
      if l.g_state == put_fw_info
      then serve_put rounds l
      else if l.g_state == get_fw
      then serve_get rounds l
      else if not (l.g_state == state_default)
      then some (idle, set_state state_default l)
      else some (idle, l)
