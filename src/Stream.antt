-- ===== src/Stream.antt =====
-- LPC214X_USB_FWU/usb_fwu/fwu.c: the state that the main loop and the interrupt handlers share, the
-- bulk endpoint's interrupts as the main loop sees them, and send_to_host.
pub mod Rx
pub mod Tx
pub mod Main
pub mod Safe
pub mod Send
pub mod Block
pub mod Total
pub mod Timeout
pub mod Verdict
pub mod Judged
pub mod Bytes
pub mod Boots
pub mod Sent
pub mod Rounds
pub mod Arrivals
pub mod Written
pub mod Outgoing
use usb_fwu.Base.{ℕ, ◌+◌, Option, none, some, List, [], ◌∷◌}
use mathlib.Core.Option
use usb_fwu.Memory.{Mem, s_memset, s_memcpy}
use usb_fwu.Crc.{make_cmd}
use usb_fwu.Queue.{FwuDq, enqueue, fwu_queue_tst, fwu_queue_put, fwu_queue_get}
use usb_fwu.Image.{FwInfo}

-- What the linker and the start of `main` fix: the CRC table and the addresses of `gStreamRXBuf` and
-- of the local array of `send_to_host`.
pub record Layout : Type 0 where
  pub crc32_ref_table : List ℕ
  pub g_stream_rx_buf : ℕ
  pub cmd_buf : ℕ

-- The globals of fwu.c, the memory and the flash controller.
pub record Loader (Chip : Type 0) : Type 0 where
  pub mem : Mem
  pub chip : Chip
  pub queue_ep2_rx : FwuDq
  pub queue_ep2_tx : FwuDq
  pub info : FwInfo
  pub g_state : ℕ
  pub g_full_block : ℕ

abbrev pub state_default : ℕ
state_default = 0

abbrev pub get_fw : ℕ
get_fw = 0x07

abbrev pub put_fw_info : ℕ
put_fw_info = 0x10

abbrev pub put_fw_info_ask : ℕ
put_fw_info_ask = 0x73

abbrev pub fw_wr_rdy : ℕ
fw_wr_rdy = 0x78

abbrev pub fw_wr_err : ℕ
fw_wr_err = 0x75

abbrev pub ctrl_buf_size : ℕ
ctrl_buf_size = 64

abbrev pub stream_buf_size : ℕ
stream_buf_size = 4096

abbrev pub prc_clk : ℕ
prc_clk = 60000

-- What the bulk endpoint does to the main loop: `tn_usb_ep_rx_int` brings a packet, and
-- `tn_usb_ep_tx_int` takes one.
pub data Event : Type 0 where
  received : List ℕ → Event
  transmitted : Event

module _ {Chip : Type 0} where
  -- A packet that finds the queue full stays in the endpoint, which answers NAK.
  unfoldable pub interrupt : Event → Loader Chip → Loader Chip
  interrupt (received packet) l =
      let (done, m, q) = enqueue packet (l.mem, l.queue_ep2_rx) in
      record l { mem = m; queue_ep2_rx = q }
  interrupt transmitted l = record l { queue_ep2_tx = (fwu_queue_get l.queue_ep2_tx).1 }

  unfoldable pub interrupts : List Event → Loader Chip → Loader Chip
  interrupts [] l = l
  interrupts (e ∷ es) l = interrupts es (interrupt e l)

  unfoldable pub set_state : ℕ → Loader Chip → Loader Chip
  set_state state l = record l { g_state = state }

  -- A command that finds the queue full is dropped.
  unfoldable pub send_to_host : Layout → ℕ → Loader Chip → Option (Loader Chip)
  send_to_host layout cmd l =
      let m1 =
        make_cmd layout.crc32_ref_table cmd layout.cmd_buf (s_memset layout.cmd_buf 0 64 l.mem) in
      elim (fwu_queue_tst l.queue_ep2_tx) [
        | none ↦ some (record l { mem = m1 })
        | some ptr ↦
            Option.map (λ m2. record l { mem = m2; queue_ep2_tx = fwu_queue_put l.queue_ep2_tx })
              (s_memcpy ptr layout.cmd_buf 64 m1)
      ]
