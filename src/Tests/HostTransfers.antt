-- ===== src/Tests/HostTransfers.antt =====
-- The host's commands and transfers at concrete inputs.
use usb_fwu.Base.{
  ℕ, ◌+◌, ◌-◌, ◌<◌, ◌≤◌, ◌^◌, u32, none, ◌++◌, List, ◌≡◌, ◌↔◌, refl, arith, ltb, leb, ◌&&◌, ◌==◌,
  if◌then◌else◌, true, false, some, [], ◌∷◌, length, take,
}
use usb_fwu.Memory.{Mem, store_word}
use usb_fwu.Memory.Bytes.{store-byte, store_word-byte}
use usb_fwu.Image.{FwInfo}
use usb_fwu.Usb.{Usb}
use usb_fwu.Usb.Vendor.{
  rom_info, get_isfwu_ask, tn_usb_vendor_request_out, tn_usb_vendor_request_in,
}
use usb_fwu.Host.Command.{HostFw, cleared, make_rx_cmd, fw_rx_rdy, cmd_put_fw_info, cmd_get_fw_info}
use usb_fwu.Host.Command.Exchange.{Holds, put_fw_info_exchange, get_fw_info_exchange}
use usb_fwu.Host.Transfer.{
  HostData, get_fw, filled, prepare, tx_process_buffer, rxdata_ok, rxdata_badcrc, aborted,
  win_internal, timeout, Wait, quit, failed, abort, elapsed, rx_data, wait_dev_response,
}
use usb_fwu.Host.Transfer.Stream.{tx_blocks, tx_blocks-prepare}
use usb_fwu.Host.Transfer.Answer.{IsFrame, silent, wait_dev_response_lem}
use usb_fwu.Tests.Board.{ready_usb, board, table-IsCrcTable, loader, blank_info}

-- A device with a request in its SETUP packet at 0x40004000 and a frame at 0x40005000.
abbrev asked : ℕ → Mem → Usb (Unit {0}) (Unit {0})
asked request frame = record {
  dev = tt;
  udi = record {
    nbytes = 64;
    pdata = 0x40005000;
    pbuf = 0x40005000;
    ep0_setup_packet = 0x40004000;
    descriptors = 0x1000;
    configuration = 1;
  };
  loader = record loader {
    mem = λ a.
        if a == 0x40004001
        then request
        else if leb 0x40005000 a && ltb a 0x40005040
        then frame (a - 0x40005000)
        else 0;
  };
}

abbrev described : FwInfo
described = record { fw_product_id = 7; fw_version = 2; fw_length = 36; fw_crc = 0x12345678 }

-- The frame for `described` as the host makes it.
put_frame : Mem
put_frame = (cmd_put_fw_info described).buffer

put_fw_info_exchange_example :
    let s = asked 0x10 put_frame in
    tn_usb_vendor_request_out ready_usb board s
    ≡ some (true, record s { loader = record s.loader { info = described; g_state = 0x10 } })
unfolding cmd_put_fw_info put_frame
put_fw_info_exchange_example =
    put_fw_info_exchange ready_usb board described (asked 0x10 put_frame) (omega arith)
      table-IsCrcTable refl (λ k lt. at k lt)
  where
    at : (k : ℕ) → k < 64 → (asked 0x10 put_frame).loader.mem (0x40005000 + k) ≡ put_frame k
    at k lt = let back : 0x40005000 + k - 0x40005000 ≡ k = omega arith in ground arith

get_fw_info_exchange_example :
    (s1 : Usb (Unit {0}) (Unit {0})) × (tn_usb_vendor_request_in ready_usb board
        (asked 0x05 cleared)
      ≡ some (true, s1))
    × ((fw_buf : ℕ) (mbuf : Mem) (g : HostFw)
        → ((a : ℕ) → mbuf a < 256)
        → Holds s1.loader.mem s1.udi.pdata mbuf 64
        → cmd_get_fw_info fw_buf mbuf g ≡ (
          true,
          record {
            fw = rom_info (asked 0x05 cleared).loader.mem;
            is_valid = true;
            buf_ptr = fw_buf;
            len = 0;
          },
        ))
get_fw_info_exchange_example =
    get_fw_info_exchange ready_usb board (asked 0x05 cleared) table-IsCrcTable (λ a. ground arith)
      (omega arith) refl

-- A host with nothing in its memory, reading five bytes to an empty file.
abbrev host : HostData
host = record {
  mem = cleared;
  fw = record { fw = blank_info; is_valid = true; buf_ptr = 0; len = 5 };
  op_mode = get_fw;
  ctrl_rx_exch = cleared;
  event_rx_data = false;
  bytes_rxed = 0;
  h_rx_file = some [];
}

tx_blocks-prepare_example :
    let sent = tx_blocks 1 (prepare 0x100 (1 ∷ 2 ∷ 3 ∷ []) host).1 in
    (take 3 sent.0 ≡ 1 ∷ 2 ∷ 3 ∷ [])
    × (length sent.0 ≡ 4096)
    × (sent.1.fw.buf_ptr ≡ 0x1100)
    × (0x1100 ≤ 0x40100)
    × ((tx_process_buffer sent.1).0 ≡ filled 0xff 4096)
tx_blocks-prepare_example = tx_blocks-prepare 0x100 (1 ∷ 2 ∷ 3 ∷ []) host (omega arith)

-- The frame that the receiving pipe makes for itself.
answer : Mem
answer = make_rx_cmd fw_rx_rdy

answer-byte : (a : ℕ) → answer a < 256
unfolding answer make_rx_cmd
answer-byte a = store_word-byte _ 60 _ (store-byte cleared 0 9 (omega arith) (λ b. omega arith)) a

-- A wait of a second that begins just before the count of milliseconds wraps.
wait_dev_response_lem_example :
    let quiet : List (ℕ × Mem) = (4294967300, cleared) ∷ [] in
    let wait = λ (w : Wait).
      wait_dev_response 1000
        (u32 4294967290)
        (silent quiet ++ ((w, u32 4294968300, answer) ∷ [])) in
    (wait_dev_response 1000 (u32 4294967290) (silent quiet ++ []) ≡ none)
    × ((wait rx_data ≡ some (rxdata_ok, false)) ↔ IsFrame answer)
    × ((wait rx_data ≡ some (rxdata_badcrc, false)) ↔ (¬ IsFrame answer))
    × (wait abort ≡ some (aborted, true))
    × (wait quit ≡ some (win_internal, false))
    × (wait failed ≡ some (win_internal, false))
    × (4294967290 + 1000 < 4294968300
        → 4294968300 < 4294967290 + 2 ^ 32
        → wait elapsed ≡ some (timeout, false))
wait_dev_response_lem_example =
    wait_dev_response_lem 1000 4294967290 4294968300 ((4294967300, cleared) ∷ []) [] answer
      (omega arith) (omega arith, omega arith, tt) answer-byte

-- The answer of a device that runs the upgrader.
abbrev upgrader : Mem
upgrader = store_word cleared 0 get_isfwu_ask
