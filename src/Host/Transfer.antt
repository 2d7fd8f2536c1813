-- ===== src/Host/Transfer.antt =====
-- fwl_src/usbfwu: the preparation of a firmware in WriteFWDlg.cpp, the stream to the device in
-- TxStreamPipe.cpp, what comes from it in RxPipe.cpp, and the wait for its answers and their meaning
-- in fwu_utils.cpp and WriteFWDlg.cpp.
pub mod Stream
pub mod Answer
pub mod Accepted
pub mod Upload
pub mod Download
use usb_fwu.Base.{
  ℕ, zero, suc, ◌+◌, ◌-◌, ◌*◌, ◌/◌, ◌==◌, ltb, leb, sltb, sub32, u32, if◌then◌else◌, Bool, true,
  false, Option, none, some, List, [], ◌∷◌, ◌++◌, length, take,
}
use usb_fwu.Memory.{Mem, load_word, store_bytes}
use usb_fwu.Crc.{ctrl_buf_crc_off}
use usb_fwu.Image.{FwInfo, fw_start_offset, fw_rom_product_id_offset, fw_rom_version_offset}
use usb_fwu.Stream.{stream_buf_size, put_fw_info_ask, fw_wr_rdy, fw_wr_err}
use usb_fwu.Host.Crc.{host_calc_crc}
use usb_fwu.Host.Command.{HostFw, make_rx_cmd, fw_rx_rdy}

-- OPMODE_RXDEMO, OPMODE_GET_FW, OPMODE_PUT_FW and OPMODE_ABOUT
pub data OpMode : Type 0 where
  rxdemo : OpMode
  get_fw : OpMode
  put_fw : OpMode
  about : OpMode

-- The parts of `g_dt` that the transfers use, and the memory of the host in which `FWBuf` stands.
pub record HostData : Type 0 where
  pub mem : Mem
  pub fw : HostFw
  pub op_mode : OpMode
  pub ctrl_rx_exch : Mem
  pub event_rx_data : Bool
  pub bytes_rxed : ℕ
  pub h_rx_file : Option (List ℕ)

-- the size of the buffer `FWBuf`
abbrev pub max_fw_size : ℕ
max_fw_size = 256 * 1024

-- The branch of `OnBnClickedButtonStartWritefw` for an image that `LoadHexFile` has read into
-- `FWBuf`, which is meant for at most `max_fw_size` bytes: `m_FW`, and the stream aligned to whole
-- blocks. The end of the buffer is not in the memory here.
unfoldable pub prepare : ℕ → List ℕ → HostData → FwInfo × HostData
prepare fw_buf image g =
    let filelen = length image in
    let mem = store_bytes g.mem fw_buf image in
    (
      record {
        fw_product_id = load_word mem (fw_buf + fw_rom_product_id_offset);
        fw_version = load_word mem (fw_buf + fw_rom_version_offset);
        fw_length = filelen;
        fw_crc = host_calc_crc mem (fw_buf + fw_start_offset) (sub32 filelen fw_start_offset);
      },
      record g {
        mem = mem;
        fw = record g.fw {
          len = (filelen + (stream_buf_size - 1)) / stream_buf_size * stream_buf_size;
          buf_ptr = fw_buf;
        };
      },
    )

-- `memcpy` of `n` bytes from an address
unfoldable pub copied : Mem → ℕ → ℕ → List ℕ
copied m a zero = []
copied m a (suc n) = m a ∷ copied m (a + 1) n

-- `memset` of a block
unfoldable pub filled : ℕ → ℕ → List ℕ
filled ch zero = []
filled ch (suc n) = ch ∷ filled ch n

-- `CTxStreamPipe::ProcessBuffer` once the stream is enabled: the next block, or a dummy.
unfoldable pub tx_process_buffer : HostData → List ℕ × HostData
tx_process_buffer g =
    if sltb 0 g.fw.len
    then (
      copied g.mem g.fw.buf_ptr stream_buf_size,
      record g {
        fw = record g.fw {
          buf_ptr = g.fw.buf_ptr + stream_buf_size;
          len = sub32 g.fw.len stream_buf_size;
        };
      },
    )
    else (filled 0xff stream_buf_size, g)

-- `fwrite` to the file, if there is one
abbrev pub append_file : Option (List ℕ) → List ℕ → Option (List ℕ)
append_file none bytes = none
append_file (some f) bytes = some (f ++ bytes)

-- the part of `CRxPipe::ProcessData` for a firmware that is read
unfoldable pub rx_firmware : List ℕ → HostData → HostData
rx_firmware buffer g =
    if g.fw.is_valid
    then (let nbytes = if sltb g.fw.len stream_buf_size then g.fw.len else stream_buf_size in
        let left = sub32 g.fw.len nbytes in
        let g1 = record g {
          h_rx_file = append_file g.h_rx_file (take nbytes buffer);
          fw = record g.fw { buf_ptr = g.fw.buf_ptr + nbytes; len = left };
        } in
        if sltb 0 left then g1 else record g1 {
          fw = record g1.fw { is_valid = false };
          ctrl_rx_exch = make_rx_cmd fw_rx_rdy;
          event_rx_data = true;
        })
    else g

abbrev pub by_mode : OpMode → ℕ → List ℕ → Mem → HostData → HostData
by_mode put_fw transferred buffer bytes g = record g { ctrl_rx_exch = bytes; event_rx_data = true }
by_mode rxdemo transferred buffer bytes g = record g {
  bytes_rxed = u32 (g.bytes_rxed + transferred);
  h_rx_file = append_file g.h_rx_file (take stream_buf_size buffer);
}
by_mode get_fw transferred buffer bytes g = rx_firmware buffer g
by_mode about transferred buffer bytes g = g

-- `CRxPipe::ProcessData` on a buffer with its status, the number of bytes transferred and its bytes,
-- as a list and by their positions
unfoldable pub rx_process_data : Bool → ℕ → List ℕ → Mem → HostData → HostData
unfolding rx_firmware
rx_process_data success transferred buffer bytes g =
    if success
    then (if transferred == 0 then g else by_mode g.op_mode transferred buffer bytes g)
    else g

-- ERR_RXDATA_OK, ERR_UNKNOWN_ERR, ERR_RXDATA_BADCRC, ERR_TIMEOUT, ERR_USER_ABORT, ERR_WIN_INTERNAL
-- and ERR_WR_ERR
pub data Outcome : Type 0 where
  rxdata_ok : Outcome
  unknown_err : Outcome
  rxdata_badcrc : Outcome
  timeout : Outcome
  aborted : Outcome
  win_internal : Outcome
  wr_err : Outcome

-- What a round of the wait meets: the program ends, an event is set, or neither.
pub data Wait : Type 0 where
  quit : Wait
  rx_data : Wait
  abort : Wait
  elapsed : Wait
  failed : Wait

-- the time from `h` to `q` as the code computes it
abbrev pub ticks_between : ℕ → ℕ → ℕ
ticks_between h q = if ltb q h then u32 (q + (0xffffffff - h)) else q - h

-- `m_RxBuf` holds a frame with a right CRC
abbrev pub check_frame : Mem → Outcome
check_frame m_rx_buf =
    if host_calc_crc m_rx_buf 0 ctrl_buf_crc_off == load_word m_rx_buf ctrl_buf_crc_off
    then rxdata_ok
    else rxdata_badcrc

-- `WaitDevResponse` from the time `h`, over the rounds' events, each with the time that is read
-- behind it and with `CtrlRxExch` as it stands then; `none` is a wait that goes on. The second part
-- tells that the abort was passed on to the device.
unfoldable pub wait_dev_response : ℕ → ℕ → List (Wait × ℕ × Mem) → Option (Outcome × Bool)
wait_dev_response limit h [] = none
wait_dev_response limit h ((quit, q, exch) ∷ rounds) = some (win_internal, false)
wait_dev_response limit h ((rx_data, q, exch) ∷ rounds) = some (check_frame exch, false)
wait_dev_response limit h ((abort, q, exch) ∷ rounds) = some (aborted, true)
wait_dev_response limit h ((failed, q, exch) ∷ rounds) = some (win_internal, false)
wait_dev_response limit h ((elapsed, q, exch) ∷ rounds) =
    let rest = wait_dev_response limit h rounds in
    if leb limit (ticks_between h q) then some (timeout, false) else rest

-- The protocol of `OnBnClickedButtonStartWritefw` behind the command, given the two answers with
-- their first bytes: the result `m_rc`, and whether the stream was enabled.
unfoldable pub write_protocol : Outcome × ℕ → Outcome × ℕ → Outcome × Bool
write_protocol (rxdata_ok, cmd) (rxdata_ok, cmd2) =
    if cmd == put_fw_info_ask
    then (if cmd2 == fw_wr_rdy
        then (rxdata_ok, true)
        else if cmd2 == fw_wr_err
        then (wr_err, true)
        else (rxdata_ok, true))
    else (rxdata_ok, false)
write_protocol (rxdata_ok, cmd) (rc, cmd2) =
    if cmd == put_fw_info_ask then (rc, true) else (rxdata_ok, false)
write_protocol (rc, cmd) second = (rc, false)

-- IDI_ICON_OK, IDI_ICON_ERR and IDI_ICON_WARN, with the texts of `ErrProc`
pub data Message : Type 0 where
  done : Message
  internal_error : Message
  bad_crc : Message
  timeout_expired : Message
  canceled : Message
  windows_error : Message
  write_error : Message

-- `ErrProc` assigns ERR_WR_ERR in its last test, which so holds for any other result.
unfoldable pub err_proc : Outcome → Message
err_proc rxdata_ok = done
err_proc unknown_err = internal_error
err_proc rxdata_badcrc = bad_crc
err_proc timeout = timeout_expired
err_proc aborted = canceled
err_proc win_internal = windows_error
err_proc wr_err = write_error
