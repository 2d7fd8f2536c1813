-- ===== src/Host/Session.antt =====
-- fwl_src/usbfwu/ReadFWDlg.cpp and WriteFWDlg.cpp, the start buttons, with wait_for_flag of
-- fwu_utils.cpp: which requests a session sends to the device, and how it ends.
pub mod Done
use usb_fwu.Base.{
  ℕ, zero, suc, ◌+◌, ◌-◌, ◌==◌, leb, ltb, if◌then◌else◌, Bool, true, false, Option, none, some,
  List, [], ◌∷◌, ◌++◌,
}
use usb_fwu.Memory.{Mem}
use usb_fwu.Image.{FwInfo}
use usb_fwu.Stream.{get_fw}
use usb_fwu.Host.Command.{
  VendorRequest, HostFw, cmd_no_data, is_fwu_request, is_fwu, get_fw_info_request, cmd_get_fw_info,
  cmd_put_fw_info, fw_rx_rdy,
}
use usb_fwu.Host.Transfer.{
  Outcome, rxdata_ok, unknown_err, rxdata_badcrc, timeout, aborted, win_internal, wr_err,
  ticks_between, write_protocol,
}

abbrev pub switch_to_fwu : ℕ
switch_to_fwu = 0x18

-- What a round of `wait_for_flag` meets: the program ends, or the flag and the time.
pub data FlagRound : Type 0 where
  quit : FlagRound
  looked : Bool → ℕ → FlagRound

-- `wait_for_flag` from the time `h`: `true` is WAIT_OBJECT_0 and `false` WAIT_TIMEOUT; `none` is a
-- wait that goes on.
unfoldable pub wait_for_flag : ℕ → ℕ → List FlagRound → Option Bool
wait_for_flag limit h [] = none
wait_for_flag limit h (quit ∷ rounds) = some false
wait_for_flag limit h (looked true q ∷ rounds) = some true
wait_for_flag limit h (looked false q ∷ rounds) =
    let rest = wait_for_flag limit h rounds in
    if leb limit (ticks_between h q) then some false else rest

-- What both buttons begin with, given the answer to GET_ISFWU and what the wait for the switch came
-- to: the requests, and whether the session goes on.
unfoldable pub check_running : Mem → Bool → List VendorRequest × Bool
check_running id_buf switched =
    if is_fwu id_buf
    then (is_fwu_request ∷ [], true)
    else (is_fwu_request ∷ cmd_no_data switch_to_fwu ∷ [], switched)

-- The result of the wait behind GET_FW, with the first byte of the frame.
unfoldable pub read_answer : Outcome × ℕ → Outcome
read_answer (rxdata_ok, cmd) = if cmd == fw_rx_rdy then rxdata_ok else unknown_err
read_answer (rc, cmd) = rc

-- `OnBnClickedButtonStartReadfw` once the file is open: the requests, the result `m_rc` if the session
-- goes on, and `g_dt.FW`.
unfoldable pub read_session :
    ℕ → Mem → Bool → Mem → Outcome × ℕ → HostFw → List VendorRequest × Option Outcome × HostFw
read_session fw_buf id_buf switched mbuf answer g =
    let (requests, goes_on) = check_running id_buf switched in
    let (valid, fw) = cmd_get_fw_info fw_buf mbuf g in
    if goes_on
    then (if valid
        then (
          requests ++ (get_fw_info_request ∷ cmd_no_data get_fw ∷ []),
          some (read_answer answer),
          fw,
        )
        else (requests ++ (get_fw_info_request ∷ []), some rxdata_badcrc, fw))
    else (requests, none, g)

-- `OnBnClickedButtonStartWritefw` once `m_FW` is prepared: the requests, and the result `m_rc` if the
-- session goes on.
unfoldable pub write_session :
    FwInfo → Mem → Bool → Outcome × ℕ → Outcome × ℕ → List VendorRequest × Option Outcome
write_session m_fw id_buf switched first second =
    let (requests, goes_on) = check_running id_buf switched in
    if goes_on
    then (requests ++ (cmd_put_fw_info m_fw ∷ []), some (write_protocol first second).0)
    else (requests, none)
