-- ===== src/Host/Transfer/Answer.antt =====
-- The answers of the device, and what the host makes of them.
use usb_fwu.Base.{
  ℕ, ◌+◌, ◌%◌, ◌^◌, u32, Option, none, replicate, length-replicate, ◌≤◌, ◌<◌, ◌≡◌, ◌≢◌, ◌↔◌, ◌⊎◌,
  refl, ap, sym, ◌∙◌, arith, Bool, true, false, Bool-cases, inl, inr, ◌==◌, ==_iff, leb,
  if◌then◌else◌, some, List, [], ◌∷◌, ◌++◌,
}
use usb_fwu.Memory.{Mem, load_word}
use usb_fwu.Crc.{make_cmd, init_crc32_table}
use usb_fwu.Crc.Spec.{crc32}
use usb_fwu.Crc.Refine.{calc_crc_lem}
use usb_fwu.Crc.Table.{IsCrcTable, init_crc32_table-IsCrcTable}
use usb_fwu.Crc.Command.{make_cmd_lem}
use usb_fwu.Host.Crc.{host_calc_crc}
use usb_fwu.Host.Crc.Agree.{host_calc_crc-eq}
use usb_fwu.Host.Command.Exchange.{Holds, frame_crc, frame_word}
use usb_fwu.Host.Transfer.{
  Outcome, rxdata_ok, unknown_err, rxdata_badcrc, timeout, aborted, win_internal, wr_err, Wait,
  quit, rx_data, abort, elapsed, failed, ticks_between, check_frame, wait_dev_response,
  write_protocol, done, err_proc,
}

-- With tables of CRC-32 and bytes in memory: a frame that `make_cmd` of the device has made, brought
-- to the host unchanged, passes the host's check, and its first byte is the low byte of the command.
pub make_cmd_answer :
    (table : List ℕ) (cmd buf : ℕ) (m exch : Mem)
    → IsCrcTable table
    → ((a : ℕ) → m a < 256)
    → ((a : ℕ) → exch a < 256)
    → Holds (make_cmd table cmd buf m) buf exch 64
    → (check_frame exch ≡ rxdata_ok) × (exch 0 ≡ cmd % 256)
make_cmd_answer table cmd buf m exch t bytes exch_bytes sent =
    let made = make_cmd table cmd buf m in
    let (head, crc, other) = make_cmd_lem table cmd buf m t bytes in
    let right : (host_calc_crc exch 0 60 == load_word exch 60) ≡ true = (==_iff _ _).1 (
      host_calc_crc-eq table exch 0 60 t exch_bytes
      ∙ sym (frame_crc table made buf exch (λ k lt. sent k (omega arith)))
      ∙ crc
      ∙ frame_word made buf exch 60 (omega arith) sent) in
    (rw right, sym (sent 0 (omega arith)) ∙ ap made (omega arith) ∙ head)

-- A frame: the CRC-32 of its first sixty bytes stands behind them.
abbrev pub IsFrame : Mem → Type 0
IsFrame exch = crc32 exch 0 60 ≡ load_word exch 60

host_crc32 : (exch : Mem) → ((a : ℕ) → exch a < 256) → host_calc_crc exch 0 60 ≡ crc32 exch 0 60
host_crc32 exch bytes =
    let table = init_crc32_table (replicate 256 0) in
    let t : IsCrcTable table =
      init_crc32_table-IsCrcTable (replicate 256 0) (length-replicate {A = ℕ} 256 0) in
    host_calc_crc-eq table exch 0 60 t bytes ∙ calc_crc_lem table exch 0 60 t bytes

pub check_frame_lem :
    (exch : Mem)
    → ((a : ℕ) → exch a < 256)
    → ((check_frame exch ≡ rxdata_ok) ↔ IsFrame exch)
      × ((check_frame exch ≡ rxdata_badcrc) ↔ (¬ IsFrame exch))
check_frame_lem exch bytes =
    let crc = host_crc32 exch bytes in
    elim (Bool-cases (host_calc_crc exch 0 60 == load_word exch 60)) [
      | inl same ↦
          let right : IsFrame exch = sym crc ∙ (==_iff _ _).0 same in
          rw same ((λ e. right, λ h. refl), (λ e. cc, λ h. absurd (h right)))
      | inr differs ↦
          let wrong : ¬ IsFrame exch = λ e. let same = (==_iff _ _).1 (crc ∙ e) in cc in
          rw differs ((λ e. cc, λ h. absurd (wrong h)), (λ e. wrong, λ h. refl))
    ]

-- Rounds in which nothing comes, at times in milliseconds since the host was started, which the code
-- reads as 32-bit counts.
abbrev pub silent : List (ℕ × Mem) → List (Wait × ℕ × Mem)
silent [] = []
silent ((t, exch) ∷ rounds) = (elapsed, u32 t, exch) ∷ silent rounds

-- The rounds come before `limit` milliseconds have passed since `t0`.
abbrev pub AreEarly : ℕ → ℕ → List (ℕ × Mem) → Type 0
AreEarly limit t0 [] = Unit {0}
AreEarly limit t0 ((t, exch) ∷ rounds) = (t0 ≤ t) × (t < t0 + limit) × AreEarly limit t0 rounds

pub ticks_early :
    (limit t0 t : ℕ)
    → limit < 2 ^ 32
    → t0 ≤ t
    → t < t0 + limit
    → ticks_between (u32 t0) (u32 t) < limit
ticks_early limit t0 t small from early = ground arith

-- Where the count wraps, the code counts one millisecond less.
pub ticks_late :
    (limit t0 t : ℕ) → t0 + limit < t → t < t0 + 2 ^ 32 → limit ≤ ticks_between (u32 t0) (u32 t)
ticks_late limit t0 t late near = ground arith

wait_silent :
    (limit t0 : ℕ) (quiet : List (ℕ × Mem)) (rest : List (Wait × ℕ × Mem))
    → limit < 2 ^ 32
    → AreEarly limit t0 quiet
    → wait_dev_response limit (u32 t0) (silent quiet ++ rest)
      ≡ wait_dev_response limit (u32 t0) rest
unfolding wait_dev_response
wait_silent limit t0 [] rest small early = refl
wait_silent limit t0 ((t, exch) ∷ quiet) rest small (from, before, more) =
    let ticks = ticks_early limit t0 t small from before in
    let goes_on : leb limit (ticks_between (u32 t0) (u32 t)) ≡ false = ground arith in
    rw goes_on (wait_silent limit t0 quiet rest small more)

wait_late :
    (limit t0 t : ℕ) (exch : Mem) (rest : List (Wait × ℕ × Mem))
    → t0 + limit < t
    → t < t0 + 2 ^ 32
    → wait_dev_response limit (u32 t0) ((elapsed, u32 t, exch) ∷ rest) ≡ some (timeout, false)
unfolding wait_dev_response
wait_late limit t0 t exch rest late near =
    let ticks = ticks_late limit t0 t late near in
    let over : leb limit (ticks_between (u32 t0) (u32 t)) ≡ true = ground arith in rw over

-- A wait that begins at `t0`, with any number of rounds in which nothing comes before its limit of
-- less than 2^32 milliseconds has passed, goes on through them. Then: a frame whose CRC-32 is right
-- ends it with ERR_RXDATA_OK, and another with ERR_RXDATA_BADCRC; an abort ends it and is passed on
-- to the device; the end of the program or a failure of the wait ends it with ERR_WIN_INTERNAL; and
-- a round in which nothing comes ends it with a timeout, if more than the limit and less than 2^32
-- milliseconds have passed.
pub wait_dev_response_lem :
    (limit t0 t : ℕ) (quiet : List (ℕ × Mem)) (rest : List (Wait × ℕ × Mem)) (exch : Mem)
    → limit < 2 ^ 32
    → AreEarly limit t0 quiet
    → ((a : ℕ) → exch a < 256)
    → let wait = λ (w : Wait).
      wait_dev_response limit (u32 t0) (silent quiet ++ ((w, u32 t, exch) ∷ rest)) in
      (wait_dev_response limit (u32 t0) (silent quiet ++ []) ≡ none)
      × ((wait rx_data ≡ some (rxdata_ok, false)) ↔ IsFrame exch)
      × ((wait rx_data ≡ some (rxdata_badcrc, false)) ↔ (¬ IsFrame exch))
      × (wait abort ≡ some (aborted, true))
      × (wait quit ≡ some (win_internal, false))
      × (wait failed ≡ some (win_internal, false))
      × (t0 + limit < t → t < t0 + 2 ^ 32 → wait elapsed ≡ some (timeout, false))
unfolding wait_dev_response
wait_dev_response_lem limit t0 t quiet rest exch small early bytes =
    let on = λ (w : Wait). wait_silent limit t0 quiet ((w, u32 t, exch) ∷ rest) small early in
    let (right, wrong) = check_frame_lem exch bytes in
    (
      wait_silent limit t0 quiet [] small early,
      (
        λ e. right.0 (result (check_frame exch) rxdata_ok (sym (on rx_data) ∙ e)),
        λ h. on rx_data ∙ ap (λ (o : Outcome). some (o, false)) (right.1 h),
      ),
      (
        λ e. wrong.0 (result (check_frame exch) rxdata_badcrc (sym (on rx_data) ∙ e)),
        λ h. on rx_data ∙ ap (λ (o : Outcome). some (o, false)) (wrong.1 h),
      ),
      on abort,
      on quit,
      on failed,
      λ late near. on elapsed ∙ wait_late limit t0 t exch rest late near,
    )
  where
    result :
        (o p : Outcome)
        → ◌≡◌ {A = Option (Outcome × Bool)} (some (o, false)) (some (p, false))
        → o ≡ p
    result o p e = cc

-- How a round ends the wait: something comes, or the time is up.
abbrev pub Ends : ℕ → ℕ → Wait → ℕ → Type 0
Ends limit t0 elapsed t = (t0 + limit < t) × (t < t0 + 2 ^ 32)
Ends limit t0 w t = Unit {0}

-- The wait ends with ERR_RXDATA_OK exactly if it is a right frame that ends it.
pub wait_dev_response-ok :
    (limit t0 t : ℕ) (quiet : List (ℕ × Mem)) (rest : List (Wait × ℕ × Mem)) (w : Wait) (exch : Mem)
    → limit < 2 ^ 32
    → AreEarly limit t0 quiet
    → ((a : ℕ) → exch a < 256)
    → Ends limit t0 w t
    → (rc : Outcome) × (passed : Bool) × (wait_dev_response limit
          (u32 t0)
          (silent quiet ++ ((w, u32 t, exch) ∷ rest))
        ≡ some (rc, passed))
      × ((rc ≡ rxdata_ok) ↔ ((w ≡ rx_data) × IsFrame exch))
unfolding wait_dev_response
wait_dev_response-ok limit t0 t quiet rest w exch small early bytes ends =
    let on = wait_silent limit t0 quiet ((w, u32 t, exch) ∷ rest) small early in
    let (rc, passed, now, ok) = last w ends in (rc, passed, on ∙ now, ok)
  where
    last :
        (v : Wait)
        → Ends limit t0 v t
        → (rc : Outcome) × (passed : Bool) × (wait_dev_response limit
              (u32 t0)
              ((v, u32 t, exch) ∷ rest)
            ≡ some (rc, passed))
          × ((rc ≡ rxdata_ok) ↔ ((v ≡ rx_data) × IsFrame exch))
    last quit e = (win_internal, false, refl, ((λ p. cc), (λ h. cc)))
    last rx_data e =
        let right = (check_frame_lem exch bytes).0 in
        (check_frame exch, false, refl, ((λ p. (refl, right.0 p)), (λ h. right.1 h.1)))
    last abort e = (aborted, true, refl, ((λ p. cc), (λ h. cc)))
    last failed e = (win_internal, false, refl, ((λ p. cc), (λ h. cc)))
    last elapsed e =
        (timeout, false, wait_late limit t0 t exch rest e.0 e.1, ((λ p. cc), (λ h. cc)))

other_answer :
    (rc : Outcome) (cmd1 cmd2 : ℕ)
    → err_proc rc ≢ done
    → rc ≢ rxdata_ok
    → let out : Outcome × Bool = if cmd1 == 0x73 then (rc, true) else (rxdata_ok, false) in
      (err_proc out.0 ≡ done)
      ↔ ((rxdata_ok ≡ rxdata_ok) × ((cmd1 ≢ 0x73) ⊎ ((rc ≡ rxdata_ok) × (cmd2 ≢ 0x75))))
other_answer rc cmd1 cmd2 not_done not_ok = elim (Bool-cases (cmd1 == 0x73)) [
  | inl asked ↦ rw asked (
    λ e. absurd (not_done e),
    λ h. elim h.1 [ inl n ↦ absurd (n ((==_iff cmd1 0x73).0 asked)) | inr k ↦ absurd (not_ok k.0) ],
  )
  | inr other ↦ rw other (λ e. (refl, inl (ground arith)), λ h. unfold err_proc in refl)
]

-- The host reports "Done." exactly if the device answered its command with a right frame, and then
-- either that frame was not PUT_FW_INFO_ASK, or the device answered the stream with a right frame
-- that was not FW_WR_ERR.
pub write_protocol_done :
    (rc1 rc2 : Outcome) (cmd1 cmd2 : ℕ)
    → (err_proc (write_protocol (rc1, cmd1) (rc2, cmd2)).0 ≡ done)
      ↔ ((rc1 ≡ rxdata_ok) × ((cmd1 ≢ 0x73) ⊎ ((rc2 ≡ rxdata_ok) × (cmd2 ≢ 0x75))))
unfolding write_protocol err_proc
write_protocol_done rxdata_ok rxdata_ok cmd1 cmd2 = elim (Bool-cases (cmd1 == 0x73)) [
  | inr other ↦ rw other (λ e. (refl, inl (ground arith)), λ h. refl)
  | inl asked ↦ rw asked (elim (Bool-cases (cmd2 == 0x75)) [
    | inl failing ↦
        let not_ready : (cmd2 == 0x78) ≡ false = ground arith in
        rw (not_ready, failing)
          (
            λ e. cc,
            λ h. elim h.1 [
              | inl n ↦ absurd (n ((==_iff cmd1 0x73).0 asked))
              | inr k ↦ absurd (k.1 ((==_iff cmd2 0x75).0 failing))
            ],
          )
    | inr going ↦ rw going (elim (Bool-cases (cmd2 == 0x78)) [
      | inl ready ↦ rw ready (λ e. (refl, inr (refl, ground arith)), λ h. refl)
      | inr unknown ↦ rw unknown (λ e. (refl, inr (refl, ground arith)), λ h. refl)
    ])
  ])
]
write_protocol_done rxdata_ok unknown_err cmd1 cmd2 =
    other_answer unknown_err cmd1 cmd2 (λ e. cc) (λ e. cc)
write_protocol_done rxdata_ok rxdata_badcrc cmd1 cmd2 =
    other_answer rxdata_badcrc cmd1 cmd2 (λ e. cc) (λ e. cc)
write_protocol_done rxdata_ok timeout cmd1 cmd2 = other_answer timeout cmd1 cmd2 (λ e. cc) (λ e. cc)
write_protocol_done rxdata_ok aborted cmd1 cmd2 = other_answer aborted cmd1 cmd2 (λ e. cc) (λ e. cc)
write_protocol_done rxdata_ok win_internal cmd1 cmd2 =
    other_answer win_internal cmd1 cmd2 (λ e. cc) (λ e. cc)
write_protocol_done rxdata_ok wr_err cmd1 cmd2 = other_answer wr_err cmd1 cmd2 (λ e. cc) (λ e. cc)
write_protocol_done unknown_err rc2 cmd1 cmd2 = (λ e. cc, λ e. cc)
write_protocol_done rxdata_badcrc rc2 cmd1 cmd2 = (λ e. cc, λ e. cc)
write_protocol_done timeout rc2 cmd1 cmd2 = (λ e. cc, λ e. cc)
write_protocol_done aborted rc2 cmd1 cmd2 = (λ e. cc, λ e. cc)
write_protocol_done win_internal rc2 cmd1 cmd2 = (λ e. cc, λ e. cc)
write_protocol_done wr_err rc2 cmd1 cmd2 = (λ e. cc, λ e. cc)
