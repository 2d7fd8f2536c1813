-- ===== src/Host/Session/Done.antt =====
-- When a session of the host is reported as done.
use usb_fwu.Base.{
  ℕ, ◌+◌, ◌^◌, ◌≤◌, ◌<◌, u32, List, [], ◌∷◌, false, ◌≡◌, ◌⊎◌, Bool, true, Option, none, some,
}
use usb_fwu.Memory.{Mem}
use usb_fwu.Host.Command.{is_fwu}
use usb_fwu.Host.Transfer.{Outcome, err_proc, done}
use usb_fwu.Host.Session.{FlagRound, looked}

-- A session shows "Done."; one that does not go on shows no result.
abbrev pub ShowsDone : Option Outcome → Type 0
ShowsDone none = ⊥
ShowsDone (some rc) = err_proc rc ≡ done

-- The device runs the upgrader, or has switched to it in time.
abbrev pub IsReached : Mem → Bool → Type 0
IsReached id_buf switched = (is_fwu id_buf ≡ true) ⊎ (switched ≡ true)

-- Rounds of the wait for the switch in which the flag is not set, at times since the host was started.
abbrev pub unset : List ℕ → List FlagRound
unset [] = []
unset (t ∷ times) = looked false (u32 t) ∷ unset times

abbrev pub AreBefore : ℕ → ℕ → List ℕ → Type 0
AreBefore limit t0 [] = Unit {0}
AreBefore limit t0 (t ∷ times) = (t0 ≤ t) × (t < t0 + limit) × AreBefore limit t0 times

-- The flag is seen, or the time is up.
abbrev pub Decides : ℕ → ℕ → Bool → ℕ → Type 0
Decides limit t0 true t = Unit {0}
Decides limit t0 false t = (t0 + limit < t) × (t < t0 + 2 ^ 32)
