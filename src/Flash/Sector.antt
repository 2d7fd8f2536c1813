-- ===== src/Flash/Sector.antt =====
-- get_sector_number against the map of the flash.
use usb_fwu.Base.{
  ℕ, zero, suc, ◌+◌, ◌-◌, ◌*◌, ◌/◌, ◌≤◌, ◌<◌, ◌≡◌, ltb, leb, if◌then◌else◌, Option, none, some,
  arith, ltb→lt, lt→ltb, Bool-cases, inl, inr, true, ap, ◌∙◌, ◌↔◌,
}
use native.Mathlib.Nat.{div-eq_of_lt, div-eq-sub-div}
use usb_fwu.Flash.{found, on, scan_sectors, get_sector_number}
use usb_fwu.Flash.Rom.{sector_base}

-- A run over `i` sectors of one size finds the one that holds the address, or comes to its end.
scan_sectors_lem :
    (i size a start n : ℕ)
    → 0 < size
    → start ≤ a
    → scan_sectors i size a start n ≡ (
        if ltb a (start + i * size)
        then found (n + (a - start) / size)
        else on (start + i * size) (n + i))
unfolding scan_sectors
scan_sectors_lem zero size a start n pos h = ground arith
scan_sectors_lem (suc i) size a start n pos h = elim (Bool-cases (ltb a (start + size))) [
  | inl here ↦
      let first : (a - start) / size ≡ 0 =
        div-eq_of_lt (omega (arith, ltb→lt a (start + size) here)) in
      let within : ltb a (start + suc i * size) ≡ true =
        lt→ltb a (start + suc i * size) (omega (arith, ltb→lt a (start + size) here)) in
      let from : leb start a ≡ true = ground arith in
      rw (from, here, within, first) (ap found (omega arith))
  | inr there ↦
      let past : start + size ≤ a = ground arith in
      let index : (a - start) / size ≡ (a - (start + size)) / size + 1 =
        div-eq-sub-div {m = size} {n = a - start} pos (omega arith)
        ∙ ap (λ (t : ℕ). t / size + 1) (omega arith) in
      let rest = scan_sectors_lem i size a (start + size) (n + 1) pos past in
      let end : start + suc i * size ≡ start + size + i * size = omega arith in
      let from : leb start a ≡ true = ground arith in
      rw (from, there, rest, end, index) (ground arith)
]

-- The sector of an address in closed form.
abbrev pub sector_of : ℕ → Option ℕ
sector_of a =
    if ltb a 32768
    then some (a / 4096)
    else if ltb a 491520
    then some (8 + (a - 32768) / 32768)
    else if ltb a 512000
    then some (22 + (a - 491520) / 4096)
    else none

-- The search through the table of geometries finds the sector in closed form, at every address.
pub get_sector_number_lem : (a : ℕ) → get_sector_number a ≡ sector_of a
unfolding get_sector_number
get_sector_number_lem a = ground (
  arith,
  scan_sectors_lem 8 4096 a 0 0 (omega arith) (omega arith),
  scan_sectors_lem 14 32768 a 32768 8 (omega arith),
  scan_sectors_lem 5 4096 a 491520 22 (omega arith),
)

-- A number is answered exactly for the addresses between the beginning of that sector and the
-- beginning of the next.
pub get_sector_number-base :
    (a k : ℕ)
    → k < 27
    → (get_sector_number a ≡ some k) ↔ ((sector_base k ≤ a) × (a < sector_base (k + 1)))
get_sector_number-base a k h = ground (arith, get_sector_number_lem a)
