-- ===== src/Flash/Write.antt =====
-- What flash_write and flash_erase_sectors do, over any ROM that behaves as documented.
pub mod Works
use usb_fwu.Base.{
  ℕ, zero, suc, ◌+◌, ◌-◌, ◌<◌, ◌≡◌, ◌↔◌, ◌≢◌, ◌⊎◌, inl, inr, refl, ap, ◌∙◌, ◌==◌, u32, u32_mod,
  Bool-cases, Option-cases, Option, none, some, arith,
}
use usb_fwu.Memory.{Mem, move}
use usb_fwu.Memory.Copy.{filled}
use usb_fwu.Flash.{
  get_sector_number, err_no_err, err_wrong_param, write_status, iap_until_ready, flash_write,
  erase_range, flash_erase_sectors,
}
use usb_fwu.Flash.Rom.{
  Iap, iap_cmd_prepare_sectors, iap_cmd_copy_ram_to_flash, iap_cmd_erase_sectors, iap_cmd_success,
  iap_busy, sector_base,
}

module _ (iap : Iap) where
  open iap use {
    Chip, call, pending, max_pending, pending-le, settles, fails, prepares, copies, erases,
  }

  -- The loop ends, with the status of a call that is not BUSY; until then no memory has changed, and
  -- what BUSY keeps true of the chip holds.
  pub iap_until_ready_keeps :
      (P : Chip → Type 0) (fuel cmd p0 p1 p2 p3 : ℕ)
      → ((c : Chip) (m : Mem)
          → P c
          → (call cmd p0 p1 p2 p3 c m).0 ≡ iap_busy
          → P (call cmd p0 p1 p2 p3 c m).1)
      → (c : Chip) (m : Mem) → P c
      → pending c < fuel
      → (r : Chip) × (iap_until_ready iap fuel cmd p0 p1 p2 p3 c m
          ≡ some (call cmd p0 p1 p2 p3 r m))
        × ((call cmd p0 p1 p2 p3 r m).0 ≢ iap_busy)
        × P r
  unfolding iap_until_ready
  iap_until_ready_keeps P zero cmd p0 p1 p2 p3 keep c m p h = absurd (omega arith)
  iap_until_ready_keeps P (suc fuel) cmd p0 p1 p2 p3 keep c m p h =
      elim (Bool-cases ((call cmd p0 p1 p2 p3 c m).0 == iap_busy)) [
        | inr ready ↦ (c, rw ready, (λ e. ground arith), p)
        | inl busy ↦
            let same : (call cmd p0 p1 p2 p3 c m).2 ≡ m =
              fails cmd p0 p1 p2 p3 c m (ground arith) in
            let fewer : pending (call cmd p0 p1 p2 p3 c m).1 < pending c =
              settles cmd p0 p1 p2 p3 c m (ground arith) in
            let rest =
              iap_until_ready_keeps P fuel cmd p0 p1 p2 p3 keep (call cmd p0 p1 p2 p3 c m).1
                (call cmd p0 p1 p2 p3 c m).2 (keep c m p (ground arith)) (omega arith) in
            rw (busy, same) (rw same at rest)
      ]

  iap_until_ready_lem :
      (fuel cmd p0 p1 p2 p3 : ℕ) (c : Chip) (m : Mem)
      → pending c < fuel
      → (r : Chip) × (iap_until_ready iap fuel cmd p0 p1 p2 p3 c m
          ≡ some (call cmd p0 p1 p2 p3 r m))
        × ((call cmd p0 p1 p2 p3 r m).0 ≢ iap_busy)
  iap_until_ready_lem fuel cmd p0 p1 p2 p3 c m h =
      let (r, runs, over, _) =
        iap_until_ready_keeps (λ x. Unit {0}) fuel cmd p0 p1 p2 p3 (λ x y z w. tt) c m tt h in
      (r, runs, over)

  -- `flash_write` comes to an end, and answers ERR_NO_ERR only with all `len` bytes copied from RAM to
  -- flash and nothing else changed. On an error no memory has changed; ERR_WRONG_PARAM is the answer
  -- exactly for an address outside the flash.
  pub flash_write_lem :
      (fuel flash_addr ram_addr prc_clk len : ℕ) (c : Chip) (m : Mem)
      → max_pending < fuel
      → (rc : ℕ) × (c' : Chip) × (m' : Mem) × (flash_write iap fuel flash_addr ram_addr prc_clk len
            c m
          ≡ some (rc, c', m'))
        × (rc ≡ err_no_err → m' ≡ move len flash_addr ram_addr m)
        × (rc ≢ err_no_err → m' ≡ m)
        × ((rc ≡ err_wrong_param) ↔ (get_sector_number flash_addr ≡ none))
  unfolding flash_write
  flash_write_lem fuel flash_addr ram_addr prc_clk len c m h =
      elim (Option-cases (get_sector_number flash_addr)) [
        | inl e ↦ (
          1,
          c,
          m,
          rw (e, flash_write),
          λ p. absurd (omega arith),
          λ _. refl,
          ((λ _. e), (λ _. refl)),
        )
        | inr (n, e) ↦ elim (Bool-cases ((prepare n).0 == iap_cmd_success)) [
          | inr not_ready ↦ (
            2,
            (prepare n).1,
            (prepare n).2,
            rw (e, flash_write, not_ready),
            λ p. absurd (omega arith),
            λ _. prepares n n 0 0 c m,
            ((λ p. absurd (omega arith)), (λ p. cc)),
          )
          | inl ready ↦
              let (r, runs, over) =
                iap_until_ready_lem fuel iap_cmd_copy_ram_to_flash flash_addr ram_addr len prc_clk
                  (prepare n).1 (prepare n).2 (omega (arith, pending-le (prepare n).1)) in
              let last =
                call iap_cmd_copy_ram_to_flash flash_addr ram_addr len prc_clk r (prepare n).2 in
              let same : (prepare n).2 ≡ m = prepares n n 0 0 c m in
              let copied = copies flash_addr ram_addr len prc_clk r (prepare n).2 in
              let failed =
                fails iap_cmd_copy_ram_to_flash flash_addr ram_addr len prc_clk r (prepare n).2 in
              (
                write_status iap last.0,
                last.1,
                last.2,
                rw (e, flash_write, ready, runs),
                (λ p. copied (ground arith) ∙ ap (move len flash_addr ram_addr) same),
                (λ p. failed (λ q. p (ground arith)) ∙ same),
                ((λ p. ground arith), (λ p. cc)),
              )
        ]
      ]
    where
      prepare : ℕ → ℕ × Chip × Mem
      prepare n = call iap_cmd_prepare_sectors n n 0 0 c m

  -- What an erase of the sectors `s` to `e` may leave.
  abbrev pub Erased : Option ℕ → Option ℕ → Mem → Mem → Type 0
  Erased os oe m m' =
      (m' ≡ m)
      ⊎ ((s : ℕ) × (e : ℕ) × (os ≡ some s)
          × (oe ≡ some e)
          × (m' ≡ filled (sector_base s) 255 (sector_base (e + 1) - sector_base s) m))

  erase_range_lem :
      (fuel : ℕ) (os oe : Option ℕ) (prc_clk : ℕ) (c : Chip) (m : Mem)
      → max_pending < fuel
      → (c' : Chip) × (m' : Mem) × (erase_range iap fuel os oe prc_clk c m
          ≡ some (err_no_err, c', m'))
        × Erased os oe m m'
  unfolding erase_range
  erase_range_lem fuel none oe prc_clk c m h = (c, m, refl, inl refl)
  erase_range_lem fuel (some s) none prc_clk c m h = (c, m, refl, inl refl)
  erase_range_lem fuel (some s) (some e) prc_clk c m h =
      elim (Bool-cases (ready.0 == iap_cmd_success)) [
        | inr no_success ↦ (ready.1, ready.2, rw no_success, inl same)
        | inl success ↦
            let (r, runs, over) =
              iap_until_ready_lem fuel iap_cmd_erase_sectors s e prc_clk 0 ready.1 ready.2
                (omega (arith, pending-le ready.1)) in
            let last = call iap_cmd_erase_sectors s e prc_clk 0 r ready.2 in
            let failed = fails iap_cmd_erase_sectors s e prc_clk 0 r ready.2 in
            let blank = filled (sector_base s) 255 (sector_base (e + 1) - sector_base s) in
            (
              last.1,
              last.2,
              rw (success, runs),
              elim (Bool-cases (last.0 == iap_cmd_success)) [
                | inl done ↦ inr (
                  s,
                  e,
                  refl,
                  refl,
                  erases s e prc_clk 0 r ready.2 (ground arith) ∙ ap blank same,
                )
                | inr undone ↦ inl (failed (λ q. ground arith) ∙ same)
              ],
            )
      ]
    where
      ready : ℕ × Chip × Mem
      ready = call iap_cmd_prepare_sectors s e 0 0 c m

      same : ready.2 ≡ m
      same = prepares s e 0 0 c m

  -- `flash_erase_sectors` comes to an end and answers ERR_NO_ERR whatever happened: the memory is
  -- either as it was, or erased from the beginning of the first sector of the range to the end of the
  -- last and nowhere else; the second needs both ends of the range to lie in the flash.
  pub flash_erase_sectors_lem :
      (fuel start_addr len prc_clk : ℕ) (c : Chip) (m : Mem)
      → max_pending < fuel
      → (c' : Chip) × (m' : Mem) × (flash_erase_sectors iap fuel start_addr len prc_clk c m
          ≡ some (err_no_err, c', m'))
        × Erased
            (get_sector_number start_addr)
            (get_sector_number (u32 (start_addr + len + u32_mod - 1)))
            m
            m'
  unfolding flash_erase_sectors
  flash_erase_sectors_lem fuel start_addr len prc_clk c m h =
      erase_range_lem fuel (get_sector_number start_addr)
        (get_sector_number (u32 (start_addr + len + u32_mod - 1))) prc_clk c m h
