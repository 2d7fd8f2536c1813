-- ===== src/Flash.antt =====
-- LPC214X_USB_FWU/usb_fwu/fwu_utils.c: the sectors of the flash (get_sector_number), flash_write and
-- flash_erase_sectors. The ROM routine that iap_command enters is a parameter (Flash.Rom); saving and
-- restoring the interrupt state round the calls is left out, each function being one step of the main
-- loop.
pub mod Rom
pub mod Sector
pub mod Write
use usb_fwu.Base.{
  ℕ, zero, suc, ◌+◌, ◌-◌, ◌==◌, ltb, leb, if◌then◌else◌, ◌&&◌, u32, u32_mod, Option, none, some,
  List, [], ◌∷◌,
}
use mathlib.Core.Option
use usb_fwu.Memory.{Mem}
use usb_fwu.Flash.Rom.{
  Iap, iap_cmd_prepare_sectors, iap_cmd_copy_ram_to_flash, iap_cmd_erase_sectors, iap_cmd_success,
  iap_busy,
}

-- `SECTORGEOMETRY`
pub record SectorGeometry : Type 0 where
  pub size : ℕ
  pub qty : ℕ

abbrev sectors : ℕ → ℕ → SectorGeometry
sectors size qty = record { size = size; qty = qty }

abbrev pub lpc2148_flash_sectors : List SectorGeometry
lpc2148_flash_sectors = sectors 4096 8 ∷ sectors 32768 14 ∷ sectors 4096 5 ∷ sectors 0 0 ∷ []

-- What a run over the sectors of one size comes to: the sector, or the next start and number.
pub data Scan : Type 0 where
  found : ℕ → Scan
  on : ℕ → ℕ → Scan

-- `for(i = 0; i < psg->qty; i++)`, with the rounds left
unfoldable pub scan_sectors : ℕ → ℕ → ℕ → ℕ → ℕ → Scan
scan_sectors zero size in_addr start_addr n_sector = on start_addr n_sector
scan_sectors (suc i) size in_addr start_addr n_sector =
    let end_addr = start_addr + size in
    let rest = scan_sectors i size in_addr end_addr (n_sector + 1) in
    if leb start_addr in_addr && ltb in_addr end_addr then found n_sector else rest

-- `while(psg->qty != 0)`; the last row has `qty` 0, so the end of the list is not reached
scan_geometry : List SectorGeometry → ℕ → ℕ → ℕ → Option ℕ
scan_geometry [] in_addr start_addr n_sector = none
scan_geometry (g ∷ gs) in_addr start_addr n_sector =
    if g.qty == 0 then none else elim (scan_sectors g.qty g.size in_addr start_addr n_sector) [
      | found n ↦ some n
      | on start n ↦ scan_geometry gs in_addr start n
    ]

-- `none` is the answer -1.
unfoldable pub get_sector_number : ℕ → Option ℕ
unfolding scan_geometry
get_sector_number in_addr = scan_geometry lpc2148_flash_sectors in_addr 0 0

abbrev pub err_no_err : ℕ
err_no_err = 0

abbrev pub err_wrong_param : ℕ
err_wrong_param = 1

abbrev pub err_wstate : ℕ
err_wstate = 2

module _ (iap : Iap) where
  open iap use {Chip, call}

  -- `for(;;) { rc = iap_command(…); if(rc != IAP_BUSY) break; }` on fuel
  pub iap_until_ready : ℕ → ℕ → ℕ → ℕ → ℕ → ℕ → Chip → Mem → Option (ℕ × Chip × Mem)
  iap_until_ready zero cmd p0 p1 p2 p3 c m = none
  iap_until_ready (suc fuel) cmd p0 p1 p2 p3 c m =
      let (rc, c', m') = call cmd p0 p1 p2 p3 c m in
      let again = iap_until_ready fuel cmd p0 p1 p2 p3 c' m' in
      if rc == iap_busy then again else some (rc, c', m')

  -- `rc = (rc == IAP_CMD_SUCCESS) ? ERR_NO_ERR : ERR_WSTATE;`
  abbrev write_status : ℕ → ℕ
  write_status rc = if rc == iap_cmd_success then err_no_err else err_wstate

  unfoldable pub flash_write : ℕ → ℕ → ℕ → ℕ → ℕ → Chip → Mem → Option (ℕ × Chip × Mem)
  unfolding iap_until_ready
  flash_write fuel flash_addr ram_addr prc_clk len c m = elim (get_sector_number flash_addr) [
    | none ↦ some (err_wrong_param, c, m)
    | some n_sector ↦
        let (rc, c1, m1) = call iap_cmd_prepare_sectors n_sector n_sector 0 0 c m in
        if rc == iap_cmd_success
        then Option.map (λ r. (write_status r.0, r.1, r.2))
            (iap_until_ready fuel iap_cmd_copy_ram_to_flash flash_addr ram_addr len prc_clk c1 m1)
        else some (err_wstate, c1, m1)
  ]

  -- the part of `flash_erase_sectors` from the tests of the two sectors on
  erase_range : ℕ → Option ℕ → Option ℕ → ℕ → Chip → Mem → Option (ℕ × Chip × Mem)
  erase_range fuel none end_sector prc_clk c m = some (err_no_err, c, m)
  erase_range fuel (some s) none prc_clk c m = some (err_no_err, c, m)
  erase_range fuel (some s) (some e) prc_clk c m =
      let (rc, c1, m1) = call iap_cmd_prepare_sectors s e 0 0 c m in
      if rc == iap_cmd_success
      then Option.map (λ r. (err_no_err, r.1, r.2))
          (iap_until_ready fuel iap_cmd_erase_sectors s e prc_clk 0 c1 m1)
      else some (err_no_err, c1, m1)

  -- The answer is ERR_NO_ERR on every path. `start_addr + len - 1` is computed in 32 bits.
  unfoldable pub flash_erase_sectors : ℕ → ℕ → ℕ → ℕ → Chip → Mem → Option (ℕ × Chip × Mem)
  unfolding erase_range iap_until_ready
  flash_erase_sectors fuel start_addr len prc_clk c m =
      erase_range fuel (get_sector_number start_addr)
        (get_sector_number (u32 (start_addr + len + u32_mod - 1))) prc_clk c m
