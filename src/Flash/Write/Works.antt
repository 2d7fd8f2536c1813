-- ===== src/Flash/Write/Works.antt =====
-- A ROM routine that carries out what its manual lets the caller ask for, and flash_write on it.
use usb_fwu.Base.{
  ℕ, ◌+◌, ◌%◌, ◌≤◌, ◌<◌, ◌≡◌, ◌≢◌, ◌⊎◌, inl, inr, refl, ap, ◌∙◌, arith, ◌==◌, Option, some,
  Option-cases, true,
}
use usb_fwu.Memory.{Mem, move}
use usb_fwu.Flash.{get_sector_number, err_no_err, flash_write}
use usb_fwu.Flash.Rom.{
  Iap, iap_cmd_prepare_sectors, iap_cmd_copy_ram_to_flash, iap_busy, sector_base,
}
use usb_fwu.Flash.Sector.{get_sector_number_lem, get_sector_number-base}
use usb_fwu.Flash.Write.{iap_until_ready_keeps}

-- A source in RAM: on a word boundary, and below the 32 bytes at its top that the routine uses.
pub record IsSource (ram_addr len : ℕ) : Type 0 where
  pub aligned : ram_addr % 4 ≡ 0
  pub from : 0x40000000 ≤ ram_addr
  pub to : ram_addr + len ≤ 0x40007fe0

abbrev pub IsBlank : ℕ → ℕ → Mem → Type 0
IsBlank a n m = (k : ℕ) → k < n → m (a + k) ≡ 255

-- A copy that the manual allows: into one sector, on a boundary of 256 bytes, of a size that it
-- lists, from a good source, and to where the flash is erased.
pub record IsAllowed (sector flash_addr ram_addr len : ℕ) (m : Mem) : Type 0 where
  pub from : sector_base sector ≤ flash_addr
  pub to : flash_addr + len ≤ sector_base (sector + 1)
  pub aligned : flash_addr % 256 ≡ 0
  pub size : (len ≡ 256) ⊎ ((len ≡ 512) ⊎ ((len ≡ 1024) ⊎ (len ≡ 4096)))
  pub source : IsSource ram_addr len
  pub blank : IsBlank flash_addr len m

-- An idle routine prepares a sector of the flash; the sector stays prepared while the routine answers
-- BUSY; and an allowed copy into the prepared sector succeeds once it is not BUSY, and leaves the
-- routine idle.
pub record Works (iap : Iap) : Type 1 where
  pub Idle : iap.Chip → Type 0
  pub Prepared : ℕ → iap.Chip → Type 0
  pub prepared :
      (n : ℕ) (c : iap.Chip) (m : Mem)
      → n < 27
      → Idle c
      → ((iap.call iap_cmd_prepare_sectors n n 0 0 c m).0 ≡ 0)
        × Prepared n (iap.call iap_cmd_prepare_sectors n n 0 0 c m).1
  pub stays :
      (n p0 p1 p2 p3 : ℕ) (c : iap.Chip) (m : Mem)
      → Prepared n c
      → (iap.call iap_cmd_copy_ram_to_flash p0 p1 p2 p3 c m).0 ≡ iap_busy
      → Prepared n (iap.call iap_cmd_copy_ram_to_flash p0 p1 p2 p3 c m).1
  pub copied :
      (n p0 p1 p2 p3 : ℕ) (c : iap.Chip) (m : Mem)
      → Prepared n c
      → IsAllowed n p0 p1 p2 m
      → (iap.call iap_cmd_copy_ram_to_flash p0 p1 p2 p3 c m).0 ≢ iap_busy
      → ((iap.call iap_cmd_copy_ram_to_flash p0 p1 p2 p3 c m).0 ≡ 0)
        × Idle (iap.call iap_cmd_copy_ram_to_flash p0 p1 p2 p3 c m).1

-- A block of 4096 bytes of the flash lies in the sector that is found for it.
block_sector :
    (flash_addr : ℕ)
    → flash_addr < 512000
    → flash_addr % 4096 ≡ 0
    → (n : ℕ) × (get_sector_number flash_addr ≡ some n)
      × (n < 27)
      × (sector_base n ≤ flash_addr)
      × (flash_addr + 4096 ≤ sector_base (n + 1))
block_sector flash_addr h aligned = elim (Option-cases (get_sector_number flash_addr)) [
  | inl e ↦ absurd (ground (arith, get_sector_number_lem flash_addr))
  | inr (n, e) ↦
      let few : n < 27 = ground (arith, get_sector_number_lem flash_addr) in
      let (from, below) = (get_sector_number-base flash_addr n few).0 e in
      (n, e, few, from, ground arith)
]

module _ (iap : Iap) (works : Works iap) where
  open iap use {Chip, call, max_pending, pending-le, copies, prepares}

  -- A block of the buffer then goes to an erased place in the flash.
  pub flash_write_works :
      (fuel flash_addr ram_addr prc_clk : ℕ) (c : Chip) (m : Mem)
      → max_pending < fuel
      → flash_addr < 512000
      → flash_addr % 4096 ≡ 0
      → IsSource ram_addr 4096
      → IsBlank flash_addr 4096 m
      → works.Idle c
      → (c' : Chip) × (flash_write iap fuel flash_addr ram_addr prc_clk 4096 c m
          ≡ some (err_no_err, c', move 4096 flash_addr ram_addr m))
        × works.Idle c'
  unfolding flash_write
  flash_write_works fuel flash_addr ram_addr prc_clk c m h within aligned source blank idle =
      let (n, e, few, from, to) = block_sector flash_addr within aligned in
      let ready = call iap_cmd_prepare_sectors n n 0 0 c m in
      let (success, prepared) = works.prepared n c m few idle in
      let same : ready.2 ≡ m = prepares n n 0 0 c m in
      let (r, runs, over, still) =
        iap_until_ready_keeps iap (works.Prepared n) fuel iap_cmd_copy_ram_to_flash flash_addr
          ram_addr 4096 prc_clk
          (λ c1 m1 p b. works.stays n flash_addr ram_addr 4096 prc_clk c1 m1 p b) ready.1 ready.2
          prepared (omega (arith, pending-le ready.1)) in
      let last = call iap_cmd_copy_ram_to_flash flash_addr ram_addr 4096 prc_clk r ready.2 in
      let allowed : IsAllowed n flash_addr ram_addr 4096 ready.2 = record {
        from = from;
        to = to;
        aligned = omega arith;
        size = inr (inr (inr refl));
        source = source;
        blank = λ k lt. ap (λ (f : Mem). f (flash_addr + k)) same ∙ blank k lt;
      } in
      let (good, idle_again) =
        works.copied n flash_addr ram_addr 4096 prc_clk r ready.2 still allowed over in
      let done =
        copies flash_addr ram_addr 4096 prc_clk r ready.2 good
        ∙ ap (move 4096 flash_addr ram_addr) same in
      let begun : (ready.0 == 0) ≡ true = ground (arith, success) in
      let ended : (last.0 == 0) ≡ true = ground arith in
      let ends : Mem → Option (ℕ × Chip × Mem) = λ x. some (err_no_err, last.1, x) in
      (last.1, rw (e, flash_write, begun, runs, ended) (ap ends done), idle_again)
