-- ===== src/Flash/Rom.antt =====
-- The in-application programming routine in the ROM of the LPC214x, as its user manual documents it.
use usb_fwu.Base.{ℕ, ◌+◌, ◌-◌, ◌*◌, ◌≤◌, ◌<◌, ◌≡◌, ◌≢◌, ltb, if◌then◌else◌}
use usb_fwu.Memory.{Mem, move}
use usb_fwu.Memory.Copy.{filled}

abbrev pub iap_cmd_prepare_sectors : ℕ
iap_cmd_prepare_sectors = 50

abbrev pub iap_cmd_copy_ram_to_flash : ℕ
iap_cmd_copy_ram_to_flash = 51

abbrev pub iap_cmd_erase_sectors : ℕ
iap_cmd_erase_sectors = 52

abbrev pub iap_cmd_success : ℕ
iap_cmd_success = 0

abbrev pub iap_busy : ℕ
iap_busy = 11

-- The address at which a sector of the LPC2148 begins (user manual, flash sectors).
abbrev pub sector_base : ℕ → ℕ
sector_base k =
    if ltb k 8
    then k * 4096
    else if ltb k 22
    then 32768 + (k - 8) * 32768
    else 491520 + (k - 22) * 4096

-- `call cmd p0 p1 p2 p3`: the status code, the controller and the memory afterwards. `r0` is 0 in
-- every call of the program, so the second result word is never stored.
pub record Iap : Type 1 where
  pub Chip : Type 0
  pub call : ℕ → ℕ → ℕ → ℕ → ℕ → Chip → Mem → ℕ × Chip × Mem
  -- an operation in progress ends: BUSY is answered a bounded number of times
  pub pending : Chip → ℕ
  pub max_pending : ℕ
  pub pending-le : (c : Chip) → pending c ≤ max_pending
  pub settles :
      (cmd p0 p1 p2 p3 : ℕ) (c : Chip) (m : Mem)
      → (call cmd p0 p1 p2 p3 c m).0 ≡ iap_busy
      → pending (call cmd p0 p1 p2 p3 c m).1 < pending c
  -- a command that does not succeed, and the preparation of sectors, change no memory
  pub fails :
      (cmd p0 p1 p2 p3 : ℕ) (c : Chip) (m : Mem)
      → (call cmd p0 p1 p2 p3 c m).0 ≢ iap_cmd_success
      → (call cmd p0 p1 p2 p3 c m).2 ≡ m
  pub prepares :
      (p0 p1 p2 p3 : ℕ) (c : Chip) (m : Mem) → (call iap_cmd_prepare_sectors p0 p1 p2 p3 c m).2 ≡ m
  -- `p2` bytes from `p1` in RAM to `p0` in flash
  pub copies :
      (p0 p1 p2 p3 : ℕ) (c : Chip) (m : Mem)
      → (call iap_cmd_copy_ram_to_flash p0 p1 p2 p3 c m).0 ≡ iap_cmd_success
      → (call iap_cmd_copy_ram_to_flash p0 p1 p2 p3 c m).2 ≡ move p2 p0 p1 m
  -- sectors `p0` to `p1`
  pub erases :
      (p0 p1 p2 p3 : ℕ) (c : Chip) (m : Mem)
      → (call iap_cmd_erase_sectors p0 p1 p2 p3 c m).0 ≡ iap_cmd_success
      → (call iap_cmd_erase_sectors p0 p1 p2 p3 c m).2
        ≡ filled (sector_base p0) 255 (sector_base (p1 + 1) - sector_base p0) m
