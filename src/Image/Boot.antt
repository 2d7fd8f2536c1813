-- ===== src/Image/Boot.antt =====
-- When main leaves the upgrader for the firmware.
use usb_fwu.Base.{
  ℕ, zero, suc, ◌+◌, ◌-◌, ◌≤◌, ◌<◌, ◌≡◌, refl, sym, ap, ap₂, ◌&&◌, ◌∙◌, ◌↔◌, inl, inr, ltb, ltb→lt,
  ◌==◌, Bool, true, false, Bool-cases, List, length, arith, bit_xor,
}
use usb_fwu.Memory.Bytes.{store_word-byte}
use usb_fwu.Memory.{Mem, load_word, store_word}
use usb_fwu.Crc.{init_crc32_table}
use usb_fwu.Crc.Spec.{crc_bits, crc_bytes, crc32}
use usb_fwu.Crc.Command.{store_word-other, load_word-store_word}
use usb_fwu.Crc.Table.{init_crc32_table-IsCrcTable}
use usb_fwu.Image.{
  fw_load_addr, fw_start_offset, flash_size, FwInfo, place_vectors, clear_mark, has_mark, Start,
  firmware, upgrader, main_start, ram_start_addr,
}
use usb_fwu.Image.Accept.{image_length, stated_crc, code_crc, do_switch_to_firmware_lem}

crc_bytes-congr :
    (m m' : Mem) (n buf r : ℕ)
    → ((a : ℕ) → buf ≤ a → a < buf + n → m a ≡ m' a)
    → crc_bytes m n buf r ≡ crc_bytes m' n buf r
unfolding crc_bytes
crc_bytes-congr m m' zero buf r h = refl
crc_bytes-congr m m' (suc n) buf r h = rw (h buf (omega arith) (omega arith)) (
    crc_bytes-congr m m' n (buf + 1) (crc_bits 8 (bit_xor r (m' buf)))
      (λ a p q. h a (omega arith) (omega arith)))

-- Two memories that agree below the RAM hold the same image.
abbrev pub SameFlash : Mem → Mem → Type 0
SameFlash m m' = (a : ℕ) → a < ram_start_addr → m a ≡ m' a

pub load_word-congr :
    (m m' : Mem) (a : ℕ) → SameFlash m m' → a + 4 ≤ ram_start_addr → load_word m a ≡ load_word m' a
load_word-congr m m' a s h = ground (arith, s a, s (a + 1), s (a + 2), s (a + 3))

pub code_crc-congr :
    (m m' : Mem)
    → SameFlash m m'
    → image_length m ≤ flash_size - fw_load_addr
    → code_crc m ≡ code_crc m'
unfolding crc32
code_crc-congr m m' s small =
    let size : image_length m ≡ image_length m' = load_word-congr m m' 0x2008 s (omega arith) in
    elim (Bool-cases (ltb 32 (image_length m))) [
      | inl code ↦
          let same =
            crc_bytes-congr m m' (image_length m - 32) (fw_load_addr + fw_start_offset) 0xffffffff
              (λ a p q. s a (omega (arith, ltb→lt 32 (image_length m) code))) in
          rw (← size, code) (ap (λ (r : ℕ). bit_xor r 0xffffffff) same)
      | inr no_code ↦ rw (← size, no_code)
    ]

load_word-other : (m : Mem) (p w a : ℕ) → a + 4 ≤ p → load_word (store_word m p w) a ≡ load_word m a
load_word-other m p w a h = ground (
  arith,
  store_word-other m p w a (inl (omega arith)),
  store_word-other m p w (a + 1) (inl (omega arith)),
  store_word-other m p w (a + 2) (inl (omega arith)),
  store_word-other m p w (a + 3) (inl (omega arith)),
)

module _ (isr fiq : ℕ) (m : Mem) where
  -- The stores of the vectors change RAM only, behind the mark.
  vectors-other : (a : ℕ) → a < ram_start_addr + 0x18 → place_vectors isr fiq m a ≡ m a
  unfolding place_vectors
  vectors-other a h = ground arith

  vectors-byte : ((a : ℕ) → m a < 256) → (a : ℕ) → place_vectors isr fiq m a < 256
  unfolding place_vectors
  vectors-byte h = store_word-byte _ 0x4000003c fiq (
      store_word-byte _ 0x40000038 isr
        (store_word-byte _ 0x4000001c 0xe59ff018 (store_word-byte m 0x40000018 0xe59ff018 h)))

  load_word-vectors :
      (a : ℕ)
      → a + 4 ≤ ram_start_addr + 0x18
      → load_word (place_vectors isr fiq m) a ≡ load_word m a
  load_word-vectors a h =
      ground (
        arith,
        vectors-other a,
        vectors-other (a + 1),
        vectors-other (a + 2),
        vectors-other (a + 3),
      )

  has_mark-vectors : has_mark (place_vectors isr fiq m) ≡ has_mark m
  has_mark-vectors =
      ap₂ (λ (a b : ℕ). a == 0x12345678 && b == 0x43211234)
        (load_word-vectors ram_start_addr (omega arith))
        (load_word-vectors (ram_start_addr + 4) (omega arith))

clear_mark-has_mark : (m : Mem) → has_mark (clear_mark m) ≡ false
unfolding clear_mark
clear_mark-has_mark m =
    let first : load_word (store_word (store_word m ram_start_addr 0) (ram_start_addr + 4) 0)
          ram_start_addr
        ≡ 0 =
      load_word-other (store_word m ram_start_addr 0) (ram_start_addr + 4) 0 ram_start_addr
        (omega arith)
      ∙ load_word-store_word m ram_start_addr 0 (omega arith) in
    ap (λ (a : ℕ). a == 0x12345678 && load_word (clear_mark m) (ram_start_addr + 4) == 0x43211234)
      first

abbrev pub is_firmware : Start → Bool
is_firmware (firmware info m) = true
is_firmware (upgrader info m) = false

abbrev pub memory_after : Start → Mem
memory_after (firmware info m) = m
memory_after (upgrader info m) = m

-- With room for 256 words of the table and bytes in memory: after a reset the firmware is started
-- exactly if RAM holds no request for the upgrader and the image in the flash states a positive
-- length that fits behind the upgrader and the CRC-32 of its code.
pub main_start_lem :
    (isr fiq : ℕ) (table : List ℕ) (m : Mem) (info : FwInfo)
    → length table ≡ 256
    → ((a : ℕ) → m a < 256)
    → (is_firmware (main_start isr fiq table m info) ≡ true) ↔ (
        (has_mark m ≡ false)
        × (0 < image_length m)
        × (image_length m ≤ flash_size - fw_load_addr)
        × (code_crc m ≡ stated_crc m))
unfolding main_start
main_start_lem isr fiq table m info e h = ground (
  arith,
  has_mark-vectors isr fiq m,
  do_switch_to_firmware_lem (init_crc32_table table) m1 info (init_crc32_table-IsCrcTable table e)
      (vectors-byte isr fiq m h),
  load_word-vectors isr fiq m 0x2008,
  load_word-vectors isr fiq m 0x200c,
  code_crc-congr m m1 (λ a p. sym (vectors-other isr fiq m a (omega arith))),
)
  where
    m1 : Mem
    m1 = place_vectors isr fiq m

-- A request for the upgrader serves once: when `main` stays in the upgrader, none is left in RAM.
pub main_start-clears :
    (isr fiq : ℕ) (table : List ℕ) (m : Mem) (info : FwInfo)
    → is_firmware (main_start isr fiq table m info) ≡ false
    → has_mark (memory_after (main_start isr fiq table m info)) ≡ false
unfolding main_start
main_start-clears isr fiq table m info e =
    ground (arith, clear_mark-has_mark (place_vectors isr fiq m))
