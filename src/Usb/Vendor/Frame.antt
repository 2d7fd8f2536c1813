-- ===== src/Usb/Vendor/Frame.antt =====
-- The frame that answers GET_FW_INFO.
use usb_fwu.Base.{ℕ, ◌+◌, ◌^◌, ◌≤◌, ◌<◌, ◌≡◌, ◌⊎◌, inl, sym, ◌∙◌, arith, List}
use usb_fwu.Memory.{Mem, load_word, store_word, s_memset}
use usb_fwu.Crc.{calc_crc}
use usb_fwu.Crc.Table.{IsCrcTable}
use usb_fwu.Crc.Command.{calc_crc-congr, calc_crc-lt, load_word-store_word, store_word-other}
use usb_fwu.Image.{ram_start_addr}
use usb_fwu.Image.Accept.{load_word-lt}
use usb_fwu.Image.Boot.{SameFlash, load_word-congr}
use usb_fwu.Stream.Safe.{s_memset-other}
use usb_fwu.Memory.Bytes.{store_word-byte, s_memset-byte}
use usb_fwu.Usb.Vendor.{info_at, rom_info, info_frame}

pub load_word-apart :
    (m : Mem) (p w a : ℕ)
    → (a + 4 ≤ p) ⊎ (p + 4 ≤ a)
    → load_word (store_word m p w) a ≡ load_word m a
load_word-apart m p w a h = ground (
  arith,
  store_word-other m p w a,
  store_word-other m p w (a + 1),
  store_word-other m p w (a + 2),
  store_word-other m p w (a + 3),
)

-- The stores of the frame, as the reads behind them see them.
module _ (m0 : Mem) (ptr a b c d e : ℕ) where
  abbrev m1 : Mem
  m1 = store_word m0 (ptr + 4) a

  abbrev m2 : Mem
  m2 = store_word m1 (ptr + 8) b

  abbrev m3 : Mem
  m3 = store_word m2 (ptr + 12) c

  abbrev m4 : Mem
  m4 = store_word m3 (ptr + 16) d

  abbrev five : Mem
  five = store_word m4 (ptr + 60) e

  five_fields :
      a < 2 ^ 32
      → b < 2 ^ 32
      → c < 2 ^ 32
      → d < 2 ^ 32
      → e < 2 ^ 32
      → (load_word five (ptr + 4) ≡ a)
        × (load_word five (ptr + 8) ≡ b)
        × (load_word five (ptr + 12) ≡ c)
        × (load_word five (ptr + 16) ≡ d)
        × (load_word five (ptr + 60) ≡ e)
  five_fields ha hb hc hd he = (
    load_word-apart m4 (ptr + 60) e (ptr + 4) (inl (omega arith))
        ∙ load_word-apart m3 (ptr + 16) d (ptr + 4) (inl (omega arith))
        ∙ load_word-apart m2 (ptr + 12) c (ptr + 4) (inl (omega arith))
        ∙ load_word-apart m1 (ptr + 8) b (ptr + 4) (inl (omega arith))
        ∙ load_word-store_word m0 (ptr + 4) a ha,
    load_word-apart m4 (ptr + 60) e (ptr + 8) (inl (omega arith))
        ∙ load_word-apart m3 (ptr + 16) d (ptr + 8) (inl (omega arith))
        ∙ load_word-apart m2 (ptr + 12) c (ptr + 8) (inl (omega arith))
        ∙ load_word-store_word m1 (ptr + 8) b hb,
    load_word-apart m4 (ptr + 60) e (ptr + 12) (inl (omega arith))
        ∙ load_word-apart m3 (ptr + 16) d (ptr + 12) (inl (omega arith))
        ∙ load_word-store_word m2 (ptr + 12) c hc,
    load_word-apart m4 (ptr + 60) e (ptr + 16) (inl (omega arith))
        ∙ load_word-store_word m3 (ptr + 16) d hd,
    load_word-store_word m4 (ptr + 60) e he,
  )

  -- Words below the frame are as they were.
  five_below : (q : ℕ) → q + 4 ≤ ptr → load_word five q ≡ load_word m0 q
  five_below q h =
      load_word-apart m4 (ptr + 60) e q (inl (omega arith))
      ∙ load_word-apart m3 (ptr + 16) d q (inl (omega arith))
      ∙ load_word-apart m2 (ptr + 12) c q (inl (omega arith))
      ∙ load_word-apart m1 (ptr + 8) b q (inl (omega arith))
      ∙ load_word-apart m0 (ptr + 4) a q (inl (omega arith))

-- The frame that answers GET_FW_INFO carries the description of the firmware in the flash, and its
-- CRC is the one that PUT_FW_INFO checks.
pub info_frame_lem :
    (table : List ℕ) (ptr : ℕ) (m : Mem)
    → IsCrcTable table
    → ((a : ℕ) → m a < 256)
    → ram_start_addr ≤ ptr
    → (info_at (info_frame table ptr m) ptr ≡ rom_info m)
      × (rom_info (info_frame table ptr m) ≡ rom_info m)
      × (calc_crc table (info_frame table ptr m) ptr 60
          ≡ load_word (info_frame table ptr m) (ptr + 60))
unfolding info_frame
info_frame_lem table ptr m t h in_ram =
    let fields =
      five_fields f0 ptr (load_word f0 0x2000) (load_word f1 0x2004) (load_word f2 0x2008)
        (load_word f3 0x200c) crc (omega (arith, e0, load_word-lt m 0x2000 h))
        (omega (arith, e1, load_word-lt m 0x2004 h)) (omega (arith, e2, load_word-lt m 0x2008 h))
        (omega (arith, e3, load_word-lt m 0x200c h)) (calc_crc-lt table f4 ptr 60 t bytes) in
    (
      λ i. record {
        fw_product_id = (fields.0 ∙ e0) i;
        fw_version = (fields.1 ∙ e1) i;
        fw_length = (fields.2 ∙ e2) i;
        fw_crc = (fields.3 ∙ e3) i;
      },
      λ i. record {
        fw_product_id = (below 0x2000 (omega arith)) i;
        fw_version = (below 0x2004 (omega arith)) i;
        fw_length = (below 0x2008 (omega arith)) i;
        fw_crc = (below 0x200c (omega arith)) i;
      },
      calc_crc-congr table (store_word f4 (ptr + 60) crc) f4 ptr
            (λ q lo hi. store_word-other f4 (ptr + 60) crc q (inl hi))
          ∙ sym fields.4,
    )
  where
    f0 : Mem
    f0 = s_memset ptr 0 60 m

    f1 : Mem
    f1 = store_word f0 (ptr + 4) (load_word f0 0x2000)

    f2 : Mem
    f2 = store_word f1 (ptr + 8) (load_word f1 0x2004)

    f3 : Mem
    f3 = store_word f2 (ptr + 12) (load_word f2 0x2008)

    f4 : Mem
    f4 = store_word f3 (ptr + 16) (load_word f3 0x200c)

    crc : ℕ
    crc = calc_crc table f4 ptr 60

    same : SameFlash f0 m
    same q lt = s_memset-other ptr 60 m q (inl (omega arith))

    e0 : load_word f0 0x2000 ≡ load_word m 0x2000
    e0 = load_word-congr f0 m 0x2000 same (omega arith)

    e1 : load_word f1 0x2004 ≡ load_word m 0x2004
    e1 =
        load_word-apart f0 (ptr + 4) (load_word f0 0x2000) 0x2004 (inl (omega arith))
        ∙ load_word-congr f0 m 0x2004 same (omega arith)

    e2 : load_word f2 0x2008 ≡ load_word m 0x2008
    e2 =
        load_word-apart f1 (ptr + 8) (load_word f1 0x2004) 0x2008 (inl (omega arith))
        ∙ load_word-apart f0 (ptr + 4) (load_word f0 0x2000) 0x2008 (inl (omega arith))
        ∙ load_word-congr f0 m 0x2008 same (omega arith)

    e3 : load_word f3 0x200c ≡ load_word m 0x200c
    e3 =
        load_word-apart f2 (ptr + 12) (load_word f2 0x2008) 0x200c (inl (omega arith))
        ∙ load_word-apart f1 (ptr + 8) (load_word f1 0x2004) 0x200c (inl (omega arith))
        ∙ load_word-apart f0 (ptr + 4) (load_word f0 0x2000) 0x200c (inl (omega arith))
        ∙ load_word-congr f0 m 0x200c same (omega arith)

    bytes : (q : ℕ) → f4 q < 256
    bytes = store_word-byte f3 (ptr + 16) _ (
        store_word-byte f2 (ptr + 12) _ (
          store_word-byte f1 (ptr + 8) _
            (store_word-byte f0 (ptr + 4) _ (s_memset-byte ptr 60 m h))))

    below :
        (q : ℕ)
        → q + 4 ≤ ram_start_addr
        → load_word (store_word f4 (ptr + 60) crc) q ≡ load_word m q
    below q lt =
        five_below f0 ptr (load_word f0 0x2000) (load_word f1 0x2004) (load_word f2 0x2008)
          (load_word f3 0x200c) crc q (omega arith)
        ∙ load_word-congr f0 m q same lt
