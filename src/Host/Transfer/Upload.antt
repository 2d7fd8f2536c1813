-- ===== src/Host/Transfer/Upload.antt =====
-- An upload from end to end: the image that the host has prepared and sends, the device starts.
use usb_fwu.Base.{
  ℕ, ◌+◌, ◌-◌, ◌*◌, ◌/◌, ◌^◌, ◌≤◌, ◌<◌, ◌≡◌, ◌⊎◌, inl, inr, refl, ap, sym, ◌∙◌, arith, some, Bool,
  true, false, List, ◌++◌, length, append_assoc, take-append-drop, ==_iff, drop, get_or, sub32,
}
use usb_fwu.Memory.{Mem, load_word, store_word}
use usb_fwu.Memory.Bytes.{IsBytes}
use usb_fwu.Crc.{calc_crc}
use usb_fwu.Crc.Table.{IsCrcTable}
use usb_fwu.Crc.Command.{calc_crc-lt, load_word-store_word}
use usb_fwu.Usb.Vendor.Frame.{load_word-apart}
use usb_fwu.Flash.Rom.{Iap}
use usb_fwu.Flash.Write.Works.{IsSource, IsBlank, Works}
use usb_fwu.Image.{FwInfo, flash_size, fw_load_addr, do_switch_to_firmware, crc_matches}
use usb_fwu.Stream.{Layout, Loader, Event}
use usb_fwu.Stream.Rx.{
  RxEnd, timed_out, write_error, not_started, started, rx_start, put_header, stream_rx,
}
use usb_fwu.Stream.Safe.{InRam, AllRounds}
use usb_fwu.Stream.Block.{rx_target}
use usb_fwu.Stream.Verdict.{Verdict, starts, starts_lem, stream_rx-Verdict}
use usb_fwu.Stream.Bytes.{RoundsOfBytes, stream_rx-byte}
use usb_fwu.Stream.Arrivals.{joined, waiting, arrivals}
use usb_fwu.Stream.Judged.{Tells}
use usb_fwu.Stream.Written.{described, FlashHolds, get_or-append}
use usb_fwu.Stream.Written.Upload.{stream_rx-Completed}
use usb_fwu.Host.Transfer.{HostData, prepare}
use usb_fwu.Host.Transfer.Stream.{tx_blocks, tx_blocks-prepare}
use usb_fwu.Host.Transfer.Accepted.{HasCode, States, prepared_crc, prepare-accepted}

-- The third and the fourth word of a description.
described_words :
    (info : FwInfo) (bytes : List ℕ)
    → info.fw_length < 2 ^ 32
    → info.fw_crc < 2 ^ 32
    → (load_word (described info bytes) 8 ≡ info.fw_length)
      × (load_word (described info bytes) 12 ≡ info.fw_crc)
unfolding put_header
described_words info bytes small crc =
    let m0 : Mem = λ a. get_or bytes a 0 in
    let m2 : Mem = store_word (store_word m0 0 info.fw_product_id) 4 info.fw_version in
    (
      load_word-apart (store_word m2 8 info.fw_length) 12 info.fw_crc 8 (inl (omega arith))
          ∙ load_word-store_word m2 8 info.fw_length small,
      load_word-store_word (store_word m2 8 info.fw_length) 12 info.fw_crc crc,
    )

described-behind :
    (info : FwInfo) (bytes : List ℕ) (k : ℕ) → 16 ≤ k → described info bytes k ≡ get_or bytes k 0
unfolding put_header
described-behind info bytes k h = ground arith

flash_word :
    (info : FwInfo) (bytes : List ℕ) (n k : ℕ) (m : Mem)
    → FlashHolds info bytes n m
    → k + 4 ≤ n
    → load_word m (0x2000 + k) ≡ load_word (described info bytes) k
flash_word info bytes n k m h le = ground (arith, h k, h (k + 1), h (k + 2), h (k + 3))

-- A flash with the bytes that the host has sent has the code of the image.
FlashHolds-HasCode :
    (image more : List ℕ) (info : FwInfo) (m : Mem)
    → FlashHolds info (image ++ more) (length image) m
    → HasCode image m
FlashHolds-HasCode image more info m h k from lt =
    h k lt ∙ described-behind info (image ++ more) k (omega arith) ∙ get_or-append image more k lt

-- A flash with the prepared image passes both checks of the device.
prepared-passes :
    (table : List ℕ) (fw_buf : ℕ) (image more : List ℕ) (g : HostData) (m : Mem) (i : FwInfo)
    → IsCrcTable table
    → IsBytes m
    → IsBytes g.mem
    → ((k : ℕ) → get_or image k 0 < 256)
    → 32 ≤ length image
    → length image ≤ flash_size - fw_load_addr
    → FlashHolds (prepare fw_buf image g).0 (image ++ more) (length image) m
    → ((do_switch_to_firmware table m i).1 ≡ true)
      × (crc_matches table m (prepare fw_buf image g).0 ≡ true)
prepared-passes table fw_buf image more g m i t bytes host image_bytes long fits holds =
    let info = (prepare fw_buf image g).0 in
    let len : info.fw_length ≡ length image = unfold prepare in refl in
    let code = FlashHolds-HasCode image more info m holds in
    let crc = prepared_crc table fw_buf image g m t bytes host image_bytes (omega arith) code in
    let limit = calc_crc-lt table m 0x2020 (sub32 (length image) 0x20) t bytes in
    let small : info.fw_crc < 2 ^ 32 = omega (arith, crc, limit) in
    let (words_len, words_crc) = described_words info (image ++ more) (omega arith) small in
    let states : States info m = (
      flash_word info (image ++ more) (length image) 8 m holds (omega arith) ∙ words_len,
      flash_word info (image ++ more) (length image) 12 m holds (omega arith) ∙ words_crc,
    ) in
    (
      (prepare-accepted table fw_buf image g m i t bytes host image_bytes (omega arith) code
            states).1
          (omega arith, fits),
      (==_iff _ _).1 (ap (λ (n : ℕ). calc_crc table m 0x2020 (sub32 n 0x20)) len ∙ crc),
    )

module _ (iap : Iap) (layout : Layout) (fuel : ℕ) (works : Works iap)
    (enough : iap.max_pending < fuel) (source : IsSource layout.g_stream_rx_buf 4096) where
  open iap use {Chip}

  -- An end that is told with the right firmware in the flash is its start.
  only_started :
      (e : RxEnd) (l : Loader Chip) (ok : Bool)
      → ok ≡ true
      → starts iap layout fuel l.mem ≡ true
      → Tells e ok
      → Verdict iap layout fuel e l
      → (e ≡ timed_out) ⊎ (e ≡ started)
  only_started timed_out l ok right runs t v = inl refl
  only_started started l ok right runs t v = inr refl
  only_started write_error l ok right runs t v = let wrong : ok ≡ false = t in cc
  only_started not_started l ok right runs t v = cc

  -- What the host sends, the device starts. Conditions: the buffers of the device in RAM and apart,
  -- the stream buffer on a word boundary and below the top 32 bytes of RAM; a table of CRC-32; the
  -- flash erased from 0x2000 on for the blocks that cover the image, and an idle ROM routine that
  -- carries out allowed copies into prepared sectors; bytes in the memories, the image and the
  -- packets; an image of at least 32 bytes that fits behind the upgrader, whose description, as
  -- `prepare` makes it, the device has; packets of 64 bytes that bring the blocks that the host's
  -- pipe then sends, and enough rounds. `stream_rx` comes to an end, and unless that is by a
  -- timeout, it starts the firmware.
  pub prepare-started :
      (fw_buf : ℕ) (image : List ℕ) (g : HostData) (rounds : List (List Event)) (l : Loader Chip)
      (more : List ℕ)
      → InRam layout l
      → IsCrcTable layout.crc32_ref_table
      → IsBytes l.mem
      → IsBytes g.mem
      → ((k : ℕ) → get_or image k 0 < 256)
      → RoundsOfBytes rounds
      → 32 ≤ length image
      → length image ≤ flash_size - fw_load_addr
      → AllRounds rounds
      → works.Idle l.chip
      → IsBlank fw_load_addr (rx_target (length image)) l.mem
      → (rx_target (length image) / 64 + 1) * 60000 ≤ length rounds
      → l.info ≡ (prepare fw_buf image g).0
      → joined (waiting l ++ arrivals iap layout fuel rounds rx_start l)
        ≡ (tx_blocks ((length image + 4095) / 4096) (prepare fw_buf image g).1).0 ++ more
      → (e : RxEnd) × (l' : Loader Chip) × (stream_rx iap layout fuel rounds l ≡ some (e, l'))
        × ((e ≡ timed_out) ⊎ (e ≡ started))
  prepare-started fw_buf image g rounds l more w t bytes host image_bytes packets long fits s idle
        blank enough_rounds told came =
      let info = (prepare fw_buf image g).0 in
      let table = layout.crc32_ref_table in
      let sent = tx_blocks ((length image + 4095) / 4096) (prepare fw_buf image g).1 in
      let rest = drop (length image) sent.0 ++ more in
      let len : l.info.fw_length ≡ length image =
        ap (λ (i : FwInfo). i.fw_length) told ∙ (unfold prepare in refl) in
      let target : rx_target l.info.fw_length ≡ rx_target (length image) = ap rx_target len in
      let (e, l', runs, done) =
        stream_rx-Completed iap layout fuel works enough source rounds l w (omega arith) s idle
          (λ k lt. blank k (omega (arith, target))) (omega (arith, target)) in
      let b = stream_rx-byte iap layout fuel enough rounds l l' e runs packets bytes in
      let v = stream_rx-Verdict iap layout fuel rounds l l' e runs in
      let arrived = arrivals iap layout fuel rounds rx_start l in
      let whole : joined (waiting l ++ arrived) ≡ image ++ rest =
        came
        ∙ ap (λ (xs : List ℕ). xs ++ more)
            (sym (take-append-drop (length image) sent.0)
              ∙ ap (λ (xs : List ℕ). xs ++ drop (length image) sent.0)
                  (tx_blocks-prepare fw_buf image g (omega arith)).0)
        ∙ append_assoc image (drop (length image) sent.0) more in
      (
        e,
        l',
        runs,
        elim done [
          | inl late ↦ inl late
          | inr (holds, tells) ↦
              let (runs', right) =
                prepared-passes table fw_buf image rest g l'.mem l.info t b host image_bytes long
                  fits
                  (λ k lt.
                    holds k (omega arith)
                    ∙ ap (λ (i : FwInfo). described i (joined (waiting l ++ arrived)) k) told
                    ∙ ap (λ (xs : List ℕ). described info xs k) whole) in
              only_started e l' (crc_matches table l'.mem l.info)
                (ap (crc_matches table l'.mem) told ∙ right)
                (sym (starts_lem iap layout fuel l'.mem l.info) ∙ runs') tells v
        ],
      )
