-- ===== src/Host/Command/Exchange.antt =====
-- The requests of the host against the handlers of the device.
use usb_fwu.Base.{
  ℕ, zero, suc, ◌+◌, ◌^◌, ◌≤◌, ◌<◌, ◌≡◌, refl, inl, sym, ap, ◌∙◌, arith, true, false, ◌==◌, ==_iff,
  some, List, bit_xor,
}
use usb_fwu.Memory.{Mem, store, load_word, store_word}
use usb_fwu.Memory.Bytes.{store_word-byte, store-byte}
use usb_fwu.Crc.{crc_loop, crc_step, calc_crc}
use usb_fwu.Crc.Table.{IsCrcTable}
use usb_fwu.Crc.Command.{calc_crc-congr, calc_crc-lt, load_word-store_word, store_word-other}
use usb_fwu.Image.{FwInfo, ram_start_addr}
use usb_fwu.Stream.{Layout}
use usb_fwu.Usb.{Controller, Usb}
use usb_fwu.Usb.Request.{b_request}
use usb_fwu.Usb.Vendor.{
  info_at, rom_info, info_frame, get_isfwu_ask, tn_usb_vendor_request_out, tn_usb_vendor_request_in,
}
use usb_fwu.Usb.Vendor.Frame.{info_frame_lem, load_word-apart}
use usb_fwu.Host.Crc.{host_calc_crc}
use usb_fwu.Host.Crc.Agree.{host_calc_crc-eq}
use usb_fwu.Host.Command.{
  HostFw, cleared, put_fields, cmd_put_fw_info, get_fw_info_request, cmd_get_fw_info,
  is_fwu_request, is_fwu,
}

-- The bytes of one memory stand in another, from an address on.
abbrev pub Holds : Mem → ℕ → Mem → ℕ → Type 0
Holds m ptr buf n = (k : ℕ) → k < n → m (ptr + k) ≡ buf k

pub crc_loop-shift :
    (table : List ℕ) (m m' : Mem) (n p q r : ℕ)
    → ((k : ℕ) → k < n → m (p + k) ≡ m' (q + k))
    → crc_loop table m n p r ≡ crc_loop table m' n q r
unfolding crc_loop
crc_loop-shift table m m' zero p q r h = refl
crc_loop-shift table m m' (suc n) p q r h =
    let here : m p ≡ m' q = h_at 0 (omega arith) (omega arith) (omega arith) in
    rw here (
      crc_loop-shift table m m' n (p + 1) (q + 1) (crc_step table r (m' q))
        (λ k lt. h_at (k + 1) (omega arith) (omega arith) (omega arith)))
  where
    h_at : (k : ℕ) {a b : ℕ} → k < suc n → p + k ≡ a → q + k ≡ b → m a ≡ m' b
    h_at k lt e f = sym (ap m e) ∙ h k lt ∙ ap m' f

-- The CRC of a frame does not depend on where it stands.
pub frame_crc :
    (table : List ℕ) (m : Mem) (ptr : ℕ) (buf : Mem)
    → Holds m ptr buf 60
    → calc_crc table m ptr 60 ≡ calc_crc table buf 0 60
unfolding calc_crc
frame_crc table m ptr buf h =
    ap (λ (r : ℕ). bit_xor r 0xffffffff)
      (crc_loop-shift table m buf 60 ptr 0 0xffffffff (λ k lt. h k lt ∙ ap buf (omega arith)))

pub frame_word :
    (m : Mem) (ptr : ℕ) (buf : Mem) (k : ℕ)
    → k ≤ 60
    → Holds m ptr buf 64
    → load_word m (ptr + k) ≡ load_word buf k
frame_word m ptr buf k le h = ground (arith, h k, h (k + 1), h (k + 2), h (k + 3))

abbrev IsInfo : FwInfo → Type 0
IsInfo i =
    (i.fw_product_id < 2 ^ 32)
    × (i.fw_version < 2 ^ 32)
    × (i.fw_length < 2 ^ 32)
    × (i.fw_crc < 2 ^ 32)

-- What the host puts into the frame of PUT_FW_INFO reads back from it.
module _ (pfw : FwInfo) where
  b1 : Mem
  b1 = store_word cleared 4 pfw.fw_product_id

  b2 : Mem
  unfolding b1
  b2 = store_word b1 8 pfw.fw_version

  b3 : Mem
  unfolding b2
  b3 = store_word b2 12 pfw.fw_length

  crc : ℕ
  crc = host_calc_crc (put_fields pfw) 0 60

  store_zero : (m : Mem) (v k : ℕ) → 0 < k → load_word (store m 0 v) k ≡ load_word m k
  store_zero m v k pos = ground arith

  put_fields-IsBytes : (a : ℕ) → put_fields pfw a < 256
  put_fields-IsBytes = store-byte _ 0 0x10 (omega arith) (
      store_word-byte _ 16 _ (
        store_word-byte _ 12 _
          (store_word-byte _ 8 _ (store_word-byte cleared 4 _ (λ a. omega arith)))))

  info_at-cmd_put_fw_info : IsInfo pfw → info_at (cmd_put_fw_info pfw).buffer 0 ≡ pfw
  unfolding cmd_put_fw_info b3
  info_at-cmd_put_fw_info (h1, h2, h3, h4) = λ i. record {
    fw_product_id =
        (load_word-apart (put_fields pfw) 60 crc 4 (inl (omega arith))
            ∙ store_zero (store_word b3 16 pfw.fw_crc) 0x10 4 (omega arith)
            ∙ load_word-apart b3 16 pfw.fw_crc 4 (inl (omega arith))
            ∙ load_word-apart b2 12 pfw.fw_length 4 (inl (omega arith))
            ∙ load_word-apart b1 8 pfw.fw_version 4 (inl (omega arith))
            ∙ load_word-store_word cleared 4 pfw.fw_product_id h1)
          i;
    fw_version =
        (load_word-apart (put_fields pfw) 60 crc 8 (inl (omega arith))
            ∙ store_zero (store_word b3 16 pfw.fw_crc) 0x10 8 (omega arith)
            ∙ load_word-apart b3 16 pfw.fw_crc 8 (inl (omega arith))
            ∙ load_word-apart b2 12 pfw.fw_length 8 (inl (omega arith))
            ∙ load_word-store_word b1 8 pfw.fw_version h2)
          i;
    fw_length =
        (load_word-apart (put_fields pfw) 60 crc 12 (inl (omega arith))
            ∙ store_zero (store_word b3 16 pfw.fw_crc) 0x10 12 (omega arith)
            ∙ load_word-apart b3 16 pfw.fw_crc 12 (inl (omega arith))
            ∙ load_word-store_word b2 12 pfw.fw_length h3)
          i;
    fw_crc =
        (load_word-apart (put_fields pfw) 60 crc 16 (inl (omega arith))
            ∙ store_zero (store_word b3 16 pfw.fw_crc) 0x10 16 (omega arith)
            ∙ load_word-store_word b3 16 pfw.fw_crc h4)
          i;
  }

  -- The last word is the CRC that a receiver computes over the sixty bytes before.
  cmd_put_fw_info-crc :
      (table : List ℕ)
      → IsCrcTable table
      → calc_crc table (cmd_put_fw_info pfw).buffer 0 60 ≡ load_word (cmd_put_fw_info pfw).buffer 60
  unfolding cmd_put_fw_info crc
  cmd_put_fw_info-crc table t =
      let same = host_calc_crc-eq table (put_fields pfw) 0 60 t put_fields-IsBytes in
      calc_crc-congr table (store_word (put_fields pfw) 60 crc) (put_fields pfw) 0
        (λ a lo hi. store_word-other (put_fields pfw) 60 crc a (inl hi))
      ∙ sym same
      ∙ sym (
          load_word-store_word (put_fields pfw) 60 crc
            (rw same (calc_crc-lt table (put_fields pfw) 0 60 t put_fields-IsBytes)))

module _ (ctl : Controller) (layout : Layout) {Chip : Type 0} where
  open ctl use {Dev}

  -- What the host says of a firmware, the device takes over: with a table of CRC-32 in the device
  -- and a description of four 32-bit numbers, the frame of `cmd_PUT_FW_INFO`, brought to the device
  -- unchanged, is accepted. The globals of the device then are the description that the host gave,
  -- and the state of the main loop is PUT_FW_INFO.
  pub put_fw_info_exchange :
      (pfw : FwInfo) (s : Usb Dev Chip)
      → IsInfo pfw
      → IsCrcTable layout.crc32_ref_table
      → b_request s.loader.mem s.udi ≡ (cmd_put_fw_info pfw).request
      → Holds s.loader.mem s.udi.pdata (cmd_put_fw_info pfw).buffer (cmd_put_fw_info pfw).byte_count
      → tn_usb_vendor_request_out ctl layout s
        ≡ some (true, record s { loader = record s.loader { info = pfw; g_state = 0x10 } })
  unfolding tn_usb_vendor_request_out cmd_put_fw_info
  put_fw_info_exchange pfw s fits t put sent =
      rw (asked, crc_ok)
        (ap
          (λ (o : FwInfo).
            some (true, record s { loader = record s.loader { info = o; g_state = 0x10 } }))
          described)
    where
      buf : Mem
      buf = (cmd_put_fw_info pfw).buffer

      asked : (b_request s.loader.mem s.udi == 0x10) ≡ true
      asked = ground (arith, put)

      word : (k : ℕ) → k ≤ 60 → load_word s.loader.mem (s.udi.pdata + k) ≡ load_word buf k
      word k le = frame_word s.loader.mem s.udi.pdata buf k le sent

      crc_ok :
          (calc_crc layout.crc32_ref_table s.loader.mem s.udi.pdata 60
            == load_word s.loader.mem (s.udi.pdata + 60))
          ≡ true
      crc_ok = (==_iff _ _).1 (
          frame_crc layout.crc32_ref_table s.loader.mem s.udi.pdata buf
            (λ k lt. sent k (omega arith))
          ∙ cmd_put_fw_info-crc pfw layout.crc32_ref_table t
          ∙ sym (word 60 (omega arith)))

      described : info_at s.loader.mem s.udi.pdata ≡ pfw
      described =
          (λ i. record {
            fw_product_id = word 4 (omega arith) i;
            fw_version = word 8 (omega arith) i;
            fw_length = word 12 (omega arith) i;
            fw_crc = word 16 (omega arith) i;
          })
          ∙ info_at-cmd_put_fw_info pfw fits

  -- What the device says of the firmware in its flash, the host takes over: with a table of CRC-32,
  -- bytes in memory and the frame in RAM, the device answers GET_FW_INFO, and any array of the
  -- host that has the 64 bytes of the answer makes `cmd_GET_FW_INFO` succeed with the description
  -- in the flash and ask for as many bytes as it states.
  pub get_fw_info_exchange :
      (s : Usb Dev Chip)
      → IsCrcTable layout.crc32_ref_table
      → ((a : ℕ) → s.loader.mem a < 256)
      → ram_start_addr ≤ s.udi.pdata
      → b_request s.loader.mem s.udi ≡ get_fw_info_request.request
      → (s1 : Usb Dev Chip) × (tn_usb_vendor_request_in ctl layout s ≡ some (true, s1))
        × ((fw_buf : ℕ) (mbuf : Mem) (g : HostFw)
            → ((a : ℕ) → mbuf a < 256)
            → Holds s1.loader.mem s1.udi.pdata mbuf get_fw_info_request.byte_count
            → cmd_get_fw_info fw_buf mbuf g ≡ (
              true,
              record {
                fw = rom_info s.loader.mem;
                is_valid = true;
                buf_ptr = fw_buf;
                len = (rom_info s.loader.mem).fw_length;
              },
            ))
  unfolding tn_usb_vendor_request_in cmd_get_fw_info
  get_fw_info_exchange s t h in_ram get = (
    record s {
      loader = record s.loader {
        mem = info_frame layout.crc32_ref_table s.udi.pdata s.loader.mem;
        info = rom_info (info_frame layout.crc32_ref_table s.udi.pdata s.loader.mem);
      };
    },
    rw asked,
    λ fw_buf mbuf g bytes sent.
        let (info, still, crc) =
          info_frame_lem layout.crc32_ref_table s.udi.pdata s.loader.mem t h in_ram in
        let word = λ (k : ℕ) (le : k ≤ 60). frame_word answer s.udi.pdata mbuf k le sent in
        let crc_ok : (host_calc_crc mbuf 0 60 == load_word mbuf 60) ≡ true = (==_iff _ _).1 (
          host_calc_crc-eq layout.crc32_ref_table mbuf 0 60 t bytes
          ∙ sym (
              frame_crc layout.crc32_ref_table answer s.udi.pdata mbuf
                (λ k lt. sent k (omega arith)))
          ∙ crc
          ∙ word 60 (omega arith)) in
        let described : info_at mbuf 0 ≡ rom_info s.loader.mem =
          sym (λ i. record {
            fw_product_id = word 4 (omega arith) i;
            fw_version = word 8 (omega arith) i;
            fw_length = word 12 (omega arith) i;
            fw_crc = word 16 (omega arith) i;
          })
          ∙ info in
        rw crc_ok (
          ap
            (λ (o : FwInfo).
              (true, record { fw = o; is_valid = true; buf_ptr = fw_buf; len = o.fw_length }))
            described),
  )
    where
      asked : (b_request s.loader.mem s.udi == 0x05) ≡ true
      asked = ground (arith, get)

      answer : Mem
      answer = info_frame layout.crc32_ref_table s.udi.pdata s.loader.mem

  -- The device is recognised as the upgrader.
  pub is_fwu_exchange :
      (s : Usb Dev Chip)
      → b_request s.loader.mem s.udi ≡ is_fwu_request.request
      → (s1 : Usb Dev Chip) × (tn_usb_vendor_request_in ctl layout s ≡ some (true, s1))
        × (s1.udi.nbytes ≡ is_fwu_request.byte_count)
        × ((mbuf : Mem) → Holds s1.loader.mem s1.udi.pdata mbuf 8 → is_fwu mbuf ≡ true)
  unfolding tn_usb_vendor_request_in is_fwu
  is_fwu_exchange s ask = (
    record s {
      udi = record s.udi { nbytes = 8 };
      loader = record s.loader { mem = store_word s.loader.mem s.udi.pdata get_isfwu_ask };
    },
    rw (not_info, asked),
    refl,
    λ mbuf sent.
        let answer = store_word s.loader.mem s.udi.pdata 0x1234aa55 in
        let word : load_word answer s.udi.pdata ≡ load_word mbuf 0 =
          ground (arith, sent 0, sent 1, sent 2, sent 3) in
        let right : (load_word mbuf 0 == 0x1234aa55) ≡ true =
          (==_iff _ _).1
            (sym word ∙ load_word-store_word s.loader.mem s.udi.pdata 0x1234aa55 (omega arith)) in
        rw right,
  )
    where
      not_info : (b_request s.loader.mem s.udi == 0x05) ≡ false
      not_info = ground (arith, ask)

      asked : (b_request s.loader.mem s.udi == 0x16) ≡ true
      asked = ground (arith, ask)
