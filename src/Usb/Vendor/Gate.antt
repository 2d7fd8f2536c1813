-- ===== src/Usb/Vendor/Gate.antt =====
-- PUT_FW_INFO is taken with the right CRC only, and the answer to GET_FW_INFO is such a frame.
use usb_fwu.Base.{
  ℕ, ◌+◌, ◌≤◌, ◌<◌, ◌≡◌, ◌≢◌, ◌==◌, ==_iff, inl, inr, sym, ap, ◌∙◌, arith, Bool, Bool-cases, Option,
  none, some, true, false,
}
use usb_fwu.Memory.{Mem, load_word}
use usb_fwu.Crc.{calc_crc}
use usb_fwu.Crc.Spec.{crc32}
use usb_fwu.Crc.Table.{IsCrcTable}
use usb_fwu.Crc.Refine.{calc_crc_lem}
use usb_fwu.Crc.Command.{calc_crc-congr}
use usb_fwu.Image.{FwInfo, ram_start_addr}
use usb_fwu.Stream.{Layout}
use usb_fwu.Usb.{Controller, Usb}
use usb_fwu.Usb.Request.{b_request}
use usb_fwu.Usb.Vendor.{
  info_at, rom_info, info_frame, tn_usb_vendor_request_out, tn_usb_vendor_request_in,
}
use usb_fwu.Usb.Vendor.Frame.{info_frame_lem}

module _ (ctl : Controller) (layout : Layout) {Chip : Type 0} where
  open ctl use {Dev}

  -- With a table of CRC-32 and bytes in memory, PUT_FW_INFO sets the description of the firmware
  -- and the state of the main loop if the last four bytes of its frame are the CRC-32 of the sixty
  -- before; else it fails and changes nothing.
  pub tn_usb_vendor_request_out_lem :
      (s : Usb Dev Chip)
      → IsCrcTable layout.crc32_ref_table
      → ((a : ℕ) → s.loader.mem a < 256)
      → b_request s.loader.mem s.udi ≡ 0x10
      → let m = s.loader.mem in
        let frame = s.udi.pdata in
        let out = tn_usb_vendor_request_out ctl layout s in
        (crc32 m frame 60 ≡ load_word m (frame + 60)
          → out
            ≡ some (
              true,
              record s { loader = record s.loader { info = info_at m frame; g_state = 0x10 } },
            ))
        × (crc32 m frame 60 ≢ load_word m (frame + 60) → out ≡ some (false, s))
  unfolding tn_usb_vendor_request_out
  tn_usb_vendor_request_out_lem s t h put =
      let crc = calc_crc_lem layout.crc32_ref_table s.loader.mem s.udi.pdata 60 t h in
      let asked : (b_request s.loader.mem s.udi == 0x10) ≡ true = ground (arith, put) in
      (
        λ right. rw asked (rw ((==_iff _ _).1 (crc ∙ right))),
        λ wrong.
            elim (Bool-cases (
              calc_crc layout.crc32_ref_table s.loader.mem s.udi.pdata 60
              == load_word s.loader.mem (s.udi.pdata + 60))) [
                | inl same ↦ absurd (wrong (sym crc ∙ (==_iff _ _).0 same))
                | inr differs ↦ rw asked (rw differs)
              ],
      )

  -- What the upgrader says of the firmware in its flash, it takes back: with a table of CRC-32,
  -- bytes in memory and the frame in RAM, the frame that answers GET_FW_INFO is accepted when a
  -- later state has it in the same place under PUT_FW_INFO, and the globals then describe the
  -- firmware that was in the flash.
  pub vendor_request_out-in :
      (s : Usb Dev Chip)
      → IsCrcTable layout.crc32_ref_table
      → ((a : ℕ) → s.loader.mem a < 256)
      → ram_start_addr ≤ s.udi.pdata
      → b_request s.loader.mem s.udi ≡ 0x05
      → (s1 s2 : Usb Dev Chip) → tn_usb_vendor_request_in ctl layout s ≡ some (true, s1)
      → s2.udi.pdata ≡ s.udi.pdata
      → ((a : ℕ) → s.udi.pdata ≤ a → a < s.udi.pdata + 64 → s2.loader.mem a ≡ s1.loader.mem a)
      → b_request s2.loader.mem s2.udi ≡ 0x10
      → tn_usb_vendor_request_out ctl layout s2
        ≡ some (
          true,
          record s2 { loader = record s2.loader { info = rom_info s.loader.mem; g_state = 0x10 } },
        )
  unfolding tn_usb_vendor_request_out tn_usb_vendor_request_in
  vendor_request_out-in s t h in_ram get s1 s2 sent here same put =
      let (info, still, crc) =
        info_frame_lem layout.crc32_ref_table s.udi.pdata s.loader.mem t h in_ram in
      let ok : (calc_crc layout.crc32_ref_table s2.loader.mem s.udi.pdata 60
            == load_word s2.loader.mem (s.udi.pdata + 60))
          ≡ true =
        (==_iff _ _).1 (
          calc_crc-congr layout.crc32_ref_table s2.loader.mem sent_mem s.udi.pdata
            (λ a lo hi. agrees a lo (omega arith))
          ∙ crc
          ∙ sym (word 60 (omega arith))) in
      let described : info_at s2.loader.mem s.udi.pdata ≡ info_at sent_mem s.udi.pdata = λ i.
        record {
          fw_product_id = word 4 (omega arith) i;
          fw_version = word 8 (omega arith) i;
          fw_length = word 12 (omega arith) i;
          fw_crc = word 16 (omega arith) i;
        } in
      let ok' : (calc_crc layout.crc32_ref_table s2.loader.mem s2.udi.pdata 60
            == load_word s2.loader.mem (s2.udi.pdata + 60))
          ≡ true =
        rw here ok in
      let described' : info_at s2.loader.mem s2.udi.pdata ≡ rom_info s.loader.mem =
        rw here (described ∙ info) in
      rw (asked, ok')
        (ap
          (λ (o : FwInfo).
            some (true, record s2 { loader = record s2.loader { info = o; g_state = 0x10 } }))
          described')
    where
      asked : (b_request s2.loader.mem s2.udi == 0x10) ≡ true
      asked = ground (arith, put)

      asked_in : (b_request s.loader.mem s.udi == 0x05) ≡ true
      asked_in = ground (arith, get)

      sent_mem : Mem
      sent_mem = info_frame layout.crc32_ref_table s.udi.pdata s.loader.mem

      mem_of : Option (Bool × Usb Dev Chip) → Mem
      mem_of none = s.loader.mem
      mem_of (some (rc, r)) = r.loader.mem

      answered : s1.loader.mem ≡ sent_mem
      answered = sym (ap mem_of sent) ∙ rw asked_in

      agrees : (a : ℕ) → s.udi.pdata ≤ a → a < s.udi.pdata + 64 → s2.loader.mem a ≡ sent_mem a
      agrees a lo hi = same a lo hi ∙ ap (λ (m : Mem). m a) answered

      word :
          (k : ℕ)
          → k ≤ 60
          → load_word s2.loader.mem (s.udi.pdata + k) ≡ load_word sent_mem (s.udi.pdata + k)
      word k le = ground (
        arith,
        agrees (s.udi.pdata + k),
        agrees (s.udi.pdata + k + 1),
        agrees (s.udi.pdata + k + 2),
        agrees (s.udi.pdata + k + 3),
      )
