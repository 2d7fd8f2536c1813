-- ===== src/Host/HexFile/Load.antt =====
-- An image that is written as a hex file is loaded from it.
use usb_fwu.Base.{
  ℕ, zero, suc, ◌+◌, ◌^◌, ◌<◌, ◌≡◌, refl, ap, ap₂, ◌∙◌, arith, sltb, sub32, if◌then◌else◌, List, [],
  ◌∷◌, ◌++◌, length, length-append, drop, append-nil, append_assoc,
}
use usb_fwu.Host.FwuList.{FwuListinfo, fwu_list_get}
use usb_fwu.Host.FwuList.Contents.{IsValid}
use usb_fwu.Host.Hex.{ok}
use usb_fwu.Host.HexFile.{
  ChunkItem, HexState, chunk_at, process_record, proc_lines, start_state, proc_hex_file, write_at,
  output_loop, make_output_bin_file,
}
use usb_fwu.Host.HexFile.Clear.{clear_list-empty}
use usb_fwu.Host.HexFile.Print.{read_line_of, line_of, image_lines, image_of, AreBlocks}
use usb_fwu.Host.HexFile.Blocks.{
  IsLoading, block_lines, data_record-next, IsFresh, data_record-first,
}

image_lines-next :
    (base addr : ℕ) (image : List ℕ) (blocks : List (List ℕ)) (s : HexState)
    → IsLoading base image s
    → addr ≡ base + length image
    → addr + length (image_of blocks) < 2 ^ 32
    → AreBlocks blocks
    → (s' : HexState) × (proc_lines (image_lines addr blocks) s ≡ ok s')
      × IsLoading base (image ++ image_of blocks) s'
image_lines-next base addr image [] s w here fits h =
    let end : proc_lines (line_of 0 0 1 [] ∷ []) s ≡ ok s =
      unfold proc_lines process_record in
      rw (read_line_of 0 0 1 [] (omega arith) (omega arith) (omega arith) (omega arith) tt) in
    (s, end, rw (append-nil image) w)
image_lines-next base addr image (block ∷ blocks) s w here fits (some_bytes, small, bytes, more) =
    let size = length-append block (image_of blocks) in
    let (s1, stored, w1) = data_record-next base addr image block s w here (omega (arith, size)) in
    let (s2, read, w2) =
      image_lines-next base (addr + length block) (image ++ block) blocks s1 w1
        (omega (arith, length-append image block)) (omega (arith, size)) more in
    (
      s2,
      block_lines addr block (image_lines (addr + length block) blocks) s (omega arith) small bytes
          ∙ rw stored read,
      rw (← append_assoc image block (image_of blocks)) w2,
    )

drop-nil : (n : ℕ) → drop {A = ℕ} n [] ≡ []
drop-nil zero = refl
drop-nil (suc n) = refl

write_at-start : (bytes : List ℕ) → write_at 0 bytes [] ≡ bytes
unfolding write_at
write_at-start [] = refl
write_at-start (b ∷ bs) = rw (drop-nil (0 + length (b ∷ bs))) (append-nil (b ∷ bs))

output_loop-one :
    (n base : ℕ) (image : List ℕ) (s : HexState)
    → n ≡ 1
    → base < 2 ^ 32
    → IsLoading base image s
    → output_loop n 0 s 0 0 [] ≡ image
unfolding output_loop
output_loop-one zero base image s e fits w = absurd (omega arith)
output_loop-one (suc (suc n)) base image s e fits w = absurd (omega arith)
output_loop-one (suc zero) base image s e fits w =
    let item : chunk_at s.chunks (fwu_list_get s.g_file_list 0)
        ≡ record { start_addr = base; len = length image; file = image } =
      ap₂ chunk_at w.one w.entry in
    let origin : sub32 base base ≡ 0 = omega arith in
    ap
      (λ (c : ChunkItem).
        write_at
          (if sltb (sub32 c.start_addr c.start_addr) 0 then 0 else sub32 c.start_addr c.start_addr)
          c.file [])
      item
    ∙ rw origin (write_at-start image)

-- An image that is written as a hex file is loaded from it: over any list that was left valid and
-- with less than 2^30 entries, and for blocks of 1 to 255 bytes, at least one, from a base address on
-- and below 4 GB, `proc_hex_file` reads the lines of the blocks without an error and
-- `make_output_bin_file` puts out their bytes in order.
pub hex_file_load :
    (l : FwuListinfo) (line_data : List ℕ) (base : ℕ) (block : List ℕ) (blocks : List (List ℕ))
    → IsValid l
    → l.curr_capacity < 2 ^ 30
    → AreBlocks (block ∷ blocks)
    → base + length (image_of (block ∷ blocks)) < 2 ^ 32
    → (s : HexState) × (proc_hex_file l line_data (image_lines base (block ∷ blocks)) ≡ ok s)
      × ((make_output_bin_file s).0 ≡ image_of (block ∷ blocks))
unfolding proc_hex_file make_output_bin_file start_state
hex_file_load l line_data base block blocks w small (some_bytes, short, bytes, more) fits =
    let size = length-append block (image_of blocks) in
    let (valid, empty, same) = clear_list-empty l w small in
    let fresh : IsFresh (start_state l line_data) = record {
      no_chunks = refl;
      before = refl;
      no_segment = refl;
      valid = valid;
      no_items = empty;
      small = omega (arith, same);
    } in
    let (s1, stored, w1) =
      data_record-first base block (start_state l line_data) fresh some_bytes
        (omega (arith, size)) in
    let (s2, read, w2) =
      image_lines-next base (base + length block) block blocks s1 w1 refl (omega (arith, size))
        more in
    (
      s2,
      block_lines base block (image_lines (base + length block) blocks) (start_state l line_data)
            (omega arith) short bytes
          ∙ rw stored read,
      output_loop-one s2.g_file_list.num_elem base (block ++ image_of blocks) s2 w2.count
          (omega arith) w2,
    )
