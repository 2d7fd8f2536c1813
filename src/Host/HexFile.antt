-- ===== src/Host/HexFile.antt =====
-- fwl_src/usbfwu/fwu_hex_processing.cpp and LoadHexFile of fwu_utils.cpp: a hex file is read into
-- chunks of consecutive bytes, and these are put together to the image of the firmware.
pub mod Clear
pub mod Print
pub mod Blocks
pub mod Load
use Prim.Native.Nat.{Ordering}
use usb_fwu.Base.{
  ℕ, zero, suc, ◌+◌, ◌-◌, ◌*◌, ◌==◌, leb, ltb, sltb, sub32, if◌then◌else◌, ◌&&◌, ◌||◌, u32, bit_or,
  bit_and, Bool, true, false, Option, none, some, List, [], ◌∷◌, ◌++◌, length, get_or, set, take,
  drop, replicate,
}
use usb_fwu.Host.FwuList.{
  Rc, done, failed, bad_input_value, entry_dup, FwuListinfo, fwu_list_records, fwu_list_get,
  fwu_list_delete, not_insert_dup, fwu_list_insert_by_order,
}
use usb_fwu.Host.Hex.{
  HexErr, address_overlapping, could_not_add, file_not_defined, HexResult, ok, err, ◌>>=◌,
  HexRecord, read_line,
}

-- `CHUNKITEM`, with the bytes of its file, whose name is the address
pub record ChunkItem : Type 0 where
  pub start_addr : ℕ
  pub len : ℕ
  pub file : List ℕ

abbrev pub no_chunk : ChunkItem
no_chunk = record { start_addr = 0; len = 0; file = [] }

-- The static and the local variables of `proc_hex_file`. The items that `malloc` has given stand in
-- a list, and a pointer to one is its position counted from 1; `curr` is `curr_file` and
-- `pCurrChunkLen`, which point to the same item.
pub record HexState : Type 0 where
  pub line_data : List ℕ
  pub chunks : List ChunkItem
  pub g_file_list : FwuListinfo
  pub curr : Option ℕ
  pub prev_mem_addr : ℕ
  pub linear_base_addr : ℕ
  pub segment_addr : ℕ
  pub seg_start_to_run_addr : ℕ
  pub linear_start_to_run_addr : ℕ

abbrev pub chunk_at : List ChunkItem → ℕ → ChunkItem
chunk_at chunks p = get_or chunks (p - 1) no_chunk

unfoldable pub addr_compare_func : List ChunkItem → ℕ → ℕ → Ordering
addr_compare_func chunks p1 p2 =
    if ltb (chunk_at chunks p1).start_addr (chunk_at chunks p2).start_addr
    then Ordering.lt
    else if ltb (chunk_at chunks p2).start_addr (chunk_at chunks p1).start_addr
    then Ordering.gt
    else Ordering.eq

-- the test for an overlap with one item
abbrev pub overlaps : ChunkItem → ℕ → Bool
overlaps item mem_addr =
    (leb item.start_addr mem_addr && ltb mem_addr (sub32 (u32 (item.start_addr + item.len)) 1))
    || (item.len == 0 && mem_addr == item.start_addr)

-- `for(i=0; i < fwu_list_records(&gFileList); i++)`, with the rounds left
unfoldable pub overlap_loop : ℕ → ℕ → HexState → ℕ → Bool
overlap_loop zero i s mem_addr = false
overlap_loop (suc n) i s mem_addr =
    let p = fwu_list_get s.g_file_list i in
    let rest = overlap_loop n (i + 1) s mem_addr in
    if p == 0 then rest else if overlaps (chunk_at s.chunks p) mem_addr then true else rest

-- A search that reads a result without value does not come up: the list has an entry then.
abbrev pub added :
    HexState → List ChunkItem → ℕ → Option (Rc × FwuListinfo × ℕ) → HexResult HexState
added s chunks p (some (done, l, mode)) =
    ok (record s { chunks = chunks; g_file_list = l; curr = some p })
added s chunks p (some (failed, l, mode)) = err could_not_add
added s chunks p (some (bad_input_value, l, mode)) = err could_not_add
added s chunks p (some (entry_dup, l, mode)) = err could_not_add
added s chunks p none = err could_not_add

-- the new item of a data record that does not follow the one before
unfoldable pub open_chunk : HexState → ℕ → HexResult HexState
open_chunk s mem_addr =
    if overlap_loop (fwu_list_records s.g_file_list) 0 s mem_addr
    then err address_overlapping
    else let chunks = s.chunks ++ (record { start_addr = mem_addr; len = 0; file = [] } ∷ []) in
      let p = length s.chunks + 1 in
      added s chunks p
        (fwu_list_insert_by_order s.g_file_list p (addr_compare_func chunks) not_insert_dup)

-- `fputc` for each byte, which is taken to succeed, and the length counted up
unfoldable pub write_bytes : List ℕ → Option ℕ → List ChunkItem → HexResult (List ChunkItem)
write_bytes [] curr chunks = ok chunks
write_bytes (b ∷ bs) none chunks = err file_not_defined
write_bytes (b ∷ bs) (some p) chunks =
    let item = chunk_at chunks p in
    write_bytes bs (some p)
      (set chunks (p - 1) (record item { file = item.file ++ (b ∷ []); len = item.len + 1 }))

unfoldable pub data_record : HexState → HexRecord → HexResult HexState
data_record s r = do
  let mem_addr = u32 (s.linear_base_addr * 65536 + s.segment_addr * 16 + r.line_addr)
  s1 ← if mem_addr == s.prev_mem_addr then ok s else open_chunk s mem_addr
  chunks ← write_bytes r.bytes s1.curr s1.chunks
  ok (record s1 { chunks = chunks; prev_mem_addr = u32 (mem_addr + length r.bytes) })

-- two and four bytes of `line_data`, the highest first
abbrev pub half_of : List ℕ → ℕ
half_of d = bit_or (get_or d 0 0 * 256) (bit_and (get_or d 1 0) 0xff)

abbrev pub word_of_line : List ℕ → ℕ
word_of_line d =
    bit_or
      (bit_or
        (bit_or (bit_and (get_or d 0 0 * 16777216) 0xff000000)
          (bit_and (get_or d 1 0 * 65536) 0x00ff0000))
        (bit_and (get_or d 2 0 * 256) 0x0000ff00))
      (bit_and (get_or d 3 0) 0xff)

-- A record by its type; `true` tells that the loop is left.
unfoldable pub process_record : HexState → HexRecord → HexResult (Bool × HexState)
process_record s0 r =
    let s = record s0 { line_data = r.bytes ++ drop (length r.bytes) s0.line_data } in
    if r.rec_type == 0
    then (data_record s r >>= λ s1. ok (false, s1))
    else if r.rec_type == 1
    then ok (true, s)
    else if r.rec_type == 2
    then ok (false, record s { segment_addr = half_of s.line_data })
    else if r.rec_type == 3
    then ok (false, record s { seg_start_to_run_addr = word_of_line s.line_data })
    else if r.rec_type == 4
    then ok (false, record s { linear_base_addr = half_of s.line_data })
    else if r.rec_type == 5
    then ok (false, record s { linear_start_to_run_addr = word_of_line s.line_data })
    else ok (false, s)

-- `while(fgets(…) != NULL)`, over the lines that the file gives
unfoldable pub proc_lines : List (List ℕ) → HexState → HexResult HexState
proc_lines [] s = ok s
proc_lines (line ∷ lines) s =
    read_line line >>= λ r. process_record s r >>= λ o. if o.0 then ok o.1 else proc_lines lines o.1

-- `clear_list`, with the rounds left: the items are freed and their files deleted.
unfoldable pub clear_loop : ℕ → FwuListinfo → FwuListinfo
clear_loop zero l = l
clear_loop (suc n) l = if sltb 0 l.num_elem then clear_loop n (fwu_list_delete l 0).1 else l

unfoldable pub clear_list : FwuListinfo → FwuListinfo
unfolding clear_loop
clear_list l = clear_loop l.num_elem l

unfoldable pub start_state : FwuListinfo → List ℕ → HexState
unfolding clear_list
start_state l line_data = record {
  line_data = line_data;
  chunks = [];
  g_file_list = clear_list l;
  curr = none;
  prev_mem_addr = 0xffffffff;
  linear_base_addr = 0;
  segment_addr = 0;
  seg_start_to_run_addr = 0xffffffff;
  linear_start_to_run_addr = 0xffffffff;
}

-- `proc_hex_file` on a file that opens, from the list and the line buffer that were left before
unfoldable pub proc_hex_file : FwuListinfo → List ℕ → List (List ℕ) → HexResult HexState
unfolding proc_lines start_state
proc_hex_file l line_data lines = proc_lines lines (start_state l line_data)

-- `fwrite` at a position; a gap before it is filled with zeros.
unfoldable pub write_at : ℕ → List ℕ → List ℕ → List ℕ
write_at pos [] file = file
write_at pos (b ∷ bs) file =
    take pos (file ++ replicate (pos - length file) 0)
    ++ ((b ∷ bs) ++ drop (pos + length (b ∷ bs)) file)

-- `for(int i=0; i < fwu_list_records(&gFileList); i++)` of `make_output_bin_file`, with the rounds
-- left, the address of the first item, and the position and the bytes of the output file. `fseek`
-- does not move to a position that is negative as a long.
unfoldable pub output_loop : ℕ → ℕ → HexState → ℕ → ℕ → List ℕ → List ℕ
output_loop zero i s start_addr pos out = out
output_loop (suc n) i s start_addr pos out =
    let item = chunk_at s.chunks (fwu_list_get s.g_file_list i) in
    let start = if i == 0 then item.start_addr else start_addr in
    let file_addr = sub32 item.start_addr start in
    let at = if sltb file_addr 0 then pos else file_addr in
    output_loop n (i + 1) s start (at + length item.file) (write_at at item.file out)

unfoldable pub make_output_bin_file : HexState → List ℕ × FwuListinfo
unfolding output_loop
make_output_bin_file s =
    (output_loop (fwu_list_records s.g_file_list) 0 s 0 0 [], clear_list s.g_file_list)

-- `LoadHexFile`: the image, which goes to `FWBuf`, if it is not empty. The code does not check that
-- it fits there.
unfoldable pub load_hex_file : FwuListinfo → List ℕ → List (List ℕ) → Option (List ℕ)
unfolding proc_hex_file make_output_bin_file
load_hex_file l line_data lines = elim (proc_hex_file l line_data lines) [
  | err e ↦ none
  | ok s ↦
      let image = (make_output_bin_file s).0 in if ltb 0 (length image) then some image else none
]
