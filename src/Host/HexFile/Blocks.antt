-- ===== src/Host/HexFile/Blocks.antt =====
-- What the lines of one block of an image do to the chunks.
use Prim.Native.Nat.{Ordering}
use usb_fwu.Base.{
  ℕ, zero, suc, ◌+◌, ◌*◌, ◌/◌, ◌%◌, ◌^◌, ◌<◌, ◌≡◌, refl, ap, sym, ◌∙◌, arith, Bool, true, false,
  ◌==◌, ==_iff, every_below, every_below-true, sltb, if◌then◌else◌, u32, bit_or, bit_and, some,
  List, [], ◌∷◌, ◌++◌, length, length-append, get_or, take, drop, append-nil, append_assoc, ◌||◌,
  not,
}
use usb_fwu.Base.Digits.{bit_or_fields}
use usb_fwu.Host.FwuList.{
  is_null, FwuListinfo, done, fwu_list_get, fwu_list_add, not_insert_dup, fwu_list_insert_by_order,
}
use usb_fwu.Host.FwuList.Contents.{contents, IsValid, fwu_list_add_lem}
use usb_fwu.Host.Hex.{HexResult, ok, err, ◌>>=◌, HexRecord}
use usb_fwu.Host.Hex.Line.{AllBytes}
use usb_fwu.Host.HexFile.{
  ChunkItem, HexState, addr_compare_func, overlap_loop, open_chunk, added, write_bytes, data_record,
  process_record, proc_lines,
}
use usb_fwu.Host.HexFile.Print.{read_line_of, base_line, data_line}

-- While an image is loaded there is one chunk, which holds what has been read.
pub record IsLoading (base : ℕ) (image : List ℕ) (s : HexState) : Type 0 where
  pub one : s.chunks ≡ record { start_addr = base; len = length image; file = image } ∷ []
  pub current : s.curr ≡ some 1
  pub next : s.prev_mem_addr ≡ base + length image
  pub segment : s.segment_addr ≡ 0
  pub count : s.g_file_list.num_elem ≡ 1
  pub entry : fwu_list_get s.g_file_list 0 ≡ 1

write_bytes-one :
    (bs : List ℕ) (start : ℕ) (image : List ℕ)
    → write_bytes bs (some 1) (record { start_addr = start; len = length image; file = image } ∷ [])
      ≡ ok (record { start_addr = start; len = length (image ++ bs); file = image ++ bs } ∷ [])
unfolding write_bytes
write_bytes-one [] start image = rw (append-nil image)
write_bytes-one (b ∷ bs) start image =
    let longer : length image + 1 ≡ length (image ++ (b ∷ [])) =
      omega (arith, length-append image (b ∷ [])) in
    rw longer (
      write_bytes-one bs start (image ++ (b ∷ []))
      ∙ ap (λ (f : List ℕ). ok (record { start_addr = start; len = length f; file = f } ∷ []))
          (append_assoc image (b ∷ []) bs))

low_byte : every_below (λ b. bit_and b 0xff == b) 256 ≡ true
unfolding every_below
low_byte = refl

half-bytes : (high low : ℕ) → low < 256 → bit_or (high * 256) (bit_and low 0xff) ≡ high * 256 + low
half-bytes high low h =
    let same : bit_and low 0xff ≡ low =
      (==_iff (bit_and low 0xff) low).0
        (every_below-true (λ b. bit_and b 0xff == b) 256 low h low_byte) in
    rw same (bit_or_fields 8 high low h)

-- The state in which the data of a block is stored.
abbrev pub at_block : ℕ → List ℕ → HexState → HexState
at_block addr block s = record s {
  line_data =
      block
      ++ drop (length block) ((addr / 65536 / 256) ∷ (addr / 65536 % 256) ∷ drop 2 s.line_data);
  linear_base_addr = addr / 65536;
}

abbrev pub block_record : ℕ → List ℕ → HexRecord
block_record addr block = record { line_addr = addr % 65536; rec_type = 0; bytes = block }

abbrev stays : HexState → HexResult (Bool × HexState)
stays s = ok (false, s)

abbrev leaves : List (List ℕ) → Bool × HexState → HexResult HexState
leaves rest o = if o.0 then ok o.1 else proc_lines rest o.1

goes_on :
    (rest : List (List ℕ)) (o : HexResult HexState)
    → (o >>= stays >>= leaves rest) ≡ (o >>= proc_lines rest)
goes_on rest (ok s) = refl
goes_on rest (err e) = refl

-- What the two lines of a block do.
pub block_lines :
    (addr : ℕ) (block : List ℕ) (rest : List (List ℕ)) (s : HexState)
    → addr < 2 ^ 32
    → length block < 256
    → AllBytes block
    → proc_lines (base_line addr ∷ data_line addr block ∷ rest) s ≡ (
        data_record
          (at_block addr block s)
          (record { line_addr = addr % 65536; rec_type = 0; bytes = block })
        >>= λ s1. proc_lines rest s1)
unfolding proc_lines process_record
block_lines addr block rest s fits small h =
    let high = addr / 65536 / 256 in
    let low = addr / 65536 % 256 in
    let base : bit_or (high * 256) (bit_and low 0xff) ≡ addr / 65536 =
      half-bytes high low (omega arith) ∙ omega arith in
    let place : addr % 65536 / 256 * 256 + addr % 256 ≡ addr % 65536 = omega arith in
    rw
      (
        read_line_of 0 0 4 (high ∷ low ∷ []) (omega arith) (omega arith) (omega arith) (omega arith)
            (omega arith, (omega arith, tt)),
        read_line_of (addr % 65536 / 256) (addr % 256) 0 block (omega arith) (omega arith)
            (omega arith) small h,
        base,
        place,
      )
      (goes_on rest (
        data_record (at_block addr block s)
          (record { line_addr = addr % 65536; rec_type = 0; bytes = block })))

-- A block that follows the bytes read so far joins them.
pub data_record-next :
    (base addr : ℕ) (image block : List ℕ) (s : HexState)
    → IsLoading base image s
    → addr ≡ base + length image
    → addr + length block < 2 ^ 32
    → (s' : HexState) × (data_record (at_block addr block s) (block_record addr block) ≡ ok s')
      × IsLoading base (image ++ block) s'
unfolding data_record
data_record-next base addr image block s w here fits =
    let mem_addr : u32 (addr / 65536 * 65536 + s.segment_addr * 16 + addr % 65536) ≡ addr =
      omega (arith, w.segment) in
    let follows : (addr == s.prev_mem_addr) ≡ true =
      (==_iff addr s.prev_mem_addr).1 (here ∙ sym w.next) in
    let end : u32 (addr + length block) ≡ base + length (image ++ block) =
      omega (arith, length-append image block) in
    (
      record s {
        line_data = (at_block addr block s).line_data;
        linear_base_addr = addr / 65536;
        chunks =
            record { start_addr = base; len = length (image ++ block); file = image ++ block } ∷ [];
        prev_mem_addr = u32 (addr + length block);
      },
      rw (mem_addr, follows, w.current, w.one, write_bytes-one block base image),
      record {
        one = refl;
        current = w.current;
        next = end;
        segment = w.segment;
        count = w.count;
        entry = w.entry;
      },
    )

overlap_none : (n addr : ℕ) (s : HexState) → n ≡ 0 → overlap_loop n 0 s addr ≡ false
unfolding overlap_loop
overlap_none n addr s e = rw e

insert_by_order-empty :
    (l l' : FwuListinfo) (p : ℕ) (compare : ℕ → ℕ → Ordering)
    → l.num_elem ≡ 0
    → fwu_list_add l p ≡ (done, l')
    → fwu_list_insert_by_order l p compare not_insert_dup ≡ some (done, l', not_insert_dup)
unfolding fwu_list_insert_by_order
insert_by_order-empty l l' p compare e put =
    let none_in : sltb 0 l.num_elem ≡ false = rw e in rw none_in (rw put)

get-one :
    (n : ℕ) (xs ys : List ℕ)
    → n ≡ 1
    → take n xs ≡ 1 ∷ ys
    → (if is_null xs || sltb 0 0 || not (sltb 0 n) then 0 else get_or xs 0 0) ≡ 1
get-one zero xs ys e h = absurd (omega arith)
get-one (suc n) [] ys e h = cc
get-one (suc n) (x ∷ xs) ys e h =
    let here : x ≡ 1 = ap (λ (l : List ℕ). get_or l 0 0) h in
    let inside : sltb 0 (suc n) ≡ true = rw e in rw inside here

-- The first block opens the chunk.
open_chunk-first :
    (addr : ℕ) (s : HexState)
    → s.chunks ≡ []
    → IsValid s.g_file_list
    → s.g_file_list.num_elem ≡ 0
    → s.g_file_list.curr_capacity < 2 ^ 30
    → (l : FwuListinfo) × (open_chunk s addr
        ≡ ok (record s {
          chunks = record { start_addr = addr; len = 0; file = [] } ∷ [];
          g_file_list = l;
          curr = some 1;
        }))
      × (l.num_elem ≡ 1)
      × (fwu_list_get l 0 ≡ 1)
unfolding open_chunk fwu_list_get
open_chunk-first addr s fresh w empty small =
    let (l, put, valid, count, c) = fwu_list_add_lem s.g_file_list 1 w small in
    let one : l.num_elem ≡ 1 = omega (arith, count, empty) in
    let apart = overlap_none s.g_file_list.num_elem addr s empty in
    let held : take l.num_elem l.p_list ≡ 1 ∷ contents s.g_file_list =
      c
      ∙ ap (λ (k : ℕ). take k (contents s.g_file_list) ++ (1 ∷ drop k (contents s.g_file_list)))
          empty in
    (
      l,
      rw apart (
          ap (opened addr s) fresh
          ∙ ap (added s (record { start_addr = addr; len = 0; file = [] } ∷ []) 1) (
              insert_by_order-empty s.g_file_list l 1
                (addr_compare_func (record { start_addr = addr; len = 0; file = [] } ∷ [])) empty
                put)),
      one,
      get-one l.num_elem l.p_list (contents s.g_file_list) one held,
    )
  where
    opened : ℕ → HexState → List ChunkItem → HexResult HexState
    opened a t cs =
        added t (cs ++ (record { start_addr = a; len = 0; file = [] } ∷ [])) (length cs + 1) (
          fwu_list_insert_by_order t.g_file_list (length cs + 1)
            (addr_compare_func (cs ++ (record { start_addr = a; len = 0; file = [] } ∷ [])))
            not_insert_dup)

-- A state in which nothing has been read.
pub record IsFresh (s : HexState) : Type 0 where
  pub no_chunks : s.chunks ≡ []
  pub before : s.prev_mem_addr ≡ 0xffffffff
  pub no_segment : s.segment_addr ≡ 0
  pub valid : IsValid s.g_file_list
  pub no_items : s.g_file_list.num_elem ≡ 0
  pub small : s.g_file_list.curr_capacity < 2 ^ 30

pub data_record-first :
    (addr : ℕ) (block : List ℕ) (s : HexState)
    → IsFresh s
    → 0 < length block
    → addr + length block < 2 ^ 32
    → (s' : HexState) × (data_record (at_block addr block s) (block_record addr block) ≡ ok s')
      × IsLoading addr block s'
unfolding data_record
data_record-first addr block s w some_bytes fits =
    let mem_addr : u32 (addr / 65536 * 65536 + s.segment_addr * 16 + addr % 65536) ≡ addr =
      omega (arith, w.no_segment) in
    let apart : (addr == s.prev_mem_addr) ≡ false = ground (arith, w.before) in
    let (l, opens, count, entry) =
      open_chunk-first addr (at_block addr block s) w.no_chunks w.valid w.no_items w.small in
    (
      record s {
        line_data = (at_block addr block s).line_data;
        linear_base_addr = addr / 65536;
        chunks = record { start_addr = addr; len = length block; file = block } ∷ [];
        g_file_list = l;
        curr = some 1;
        prev_mem_addr = u32 (addr + length block);
      },
      rw (mem_addr, apart, opens, write_bytes-one block addr []),
      record {
        one = refl;
        current = refl;
        next = omega arith;
        segment = w.no_segment;
        count = count;
        entry = entry;
      },
    )
