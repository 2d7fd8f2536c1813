-- ===== src/Host/FwuList.antt =====
-- fwl_src/usbfwu/fwu_list.cpp: a growing array of pointers with a count, and its ordered insertion.
pub mod Contents
pub mod Search
pub mod Order
use Prim.Native.Nat.{Ordering}
use usb_fwu.Base.{
  ℕ, zero, suc, ◌+◌, ◌-◌, ◌*◌, ◌/◌, ◌==◌, leb, ltb, sltb, if◌then◌else◌, ◌||◌, ◌&&◌, not, Bool,
  true, false, Option, none, some, List, [], ◌∷◌, ◌++◌, length, get_or, set, take, drop, replicate,
}

-- The results 0, -1, ERR_BAD_INPUT_VALUE and ERR_ENTRY_DUP.
pub data Rc : Type 0 where
  done : Rc
  failed : Rc
  bad_input_value : Rc
  entry_dup : Rc

-- `FWU_LISTINFO`. `p_list` is the allocated array, with no entry if it is NULL; a pointer is a number
-- and NULL is 0.
pub record FwuListinfo : Type 0 where
  pub curr_capacity : ℕ
  pub num_elem : ℕ
  pub p_list : List ℕ

-- `memmove` of `n` entries
abbrev pub memmove : ℕ → ℕ → ℕ → List ℕ → List ℕ
memmove dst src n xs = take dst xs ++ (take n (drop src xs) ++ drop (dst + n) xs)

abbrev pub is_null : List ℕ → Bool
is_null [] = true
is_null (x ∷ xs) = false

abbrev pub fwu_list_init : FwuListinfo
fwu_list_init = record { curr_capacity = 0; num_elem = 0; p_list = [] }

abbrev pub fwu_list_records : FwuListinfo → ℕ
fwu_list_records l = l.num_elem

-- The capacities are ints; `GlobalAlloc` is taken to succeed, as the code takes it.
unfoldable pub fwu_list_set_capacity : FwuListinfo → ℕ → Rc × FwuListinfo
fwu_list_set_capacity l new_capacity =
    if new_capacity == 0
    then (done, record l { p_list = []; curr_capacity = 0 })
    else if sltb new_capacity l.curr_capacity && sltb 0 new_capacity
    then (done, record l { p_list = take new_capacity l.p_list; curr_capacity = new_capacity })
    else if sltb l.curr_capacity new_capacity
    then (
      done,
      record l {
        p_list = l.p_list ++ replicate (new_capacity - l.curr_capacity) 0;
        curr_capacity = new_capacity;
      },
    )
    else (failed, l)

unfoldable pub grow_delta : ℕ → ℕ
grow_delta capacity = if ltb 64 capacity then capacity / 4 else if ltb 8 capacity then 16 else 4

unfoldable pub fwu_list_grow : FwuListinfo → Rc × FwuListinfo
unfolding fwu_list_set_capacity grow_delta
fwu_list_grow l = fwu_list_set_capacity l (l.curr_capacity + grow_delta l.curr_capacity)

-- What follows a growth that has succeeded; else its result is passed on.
abbrev pub if_done : Rc × FwuListinfo → (FwuListinfo → Rc × FwuListinfo) → Rc × FwuListinfo
if_done (done, l) k = k l
if_done (failed, l) k = (failed, l)
if_done (bad_input_value, l) k = (bad_input_value, l)
if_done (entry_dup, l) k = (entry_dup, l)

-- `if(num_elem == curr_capacity) rc = fwu_list_grow(lst_i);`
unfoldable pub make_room : FwuListinfo → Rc × FwuListinfo
unfolding fwu_list_grow
make_room l = if l.num_elem == l.curr_capacity then fwu_list_grow l else (done, l)

unfoldable pub fwu_list_add : FwuListinfo → ℕ → Rc × FwuListinfo
unfolding make_room
fwu_list_add l ptr =
    if_done (make_room l)
      (λ g. (done, record g { p_list = set g.p_list l.num_elem ptr; num_elem = l.num_elem + 1 }))

-- the move of the entries behind the position, and the store
abbrev pub put_at : ℕ → ℕ → FwuListinfo → FwuListinfo
put_at pos ptr g = record g {
  p_list =
      set
        (if ltb pos g.num_elem then memmove (pos + 1) pos (g.num_elem - pos) g.p_list else g.p_list)
        pos ptr;
  num_elem = g.num_elem + 1;
}

unfoldable pub fwu_list_insert : FwuListinfo → ℕ → ℕ → Rc × FwuListinfo
unfolding make_room
fwu_list_insert l pos ptr =
    if sltb pos 0 || sltb l.num_elem pos
    then (bad_input_value, l)
    else if_done (make_room l) (λ g. (done, put_at pos ptr g))

unfoldable pub fwu_list_delete : FwuListinfo → ℕ → Rc × FwuListinfo
fwu_list_delete l pos = if sltb pos 0 || not (sltb pos l.num_elem) then (bad_input_value, l) else (
  done,
  record l {
    p_list =
        if l.num_elem - (pos + 1) == 0
        then l.p_list
        else memmove pos (pos + 1) (l.num_elem - (pos + 1)) l.p_list;
    num_elem = l.num_elem - 1;
  },
)

unfoldable pub fwu_list_get : FwuListinfo → ℕ → ℕ
fwu_list_get l pos =
    if is_null l.p_list || sltb pos 0 || not (sltb pos l.num_elem) then 0 else get_or l.p_list pos 0

-- The code tests `pos1` twice, and not `pos2`, against the count.
unfoldable pub fwu_list_exchange : FwuListinfo → ℕ → ℕ → Rc × FwuListinfo
fwu_list_exchange l pos1 pos2 =
    if is_null l.p_list
      || sltb pos1 0
      || sltb pos2 0
      || not (sltb pos1 l.num_elem)
      || not (sltb pos1 l.num_elem)
    then (bad_input_value, l)
    else (
      done,
      record l {
        p_list = set (set l.p_list pos1 (get_or l.p_list pos2 0)) pos2 (get_or l.p_list pos1 0);
      },
    )

-- SRCH_EQUATE, SRCH_MORE and SRCH_LESS with the index, and SRCH_ERROR
pub data Srch : Type 0 where
  equate : ℕ → Srch
  more : ℕ → Srch
  less : ℕ → Srch
  error : Srch

-- the end of `fwu_list_search`, by the sign of the last comparison
abbrev pub search_end : ℕ → Ordering → Srch
search_end mid Ordering.lt = more mid
search_end mid Ordering.gt = less mid
search_end mid Ordering.eq = error

-- `while(low <= high)`: of a comparison's result the sign is kept. `mid` and `cond` are those of the
-- round before, and `none` is a loop that has not ended within the fuel.
unfoldable pub search_loop : ℕ → (ℕ → Ordering) → List ℕ → ℕ → ℕ → ℕ → Ordering → Option Srch
search_loop zero compare_to p_list low high mid cond = none
search_loop (suc fuel) compare_to p_list low high mid cond =
    let m = (low + high) / 2 in
    let left =
      if m == 0
      then some (search_end m Ordering.lt)
      else search_loop fuel compare_to p_list low (m - 1) m Ordering.lt in
    let right = search_loop fuel compare_to p_list (m + 1) high m Ordering.gt in
    if leb low high
    then elim (compare_to (get_or p_list m 0)) [
      | Ordering.lt ↦ left
      | Ordering.gt ↦ right
      | Ordering.eq ↦ some (equate m)
    ]
    else some (search_end mid cond)

-- With no entry the code reads a result that has no value: `none`.
unfoldable pub fwu_list_search : FwuListinfo → ℕ → (ℕ → ℕ → Ordering) → Option Srch
unfolding search_loop
fwu_list_search l item compare =
    if l.num_elem == 0
    then none
    else search_loop (l.num_elem + 1) (compare item) l.p_list 0 (l.num_elem - 1) 0 Ordering.eq

abbrev pub insert_dup : ℕ
insert_dup = 1

abbrev pub not_insert_dup : ℕ
not_insert_dup = 2

-- the switch of `fwu_list_insert_by_order` on the result of the search; the last part is what
-- `* insert_mode` is left with
unfoldable pub insert_found : FwuListinfo → ℕ → ℕ → Srch → Rc × FwuListinfo × ℕ
insert_found l item mode (equate i) =
    if mode == insert_dup
    then (let (rc, g) = fwu_list_insert l i item in (rc, g, mode))
    else if mode == not_insert_dup
    then (entry_dup, l, i)
    else (bad_input_value, l, mode)
insert_found l item mode (more i) = let (rc, g) = fwu_list_insert l i item in (rc, g, mode)
insert_found l item mode (less i) =
    let (rc, g) =
      if sltb l.num_elem (i + 1) then fwu_list_add l item else fwu_list_insert l (i + 1) item in
    (rc, g, mode)
insert_found l item mode error = (failed, l, mode)

unfoldable pub fwu_list_insert_by_order :
    FwuListinfo → ℕ → (ℕ → ℕ → Ordering) → ℕ → Option (Rc × FwuListinfo × ℕ)
unfolding fwu_list_search
fwu_list_insert_by_order l item compare mode =
    if sltb 0 l.num_elem
    then elim (fwu_list_search l item compare) [
      | none ↦ none
      | some r ↦ some (insert_found l item mode r)
    ]
    else let (rc, g) = fwu_list_add l item in some (rc, g, mode)
