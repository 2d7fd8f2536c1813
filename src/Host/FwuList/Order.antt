-- ===== src/Host/FwuList/Order.antt =====
-- The ordered insertion.
use Prim.Native.Nat.{Ordering}
use usb_fwu.Base.{
  ℕ, zero, suc, ◌+◌, ◌-◌, ◌^◌, ◌≤◌, ◌<◌, ◌≡◌, refl, ap, sym, ◌∙◌, arith, false, Bool-cases, inl,
  inr, ◌⊎◌, ◌==◌, ltb, sltb, Option, none, some, List, [], ◌∷◌, ◌++◌, length, length-take, get_or,
  take, drop,
}
use usb_fwu.Host.FwuList.{
  Rc, done, entry_dup, FwuListinfo, Srch, equate, more, less, error, search_loop, fwu_list_search,
  insert_found, not_insert_dup, fwu_list_insert_by_order,
}
use usb_fwu.Host.FwuList.Contents.{contents, IsValid, fwu_list_insert_lem, fwu_list_add_lem}
use usb_fwu.Host.FwuList.Search.{by_key, Found, search_loop-Found}

-- The keys of the contents grow strictly.
abbrev pub IsAscending : (ℕ → ℕ) → FwuListinfo → Type 0
IsAscending key l =
    (i j : ℕ) → i < j → j < l.num_elem → key (get_or l.p_list i 0) < key (get_or l.p_list j 0)

-- An entry with the key of the item, at a position.
abbrev pub HasKey : (ℕ → ℕ) → ℕ → FwuListinfo → ℕ → Type 0
HasKey key item l i = (i < l.num_elem) × (key (get_or l.p_list i 0) ≡ key item)

-- The position at which an item belongs.
abbrev pub Belongs : (ℕ → ℕ) → ℕ → FwuListinfo → ℕ → Type 0
Belongs key item l p =
    (p ≤ l.num_elem)
    × ((i : ℕ) → i < p → i < l.num_elem → key (get_or l.p_list i 0) < key item)
    × ((i : ℕ) → p ≤ i → i < l.num_elem → key item < key (get_or l.p_list i 0))

get_or-take : (n i : ℕ) (xs : List ℕ) → i < n → get_or (take n xs) i 0 ≡ get_or xs i 0
get_or-take zero i xs h = absurd (omega arith)
get_or-take (suc n) i [] h = refl
get_or-take (suc n) zero (x ∷ xs) h = refl
get_or-take (suc n) (suc i) (x ∷ xs) h = get_or-take n i xs (omega arith)

get_or-before :
    (v p i : ℕ) (xs : List ℕ)
    → i < p
    → p ≤ length xs
    → get_or (take p xs ++ (v ∷ drop p xs)) i 0 ≡ get_or xs i 0
get_or-before v zero i xs h k = absurd (omega arith)
get_or-before v (suc p) i [] h k = absurd (omega arith)
get_or-before v (suc p) zero (x ∷ xs) h k = refl
get_or-before v (suc p) (suc i) (x ∷ xs) h k = get_or-before v p i xs (omega arith) (omega arith)

get_or-here :
    (v p : ℕ) (xs : List ℕ) → p ≤ length xs → get_or (take p xs ++ (v ∷ drop p xs)) p 0 ≡ v
get_or-here v zero xs k = refl
get_or-here v (suc p) [] k = absurd (omega arith)
get_or-here v (suc p) (x ∷ xs) k = get_or-here v p xs (omega arith)

get_or-behind :
    (v p i : ℕ) (xs : List ℕ)
    → p ≤ i
    → p ≤ length xs
    → get_or (take p xs ++ (v ∷ drop p xs)) (suc i) 0 ≡ get_or xs i 0
get_or-behind v zero i xs h k = refl
get_or-behind v (suc p) i [] h k = absurd (omega arith)
get_or-behind v (suc p) zero (x ∷ xs) h k = absurd (omega arith)
get_or-behind v (suc p) (suc i) (x ∷ xs) h k = get_or-behind v p i xs (omega arith) (omega arith)

-- The contents with the item put in at its place ascend again.
insert-IsAscending :
    (key : ℕ → ℕ) (item p : ℕ) (l l' : FwuListinfo)
    → IsValid l
    → IsAscending key l
    → Belongs key item l p
    → l'.num_elem ≡ l.num_elem + 1
    → contents l' ≡ take p (contents l) ++ (item ∷ drop p (contents l))
    → IsAscending key l'
insert-IsAscending key item p l l' w asc (le, b, a) count c i j lt below =
    elim (Bool-cases (ltb j p)) [
      | inl j_before ↦
          let jp : j < p = ground arith in
          omega (arith, before i (omega arith), before j jp, asc i j lt (omega arith))
      | inr j_rest ↦ elim (Bool-cases (j == p)) [
        | inl j_here ↦
            let jp : j ≡ p = ground arith in
            omega (arith, before i (omega arith), here j jp, b i (omega arith) (omega arith))
        | inr j_behind ↦
            let jp : p < j = ground arith in
            elim (Bool-cases (ltb i p)) [
              | inl i_before ↦
                  let ip : i < p = ground arith in
                  omega (
                    arith,
                    before i ip,
                    behind j jp (omega arith),
                    asc i (j - 1) (omega arith) (omega arith),
                  )
              | inr i_rest ↦ elim (Bool-cases (i == p)) [
                | inl i_here ↦
                    let ip : i ≡ p = ground arith in
                    omega (
                      arith,
                      here i ip,
                      behind j jp (omega arith),
                      a (j - 1) (omega arith) (omega arith),
                    )
                | inr i_behind ↦
                    let ip : p < i = ground arith in
                    omega (
                      arith,
                      behind i ip (omega arith),
                      behind j jp (omega arith),
                      asc (i - 1) (j - 1) (omega arith) (omega arith),
                    )
              ]
            ]
      ]
    ]
  where
    size : length (contents l) ≡ l.num_elem
    size = length-take l.num_elem l.p_list ∙ omega (arith, w.fits, w.allocated)

    entry :
        (k : ℕ)
        → k < l.num_elem + 1
        → get_or l'.p_list k 0 ≡ get_or (take p (contents l) ++ (item ∷ drop p (contents l))) k 0
    entry k h =
        sym (get_or-take l'.num_elem k l'.p_list (omega (arith, count)))
        ∙ ap (λ (xs : List ℕ). get_or xs k 0) c

    before : (k : ℕ) → k < p → key (get_or l'.p_list k 0) ≡ key (get_or l.p_list k 0)
    before k h = ap key (
        entry k (omega arith)
        ∙ get_or-before item p k (contents l) h (omega (arith, size))
        ∙ get_or-take l.num_elem k l.p_list (omega arith))

    here : (k : ℕ) → k ≡ p → key (get_or l'.p_list k 0) ≡ key item
    here k e =
        rw e
          (ap key (entry p (omega arith) ∙ get_or-here item p (contents l) (omega (arith, size))))

    behind :
        (k : ℕ)
        → p < k
        → k < l.num_elem + 1
        → key (get_or l'.p_list k 0) ≡ key (get_or l.p_list (k - 1) 0)
    behind k h lt =
        let up : suc (k - 1) ≡ k = omega arith in
        ap key (
          entry k lt
          ∙ ap (λ (q : ℕ). get_or (take p (contents l) ++ (item ∷ drop p (contents l))) q 0)
              (sym up)
          ∙ get_or-behind item p (k - 1) (contents l) (omega arith) (omega (arith, size))
          ∙ get_or-take l.num_elem (k - 1) l.p_list (omega arith))

-- What an insertion by order without duplicates may do: find the key, or put the item in.
abbrev pub Inserted : (ℕ → ℕ) → ℕ → FwuListinfo → Option (Rc × FwuListinfo × ℕ) → Type 0
Inserted key item l out =
    ((i : ℕ) × HasKey key item l i × (out ≡ some (entry_dup, l, i)))
    ⊎ ((p : ℕ) × (l' : FwuListinfo) × (out ≡ some (done, l', not_insert_dup))
        × Belongs key item l p
        × (contents l' ≡ take p (contents l) ++ (item ∷ drop p (contents l)))
        × IsValid l'
        × (l'.num_elem ≡ l.num_elem + 1)
        × IsAscending key l')

insert_found-Inserted :
    (key : ℕ → ℕ) (item : ℕ) (l : FwuListinfo)
    → IsValid l
    → l.curr_capacity < 2 ^ 30
    → IsAscending key l
    → (o : Option Srch) → Found key item l.p_list l.num_elem o
    → Inserted key item l
        (elim o [ none ↦ none | some r ↦ some (insert_found l item not_insert_dup r) ])
unfolding insert_found
insert_found-Inserted key item l w small asc none f = elim f [ ]
insert_found-Inserted key item l w small asc (some error) f = elim f [ ]
insert_found-Inserted key item l w small asc (some (equate i)) f = inl (i, f, refl)
insert_found-Inserted key item l w small asc (some (more i)) (lt, b, a) =
    let (l', put, valid, count, c) = fwu_list_insert_lem l i item w small (omega arith) in
    let place : Belongs key item l i = (omega arith, b, a) in
    inr (
      i,
      l',
      rw put,
      place,
      c,
      valid,
      count,
      insert-IsAscending key item i l l' w asc place count c,
    )
insert_found-Inserted key item l w small asc (some (less i)) (lt, b, a) =
    let (l', put, valid, count, c) = fwu_list_insert_lem l (i + 1) item w small (omega arith) in
    let place : Belongs key item l (i + 1) = (omega arith, b, a) in
    let within : sltb l.num_elem (i + 1) ≡ false = ground (arith, w.fits) in
    inr (
      i + 1,
      l',
      rw within (rw put),
      place,
      c,
      valid,
      count,
      insert-IsAscending key item (i + 1) l l' w asc place count c,
    )

-- Into a valid list of less than 2^30 entries with ascending keys, the insertion by order ends and
-- either finds an entry with the item's key, and then changes nothing and tells its position, or
-- puts the item in at the position where it belongs; the list is then valid and ascends again.
pub fwu_list_insert_by_order_lem :
    (key : ℕ → ℕ) (item : ℕ) (l : FwuListinfo)
    → IsValid l
    → l.curr_capacity < 2 ^ 30
    → IsAscending key l
    → Inserted key item l (fwu_list_insert_by_order l item (by_key key) not_insert_dup)
unfolding fwu_list_insert_by_order fwu_list_search
fwu_list_insert_by_order_lem key item l w small asc = elim (Bool-cases (sltb 0 l.num_elem)) [
  | inr empty ↦
      let none_in : l.num_elem ≡ 0 = ground (arith, w.fits) in
      let (l', added, valid, count, c) = fwu_list_add_lem l item w small in
      let place : Belongs key item l l.num_elem =
        (omega arith, λ i p q. absurd (omega arith), λ i p q. absurd (omega arith)) in
      inr (
        l.num_elem,
        l',
        rw empty (rw added),
        place,
        c,
        valid,
        count,
        insert-IsAscending key item l.num_elem l l' w asc place count c,
      )
  | inl some_in ↦
      let positive : 0 < l.num_elem = ground (arith, w.fits) in
      let nonzero : (l.num_elem == 0) ≡ false = ground arith in
      rw (some_in, nonzero)
        (insert_found-Inserted key item l w small asc
          (search_loop (l.num_elem + 1) (by_key key item) l.p_list 0 (l.num_elem - 1) 0 Ordering.eq)
          (search_loop-Found key item l.p_list l.num_elem asc (l.num_elem + 1) 0 (l.num_elem - 1) 0
            Ordering.eq (omega arith) (omega arith) (omega arith) (λ i p q. absurd (omega arith))
            (λ i p q. absurd (omega arith)) (omega arith)))
]
