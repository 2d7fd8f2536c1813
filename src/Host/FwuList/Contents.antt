-- ===== src/Host/FwuList/Contents.antt =====
-- What the operations of the list do to its contents.
use usb_fwu.Base.{
  ℕ, zero, suc, ◌+◌, ◌-◌, ◌^◌, ◌≤◌, ◌<◌, ◌≡◌, refl, ap, sym, ◌∙◌, arith, true, false, Bool-cases,
  inl, inr, ◌==◌, ltb, sltb, if◌then◌else◌, List, [], ◌∷◌, ◌++◌, length, take, drop, set, replicate,
  length-append, length-take, length-set, length-replicate, ==_iff,
}
use usb_fwu.Host.FwuList.{
  done, FwuListinfo, memmove, put_at, grow_delta, fwu_list_set_capacity, fwu_list_grow, make_room,
  fwu_list_add, fwu_list_insert, fwu_list_delete,
}

-- The pointers in use.
abbrev pub contents : FwuListinfo → List ℕ
contents l = take l.num_elem l.p_list

pub record IsValid (l : FwuListinfo) : Type 0 where
  pub fits : l.num_elem ≤ l.curr_capacity
  pub allocated : length l.p_list ≡ l.curr_capacity

module _ {ℓ} {A : Type ℓ} where
  length-drop : (n : ℕ) (xs : List A) → length (drop n xs) ≡ length xs - n
  length-drop zero xs = omega arith
  length-drop (suc n) [] = omega arith
  length-drop (suc n) (x ∷ xs) = omega (arith, length-drop n xs)

  take-append : (n : ℕ) (xs ys : List A) → n ≤ length xs → take n (xs ++ ys) ≡ take n xs
  take-append zero xs ys h = refl
  take-append (suc n) [] ys h = absurd (omega arith)
  take-append (suc n) (x ∷ xs) ys h = ap (λ (r : List A). x ∷ r) (take-append n xs ys (omega arith))

  take-take : (n : ℕ) (xs : List A) → take n (take n xs) ≡ take n xs
  take-take zero xs = refl
  take-take (suc n) [] = refl
  take-take (suc n) (x ∷ xs) = ap (λ (r : List A). x ∷ r) (take-take n xs)

  -- `n` entries in use, the last `k` of them moved up by one and `v` put before them
  take-set_moved :
      (p k n : ℕ) (xs : List A) (v : A)
      → n ≡ p + k
      → suc n ≤ length xs
      → take (suc n) (set (take (suc p) xs ++ (take k (drop p xs) ++ drop (suc n) xs)) p v)
        ≡ take p (take n xs) ++ (v ∷ drop p (take n xs))
  take-set_moved zero k n [] v e h = absurd (omega arith)
  take-set_moved zero k n (x ∷ xs) v e h =
      let same : k ≡ n = omega arith in
      rw same (
        ap (λ (r : List A). v ∷ r)
          (take-append n (take n (x ∷ xs)) (drop n xs) (omega (arith, length-take n (x ∷ xs)))
            ∙ take-take n (x ∷ xs)))
  take-set_moved (suc p) k n [] v e h = absurd (omega arith)
  take-set_moved (suc p) k zero (x ∷ xs) v e h = absurd (omega arith)
  take-set_moved (suc p) k (suc n) (x ∷ xs) v e h =
      ap (λ (r : List A). x ∷ r) (take-set_moved p k n xs v (omega arith) (omega arith))

  take-set_end :
      (n : ℕ) (xs : List A) (v : A)
      → suc n ≤ length xs
      → take (suc n) (set xs n v) ≡ take n (take n xs) ++ (v ∷ drop n (take n xs))
  take-set_end zero [] v h = absurd (omega arith)
  take-set_end zero (x ∷ xs) v h = refl
  take-set_end (suc n) [] v h = absurd (omega arith)
  take-set_end (suc n) (x ∷ xs) v h = ap (λ (r : List A). x ∷ r) (take-set_end n xs v (omega arith))

  -- the entries behind position `p` moved down by one
  take-moved_down :
      (p k n : ℕ) (xs : List A)
      → n ≡ p + k
      → suc n ≤ length xs
      → take n (take p xs ++ (take k (drop (suc p) xs) ++ drop n xs))
        ≡ take p (take (suc n) xs) ++ drop (suc p) (take (suc n) xs)
  take-moved_down zero k n [] e h = absurd (omega arith)
  take-moved_down zero k n (x ∷ xs) e h =
      let same : k ≡ n = omega arith in
      rw same (
        take-append n (take n xs) (drop n (x ∷ xs)) (omega (arith, length-take n xs))
        ∙ take-take n xs)
  take-moved_down (suc p) k n [] e h = absurd (omega arith)
  take-moved_down (suc p) k zero (x ∷ xs) e h = absurd (omega arith)
  take-moved_down (suc p) k (suc n) (x ∷ xs) e h =
      ap (λ (r : List A). x ∷ r) (take-moved_down p k n xs (omega arith) (omega arith))

take-last :
    (n : ℕ) (xs : List ℕ)
    → suc n ≤ length xs
    → take n xs ≡ take n (take (suc n) xs) ++ drop (suc n) (take (suc n) xs)
take-last zero [] h = absurd (omega arith)
take-last zero (x ∷ xs) h = refl
take-last (suc n) [] h = absurd (omega arith)
take-last (suc n) (x ∷ xs) h = ap (λ (r : List ℕ). x ∷ r) (take-last n xs (omega arith))

take-closed_up :
    (p k n : ℕ) (xs : List ℕ)
    → n ≡ p + k
    → suc n ≤ length xs
    → take n (if k == 0 then xs else memmove p (suc p) k xs)
      ≡ take p (take (suc n) xs) ++ drop (suc p) (take (suc n) xs)
take-closed_up p zero n xs e h = let last : p ≡ n = omega arith in rw last (take-last n xs h)
take-closed_up p (suc k) n xs e h =
    let some_left : (suc k == 0) ≡ false = ground arith in
    rw (some_left, ← e) (take-moved_down p (suc k) n xs e h)

length-memmove :
    (dst src n : ℕ) (xs : List ℕ)
    → dst + n ≤ length xs
    → src + n ≤ length xs
    → length (memmove dst src n xs) ≡ length xs
length-memmove dst src n xs p q =
    length-append (take dst xs) (take n (drop src xs) ++ drop (dst + n) xs)
    ∙ omega (
      arith,
      length-append (take n (drop src xs)) (drop (dst + n) xs),
      length-take dst xs,
      length-take n (drop src xs),
      length-drop src xs,
      length-drop (dst + n) xs,
    )

-- Room for one more entry, behind the same contents.
record HasRoom (l g : FwuListinfo) : Type 0 where
  count : g.num_elem ≡ l.num_elem
  room : l.num_elem < g.curr_capacity
  whole : length g.p_list ≡ g.curr_capacity
  same : contents g ≡ contents l

make_room-HasRoom :
    (l : FwuListinfo)
    → IsValid l
    → l.curr_capacity < 2 ^ 30
    → (g : FwuListinfo) × (make_room l ≡ (done, g)) × HasRoom l g
unfolding make_room fwu_list_grow fwu_list_set_capacity
make_room-HasRoom l w small = elim (Bool-cases (l.num_elem == l.curr_capacity)) [
  | inl full ↦
      let delta = grow_delta l.curr_capacity in
      let grows : (0 < delta) × (delta ≤ 2 ^ 30) = unfold grow_delta in ground arith in
      let new = l.curr_capacity + delta in
      let nonzero : (new == 0) ≡ false = ground arith in
      let not_less : (sltb new l.curr_capacity) ≡ false = ground arith in
      let more : (sltb l.curr_capacity new) ≡ true = ground arith in
      (
        record l { p_list = l.p_list ++ replicate (new - l.curr_capacity) 0; curr_capacity = new },
        rw full (rw (nonzero, not_less, more)),
        record {
          count = refl;
          room = omega (arith, (==_iff l.num_elem l.curr_capacity).0 full);
          whole =
              length-append l.p_list (replicate (new - l.curr_capacity) 0)
              ∙ omega (arith, w.allocated, length-replicate {A = ℕ} (new - l.curr_capacity) 0);
          same =
              take-append l.num_elem l.p_list (replicate (new - l.curr_capacity) 0)
                (omega (arith, w.allocated, w.fits));
        },
      )
  | inr free ↦ (
    l,
    rw free,
    record { count = refl; room = ground (arith, w.fits); whole = w.allocated; same = refl },
  )
]

put_at-contents :
    (l g : FwuListinfo) (pos ptr : ℕ)
    → HasRoom l g
    → pos ≤ l.num_elem
    → IsValid (put_at pos ptr g)
      × (contents (put_at pos ptr g) ≡ take pos (contents l) ++ (ptr ∷ drop pos (contents l)))
put_at-contents l g pos ptr r le =
    let added : g.num_elem + 1 ≡ suc g.num_elem = omega arith in
    let place : pos + 1 + (g.num_elem - pos) ≡ suc g.num_elem = omega (arith, r.count) in
    let next : pos + 1 ≡ suc pos = omega arith in
    let within : suc g.num_elem ≤ length g.p_list = omega (arith, r.room, r.whole, r.count) in
    elim (Bool-cases (ltb pos g.num_elem)) [
      | inl inside ↦
          let moved : List ℕ = memmove (pos + 1) pos (g.num_elem - pos) g.p_list in
          let size : length moved ≡ length g.p_list =
            length-memmove (pos + 1) pos (g.num_elem - pos) g.p_list (omega arith)
              (omega (arith, r.count)) in
          (
            record {
              fits = omega (arith, r.room, r.count);
              allocated = rw inside (length-set moved pos ptr ∙ size ∙ r.whole);
            },
            rw inside (
                rw (place, added, next)
                  (take-set_moved pos (g.num_elem - pos) g.num_elem g.p_list ptr
                      (omega (arith, r.count)) within
                    ∙ ap (λ (c : List ℕ). take pos c ++ (ptr ∷ drop pos c)) r.same)),
          )
      | inr last ↦
          let here : pos ≡ g.num_elem = ground (arith, r.count) in
          (
            record {
              fits = omega (arith, r.room, r.count);
              allocated = rw last (length-set g.p_list pos ptr ∙ r.whole);
            },
            rw last (
                rw (added, here)
                  (take-set_end g.num_elem g.p_list ptr within
                    ∙ ap (λ (c : List ℕ). take g.num_elem c ++ (ptr ∷ drop g.num_elem c)) r.same)),
          )
    ]

-- An entry inserted at a position inside the contents or right behind them stands there, with all
-- others in their order; a list of less than 2^30 entries has or gets the room.
pub fwu_list_insert_lem :
    (l : FwuListinfo) (pos ptr : ℕ)
    → IsValid l
    → l.curr_capacity < 2 ^ 30
    → pos ≤ l.num_elem
    → (l' : FwuListinfo) × (fwu_list_insert l pos ptr ≡ (done, l'))
      × IsValid l'
      × (l'.num_elem ≡ l.num_elem + 1)
      × (contents l' ≡ take pos (contents l) ++ (ptr ∷ drop pos (contents l)))
unfolding fwu_list_insert
fwu_list_insert_lem l pos ptr w small le =
    let (g, made, r) = make_room-HasRoom l w small in
    let (valid, c) = put_at-contents l g pos ptr r le in
    let not_negative : (sltb pos 0) ≡ false = ground (arith, w.fits) in
    let not_behind : (sltb l.num_elem pos) ≡ false = ground (arith, w.fits) in
    (put_at pos ptr g, rw (not_negative, not_behind, made), valid, omega (arith, r.count), c)

pub fwu_list_add_lem :
    (l : FwuListinfo) (ptr : ℕ)
    → IsValid l
    → l.curr_capacity < 2 ^ 30
    → (l' : FwuListinfo) × (fwu_list_add l ptr ≡ (done, l'))
      × IsValid l'
      × (l'.num_elem ≡ l.num_elem + 1)
      × (contents l' ≡ take l.num_elem (contents l) ++ (ptr ∷ drop l.num_elem (contents l)))
unfolding fwu_list_add
fwu_list_add_lem l ptr w small =
    let (g, made, r) = make_room-HasRoom l w small in
    let (valid, c) = put_at-contents l g l.num_elem ptr r (omega arith) in
    let last : (ltb l.num_elem g.num_elem) ≡ false = ground (arith, r.count) in
    let added : FwuListinfo = record g {
      p_list = set g.p_list l.num_elem ptr;
      num_elem = l.num_elem + 1;
    } in
    let same : added ≡ put_at l.num_elem ptr g = rw (last, r.count) in
    (added, rw made, rw same valid, refl, ap contents same ∙ c)

-- A deletion takes one entry away and keeps all others in their order.
pub fwu_list_delete_lem :
    (l : FwuListinfo) (pos : ℕ)
    → IsValid l
    → l.curr_capacity < 2 ^ 30
    → pos < l.num_elem
    → (l' : FwuListinfo) × (fwu_list_delete l pos ≡ (done, l'))
      × IsValid l'
      × (l'.num_elem + 1 ≡ l.num_elem)
      × (l'.curr_capacity ≡ l.curr_capacity)
      × (contents l' ≡ take pos (contents l) ++ drop (suc pos) (contents l))
unfolding fwu_list_delete
fwu_list_delete_lem l pos w small lt =
    let not_negative : (sltb pos 0) ≡ false = ground (arith, w.fits) in
    let inside : (sltb pos l.num_elem) ≡ true = ground (arith, w.fits) in
    let k = l.num_elem - (pos + 1) in
    let n = l.num_elem - 1 in
    let next : pos + 1 ≡ suc pos = omega arith in
    let count : l.num_elem ≡ suc n = omega arith in
    let place : pos + k ≡ n = omega arith in
    let moved : List ℕ = if k == 0 then l.p_list else memmove pos (pos + 1) k l.p_list in
    let size : length moved ≡ length l.p_list = ground (
      arith,
      length-memmove pos (pos + 1) k l.p_list (omega (arith, w.fits, w.allocated))
          (omega (arith, w.fits, w.allocated)),
    ) in
    (
      record l { p_list = moved; num_elem = n },
      rw (not_negative, inside),
      record { fits = omega (arith, w.fits); allocated = size ∙ w.allocated },
      omega arith,
      refl,
      ap (λ (q : ℕ). take n (if k == 0 then l.p_list else memmove pos q k l.p_list)) next
          ∙ take-closed_up pos k n l.p_list (omega arith) (omega (arith, w.fits, w.allocated))
          ∙ ap (λ (j : ℕ). take pos (take j l.p_list) ++ drop (suc pos) (take j l.p_list))
              (sym count),
    )
