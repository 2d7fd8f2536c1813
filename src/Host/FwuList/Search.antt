-- ===== src/Host/FwuList/Search.antt =====
-- The binary search of the list, for a comparison of keys.
use Prim.Native.Nat.{Ordering, compare}
use usb_fwu.Base.{
  ℕ, zero, suc, ◌+◌, ◌-◌, ◌/◌, ◌≤◌, ◌<◌, ◌≡◌, refl, sym, arith, Bool-cases, inl, inr, ◌⊎◌, ◌==◌,
  leb, ltb, if◌then◌else◌, Option, none, some, List, get_or,
}
use usb_fwu.Host.FwuList.{Srch, equate, more, less, error, search_end, search_loop}

compare-lt : (a b : ℕ) → a < b → compare a b ≡ Ordering.lt
compare-lt a b h = ground arith

compare-gt : (a b : ℕ) → b < a → compare a b ≡ Ordering.gt
compare-gt a b h = ground arith

compare-eq : (a b : ℕ) → a ≡ b → compare a b ≡ Ordering.eq
compare-eq a b h = ground arith

lt_cases : (a b : ℕ) → (a < b) ⊎ ((b < a) ⊎ (a ≡ b))
lt_cases a b = elim (Bool-cases (ltb a b)) [
  | inl e ↦ inl (ground arith)
  | inr e ↦
      inr (elim (Bool-cases (ltb b a)) [ inl f ↦ inl (ground arith) | inr f ↦ inr (ground arith) ])
]

-- Pointers compared by a key of what they point to.
abbrev pub by_key : (ℕ → ℕ) → ℕ → ℕ → Ordering
by_key key a b = compare (key a) (key b)

module _ (key : ℕ → ℕ) (item : ℕ) (xs : List ℕ) (n : ℕ) where
  abbrev pub at : ℕ → ℕ
  at i = key (get_or xs i 0)

  -- The keys of the entries in use grow strictly.
  abbrev pub Ascending : Type 0
  Ascending = (i j : ℕ) → i < j → j < n → at i < at j

  -- The entries below a position have smaller keys than the item, those from one on have greater ones.
  abbrev pub Below : ℕ → Type 0
  Below p = (i : ℕ) → i < p → i < n → at i < key item

  abbrev pub Above : ℕ → Type 0
  Above p = (i : ℕ) → p ≤ i → i < n → key item < at i

  -- What the search tells.
  abbrev pub Found : Option Srch → Type 0
  Found none = ⊥
  Found (some (equate i)) = (i < n) × (at i ≡ key item)
  Found (some (more i)) = (i < n) × Below i × Above i
  Found (some (less i)) = (i < n) × Below (i + 1) × Above (i + 1)
  Found (some error) = ⊥

  -- Where the last comparison has left the bounds.
  abbrev Link : ℕ → ℕ → ℕ → Ordering → Type 0
  Link low high mid Ordering.lt = (mid ≡ high + 1) × (mid < n)
  Link low high mid Ordering.gt = (low ≡ mid + 1) × (mid < n)
  Link low high mid Ordering.eq = low ≤ high

  search_end-Found :
      (low high mid : ℕ) (cond : Ordering)
      → high < low
      → low ≤ high + 1
      → Below low
      → Above (high + 1)
      → Link low high mid cond
      → Found (some (search_end mid cond))
  search_end-Found low high mid Ordering.lt over next b a (e, lt) =
      (lt, λ i p q. b i (omega arith) q, λ i p q. a i (omega arith) q)
  search_end-Found low high mid Ordering.gt over next b a (e, lt) =
      (lt, λ i p q. b i (omega arith) q, λ i p q. a i (omega arith) q)
  search_end-Found low high mid Ordering.eq over next b a l = omega arith

  -- The loop with some fuel finds its answer from all bounds that fit.
  abbrev LoopFound : ℕ → Type 0
  LoopFound fuel =
      (low high mid : ℕ) (cond : Ordering)
      → high + 1 < low + fuel
      → low ≤ high + 1
      → high < n
      → Below low
      → Above (high + 1)
      → Link low high mid cond
      → Found (search_loop fuel (λ p. compare (key item) (key p)) xs low high mid cond)

  round-Found :
      (fuel low high m : ℕ)
      → Ascending
      → LoopFound fuel
      → high + 1 < low + suc fuel
      → high < n
      → Below low
      → Above (high + 1)
      → low ≤ m
      → m ≤ high
      → Found (elim (compare (key item) (at m)) [
        | Ordering.lt ↦
            (if m == 0
              then some (search_end m Ordering.lt)
              else search_loop fuel (λ p. compare (key item) (key p)) xs low (m - 1) m Ordering.lt)
        | Ordering.gt ↦
            search_loop fuel (λ p. compare (key item) (key p)) xs (m + 1) high m Ordering.gt
        | Ordering.eq ↦ some (equate m)
      ])
  round-Found fuel low high m asc rec enough within b a lo hi = elim (lt_cases (key item) (at m)) [
    | inl left ↦ rw (compare-lt (key item) (at m) left) (elim (Bool-cases (m == 0)) [
      | inl first ↦
          let zero_m : m ≡ 0 = ground arith in
          rw first (omega arith, λ i p q. absurd (omega arith), from_here left)
      | inr other ↦
          let pos : 0 < m = ground arith in
          rw other (
            rec low (m - 1) m Ordering.lt (omega arith) (omega arith) (omega arith) b
              (λ i p q. from_here left i (omega arith) q) (omega arith, omega arith))
    ])
    | inr (inl right) ↦ rw (compare-gt (key item) (at m) right) (
        rec (m + 1) high m Ordering.gt (omega arith) (omega arith) within
          (λ i p q. up_to right i (omega arith) q) a (refl, omega arith))
    | inr (inr same) ↦ rw (compare-eq (key item) (at m) same) (omega arith, sym same)
  ]
    where
      from_here : key item < at m → Above m
      from_here left i p q = elim (Bool-cases (m == i)) [
        | inl e ↦ let here : m ≡ i = ground arith in rw here at left
        | inr e ↦ omega (arith, asc m i (ground arith) q)
      ]

      up_to : at m < key item → (i : ℕ) → i ≤ m → i < n → at i < key item
      up_to right i p q = elim (Bool-cases (m == i)) [
        | inl e ↦ let here : m ≡ i = ground arith in rw here at right
        | inr e ↦ omega (arith, asc i m (ground arith) (omega arith))
      ]

  pub search_loop-Found : Ascending → (fuel : ℕ) → LoopFound fuel
  unfolding search_loop
  search_loop-Found asc zero low high mid cond enough next within b a l = absurd (omega arith)
  search_loop-Found asc (suc fuel) low high mid cond enough next within b a l =
      elim (Bool-cases (leb low high)) [
        | inr over ↦ rw over (search_end-Found low high mid cond (ground arith) next b a l)
        | inl inside ↦
            let order : low ≤ high = ground arith in
            rw inside (
              round-Found fuel low high ((low + high) / 2) asc (search_loop-Found asc fuel) enough
                within b a (omega arith) (omega arith))
      ]
