-- ===== src/Memory/Copy.antt =====
-- What s_memset and s_memcpy do to memory, whatever the alignment.
use usb_fwu.Base.{
  ℕ, zero, suc, ◌+◌, ◌*◌, ◌/◌, ◌%◌, ◌^◌, ◌≤◌, ◌<◌, ◌≡◌, ◌⊎◌, inl, inr, refl, fun_ext, ◌∙◌, ap, ap₂,
  ◌-◌, arith, Bool-cases, ==_iff, false, sym, ◌==◌, List, [], ◌∷◌, length, get_or, ltb, leb,
  if◌then◌else◌, ◌&&◌, some, sub32, bit_or, bit_and, true,
}
use usb_fwu.Base.Digits.{bit_and-one, bit_and-two, bit_or-even, bit_or_quarters}
use usb_fwu.Memory.{
  Mem, store, store_bytes, bytes_at, memset_loop, s_memset, move, copy_loop, s_memcpy,
}

-- The bytes `[dst, dst + n)` all hold `v`, the others are as they were.
abbrev pub filled : ℕ → ℕ → ℕ → Mem → Mem
filled dst v n m = λ b. if leb dst b && ltb b (dst + n) then v else m b

memset_loop_lem : (n ptr ch : ℕ) (m : Mem) → memset_loop n ptr ch m ≡ filled ptr (ch % 256) n m
unfolding memset_loop
memset_loop_lem zero ptr ch m = fun_ext λ b. ground arith
memset_loop_lem (suc n) ptr ch m =
    memset_loop_lem n (ptr + 1) ch (store m ptr (ch % 256)) ∙ fun_ext λ b. ground arith

-- `s_memset` writes exactly the `n` bytes from `dst` on, each with the low byte of `ch`.
pub s_memset_lem : (dst ch n : ℕ) (m : Mem) → s_memset dst ch n m ≡ filled dst (ch % 256) n m
unfolding s_memset
s_memset_lem dst ch n m = memset_loop_lem n dst ch m

-- The two ranges of `n` bytes have no byte in common.
abbrev pub AreDisjoint : ℕ → ℕ → ℕ → Type 0
AreDisjoint dst src n = (dst + n ≤ src) ⊎ (src + n ≤ dst)

-- A unit, and then the rest from behind it, is the whole.
move-move :
    (w r dst src : ℕ) (m : Mem)
    → AreDisjoint dst src (w + r)
    → move r (dst + w) (src + w) (move w dst src m) ≡ move (w + r) dst src m
unfolding move
move-move w r dst src m d = fun_ext λ b. ground arith

copy_loop_lem :
    (k w fuel n dst src : ℕ) (m : Mem)
    → 0 < w
    → w ≤ 4
    → n ≡ suc k * w
    → n < 2 ^ 32
    → k < fuel
    → AreDisjoint dst src n
    → copy_loop w fuel n dst src m ≡ some (move n dst src m)
unfolding copy_loop
copy_loop_lem k w zero n dst src m hw w4 e lt f d = absurd (omega arith)
copy_loop_lem zero w (suc fuel) n dst src m hw w4 e lt f d =
    let all : n ≡ w = omega arith in let left : sub32 n w ≡ 0 = omega arith in rw (left, all)
copy_loop_lem (suc k) w (suc fuel) n dst src m hw w4 e lt f d =
    let size : n ≡ w + suc k * w = omega arith in
    let left : sub32 n w ≡ suc k * w = omega arith in
    let more : (suc k * w == 0) ≡ false = ground arith in
    let rest =
      copy_loop_lem k w fuel (suc k * w) (dst + w) (src + w) (move w dst src m) hw w4 refl
        (omega arith) (omega arith) (ground arith) in
    rw (left, more, size) (rest ∙ ap some (move-move w (suc k * w) dst src m (ground arith)))

move_none : (s1 s2 n : ℕ) (m : Mem) → n ≡ 0 → move n s1 s2 m ≡ m
unfolding move
move_none s1 s2 n m e = fun_ext λ b. ground arith

-- `s_memcpy` ends, and has then copied the `n` bytes of one range to another, disjoint from it, in
-- every alignment: nothing else has changed.
pub s_memcpy_lem :
    (s1 s2 n : ℕ) (m : Mem)
    → n < 2 ^ 32
    → AreDisjoint s1 s2 n
    → s_memcpy s1 s2 n m ≡ some (move n s1 s2 m)
unfolding s_memcpy
s_memcpy_lem s1 s2 n m h d = elim (Bool-cases (n == 0)) [
  | inl e ↦ rw e (ap some (sym (move_none s1 s2 n m ((==_iff n 0).0 e))))
  | inr e ↦ rw e (elim (Bool-cases (bit_and (bit_or (bit_or s1 s2) n) 1 == 0)) [
    | inr odd ↦ rw odd (loop 1 n (omega arith) (omega arith) (ground arith) (omega arith))
    | inl even ↦ rw even (elim (Bool-cases (bit_and (bit_or (bit_or s1 s2) n) 2 == 0)) [
      | inr halves ↦
          rw halves (loop 2 (n / 2) (omega arith) (omega arith) (ground arith) (even_half even))
      | inl words ↦
          rw words (loop 4 (n / 4) (omega arith) (omega arith) (ground arith) (quarters even words))
    ])
  ])
]
  where
    mask : ℕ
    mask = bit_or (bit_or s1 s2) n

    no_low : (bit_and mask 1 == 0) ≡ true → mask % 2 ≡ 0
    no_low e = omega (arith, (==_iff (bit_and mask 1) 0).0 e, bit_and-one mask)

    even_half : (bit_and mask 1 == 0) ≡ true → n ≡ n / 2 * 2
    even_half e = omega (arith, bit_or-even (bit_or s1 s2) n (no_low e))

    no_next : (bit_and mask 2 == 0) ≡ true → mask / 2 % 2 ≡ 0
    no_next e = omega (arith, (==_iff (bit_and mask 2) 0).0 e, bit_and-two mask)

    quarters : (bit_and mask 1 == 0) ≡ true → (bit_and mask 2 == 0) ≡ true → n ≡ n / 4 * 4
    quarters e k = omega (arith, bit_or_quarters (bit_or s1 s2) n (no_low e) (no_next k))

    loop :
        (w q : ℕ)
        → 0 < w
        → w ≤ 4
        → 0 < n
        → n ≡ q * w
        → copy_loop w n n s1 s2 m ≡ some (move n s1 s2 m)
    loop w zero hw w4 pos e = absurd (omega arith)
    loop w (suc k) hw w4 pos e = copy_loop_lem k w n n s1 s2 m hw w4 e h (grind arith) d

pub bytes_at-congr :
    (m m' : Mem) (n a : ℕ)
    → ((b : ℕ) → a ≤ b → b < a + n → m b ≡ m' b)
    → bytes_at m a n ≡ bytes_at m' a n
bytes_at-congr m m' zero a h = refl
bytes_at-congr m m' (suc n) a h = rw (
  h a (omega arith) (omega arith),
  bytes_at-congr m m' n (a + 1) (λ b p q. h b (omega arith) (omega arith)),
)

pub length-bytes_at : (m : Mem) (a n : ℕ) → length (bytes_at m a n) ≡ n
length-bytes_at m a zero = refl
length-bytes_at m a (suc n) = ap suc (length-bytes_at m (a + 1) n)

get_or_tail : (x : ℕ) (xs : List ℕ) (k : ℕ) → 0 < k → get_or (x ∷ xs) k 0 ≡ get_or xs (k - 1) 0
get_or_tail x xs zero h = absurd (omega arith)
get_or_tail x xs (suc k) h = ap (λ i. get_or xs i 0) (omega arith)

store_bytes_tail :
    (x : ℕ) (xs : List ℕ) (m : Mem) (a b : ℕ)
    → a + 1 ≤ b
    → store_bytes m a (x ∷ xs) b ≡ store_bytes m (a + 1) xs b
store_bytes_tail x xs m a b h =
    let tail : get_or (x ∷ xs) (b - a) 0 ≡ get_or xs (b - (a + 1)) 0 =
      get_or_tail x xs (b - a) (omega arith) ∙ ap (λ i. get_or xs i 0) (omega arith) in
    ground arith

-- What is stored is read back.
pub bytes_at-store_bytes :
    (l : List ℕ) (m : Mem) (a n : ℕ) → length l ≡ n → bytes_at (store_bytes m a l) a n ≡ l
bytes_at-store_bytes [] m a zero e = refl
bytes_at-store_bytes [] m a (suc n) e = absurd (omega arith)
bytes_at-store_bytes (x ∷ xs) m a zero e = absurd (omega arith)
bytes_at-store_bytes (x ∷ xs) m a (suc n) e = ap₂ ◌∷◌ head (
    bytes_at-congr (store_bytes m a (x ∷ xs)) (store_bytes m (a + 1) xs) n (a + 1)
      (λ b lo hi. store_bytes_tail x xs m a b lo)
    ∙ bytes_at-store_bytes xs m (a + 1) n (omega arith))
  where
    first : a - a ≡ 0
    first = omega arith

    head : store_bytes m a (x ∷ xs) a ≡ x
    head = ground (arith, ap (λ i. get_or (x ∷ xs) i 0) first)

-- Bytes outside the range are as they were.
pub store_bytes-other :
    (l : List ℕ) (m : Mem) (a b : ℕ) → (b < a) ⊎ (a + length l ≤ b) → store_bytes m a l b ≡ m b
store_bytes-other l m a b h = ground arith
