-- ===== src/Queue/Valid.antt =====
-- The counters stay inside the array, so every pointer handed out is an entry of it.
use usb_fwu.Base.{
  ℕ, suc, List, true, false, ◌==◌, ◌+◌, ◌-◌, ◌≤◌, ◌<◌, ◌≡◌, ◌⊎◌, inl, inr, Bool-cases, ◌↔◌, none,
  some, arith, ltb, if◌then◌else◌,
}
use usb_fwu.Memory.{Mem, store_bytes}
use usb_fwu.Queue.{
  FwuDq, advance, enqueue, entry, is_full, fwu_queue_create, fwu_queue_tst, fwu_queue_put,
  fwu_queue_get,
}

pub record IsValid (q : FwuDq) : Type 0 where
  pub room : 2 ≤ q.num_entries
  pub header_in : q.header_cnt < q.num_entries
  pub tail_in : q.tail_cnt < q.num_entries

-- How many entries are in the queue.
abbrev pub count : FwuDq → ℕ
count q =
    if ltb q.header_cnt q.tail_cnt
    then q.header_cnt + q.num_entries - q.tail_cnt
    else q.header_cnt - q.tail_cnt

-- A queue made with room for two entries or more is valid and empty.
pub fwu_queue_create-IsValid :
    (n base : ℕ) → 2 ≤ n → IsValid (fwu_queue_create n base) × (count (fwu_queue_create n base) ≡ 0)
unfolding fwu_queue_create
fwu_queue_create-IsValid n base h = ground arith

-- `fwu_queue_tst` answers NULL exactly when all entries but one are taken.
pub fwu_queue_tst-none :
    {q : FwuDq} → IsValid q → (fwu_queue_tst q ≡ none) ↔ (count q + 1 ≡ q.num_entries)
unfolding fwu_queue_tst
fwu_queue_tst-none v = ground arith

-- An entry that is put into a queue with room raises the count by one, and both counters stay inside
-- the array.
pub fwu_queue_put-IsValid :
    {q : FwuDq}
    → IsValid q
    → count q + 1 < q.num_entries
    → IsValid (fwu_queue_put q) × (count (fwu_queue_put q) ≡ count q + 1)
unfolding fwu_queue_put
fwu_queue_put-IsValid v h = ground arith

-- Getting an entry lowers the count by one, or leaves an empty queue as it is, and both counters stay
-- inside the array.
pub fwu_queue_get-IsValid :
    {q : FwuDq}
    → IsValid q
    → IsValid (fwu_queue_get q).1 × (count (fwu_queue_get q).1 ≡ count q - 1)
unfolding fwu_queue_get
fwu_queue_get-IsValid v = ground arith

-- What a producer meets: no room, or the entry at the header.
pub fwu_queue_tst-cases :
    {q : FwuDq}
    → IsValid q
    → ((fwu_queue_tst q ≡ none) × (count q + 1 ≡ q.num_entries))
      ⊎ ((fwu_queue_tst q ≡ some (entry q q.header_cnt)) × (count q + 1 < q.num_entries))
unfolding fwu_queue_tst
fwu_queue_tst-cases {q} v = elim (Bool-cases (is_full q)) [
  | inl e ↦ inl (ground arith)
  | inr e ↦ inr (ground arith)
]

-- What a consumer meets: nothing, or the entry at the tail.
pub fwu_queue_get-cases :
    {q : FwuDq}
    → IsValid q
    → ((fwu_queue_get q ≡ (none, q)) × (count q ≡ 0))
      ⊎ ((fwu_queue_get q
            ≡ (some (entry q q.tail_cnt), record q { tail_cnt = advance q.num_entries q.tail_cnt }))
          × (count q ≡ suc (count (record q { tail_cnt = advance q.num_entries q.tail_cnt }))))
unfolding fwu_queue_get
fwu_queue_get-cases {q} v = elim (Bool-cases (q.tail_cnt == q.header_cnt)) [
  | inl e ↦ inl (rw e, ground arith)
  | inr e ↦ inr (rw e, ground arith)
]

module _ (m : Mem) (q : FwuDq) (p : List ℕ) where
  pub enqueue-full : fwu_queue_tst q ≡ none → enqueue p (m, q) ≡ (false, m, q)
  unfolding enqueue
  enqueue-full e = rw (e, enqueue)

  pub enqueue-room :
      (a : ℕ)
      → fwu_queue_tst q ≡ some a
      → enqueue p (m, q) ≡ (true, store_bytes m a p, fwu_queue_put q)
  unfolding enqueue
  enqueue-room a e = rw (e, enqueue)
