-- ===== src/Queue/Hold.antt =====
-- The entries in use on either side are safe from the other side, with no lock held while they are
-- read or filled.
use usb_fwu.Base.{
  ℕ, zero, suc, ◌+◌, ◌≤◌, ◌<◌, ◌≡◌, ◌≢◌, inl, inr, List, [], ◌∷◌, length, ap, Bool, some, arith,
  refl, ◌∙◌,
}
use usb_fwu.Memory.{Mem, store_bytes}
use usb_fwu.Memory.Copy.{store_bytes-other}
use usb_fwu.Queue.{FwuDq, entry, advance, fwu_queue_tst, fwu_queue_put, fwu_queue_get, enqueue}
use usb_fwu.Queue.Valid.{
  IsValid, count, fwu_queue_tst-cases, fwu_queue_put-IsValid, fwu_queue_get-cases,
  fwu_queue_get-IsValid, enqueue-full, enqueue-room,
}

-- A producer that runs any number of times, as the receive interrupt does.
unfoldable pub enqueue_all : List (List ℕ) → Mem × FwuDq → Mem × FwuDq
enqueue_all [] s = s
enqueue_all (p ∷ ps) s = enqueue_all ps ((enqueue p s).1, (enqueue p s).2)

-- A consumer that runs any number of times, as the transmit interrupt does.
unfoldable pub get_times : ℕ → FwuDq → FwuDq
get_times zero q = q
get_times (suc k) q = get_times k (fwu_queue_get q).1

abbrev pub AllPackets : List (List ℕ) → Type 0
AllPackets [] = Unit
AllPackets (p ∷ ps) = (length p ≡ 64) × AllPackets ps

-- The entry just before the tail is never the free entry at the header.
behind_tail :
    (q : FwuDq) (i : ℕ)
    → IsValid q
    → q.tail_cnt ≡ advance q.num_entries i
    → i < q.num_entries
    → count q + 1 < q.num_entries
    → q.header_cnt ≢ i
behind_tail q i v e h room = ground arith

enqueue_all-behind :
    (ps : List (List ℕ)) (m : Mem) (q : FwuDq) (i : ℕ)
    → IsValid q
    → AllPackets ps
    → q.tail_cnt ≡ advance q.num_entries i
    → i < q.num_entries
    → (a : ℕ) → entry q i ≤ a
    → a < entry q i + 64
    → (enqueue_all ps (m, q)).0 a ≡ m a
unfolding enqueue_all fwu_queue_put
enqueue_all-behind [] m q i v h e lt a lo hi = refl
enqueue_all-behind (p ∷ ps) m q i v h e lt a lo hi = elim (fwu_queue_tst-cases v) [
  | inl (none_free, full) ↦
      ap result (enqueue-full m q p none_free) ∙ enqueue_all-behind ps m q i v h.1 e lt a lo hi
  | inr (free, room) ↦
      ap result (enqueue-room m q p (entry q q.header_cnt) free)
      ∙ enqueue_all-behind ps (store_bytes m (entry q q.header_cnt) p) (fwu_queue_put q) i
          (fwu_queue_put-IsValid v room).0 h.1 e lt a lo hi
      ∙ store_bytes-other p m (entry q q.header_cnt) a (ground (arith, behind_tail q i v e lt room))
]
  where
    result : Bool × Mem × FwuDq → ℕ
    result r = (enqueue_all ps (r.1, r.2)).0 a

-- The entry that `fwu_queue_get` hands out keeps its 64 bytes until the next `fwu_queue_get`,
-- however many packets the interrupt handler puts into the queue meanwhile.
pub fwu_queue_get_hold :
    (m : Mem) (q : FwuDq) (ps : List (List ℕ)) (p : ℕ)
    → IsValid q
    → AllPackets ps
    → (fwu_queue_get q).0 ≡ some p
    → (a : ℕ) → p ≤ a
    → a < p + 64
    → (enqueue_all ps (m, (fwu_queue_get q).1)).0 a ≡ m a
fwu_queue_get_hold m q ps p v h e a lo hi = elim (fwu_queue_get-cases v) [
  | inl (c, empty) ↦ cc
  | inr (c, more) ↦
      let handed : some (entry q q.tail_cnt) ≡ some p = rw c at e in
      let here : entry q q.tail_cnt ≡ p = cc in
      rw c (
        enqueue_all-behind ps m (record q { tail_cnt = advance q.num_entries q.tail_cnt })
          q.tail_cnt (rw c at (fwu_queue_get-IsValid v).0) h refl v.tail_in a (omega arith)
          (omega arith))
]

tst-get :
    {q : FwuDq} {p : ℕ}
    → IsValid q
    → fwu_queue_tst q ≡ some p
    → fwu_queue_tst (fwu_queue_get q).1 ≡ some p
unfolding fwu_queue_tst fwu_queue_get
tst-get v e = ground arith

tst-ne-get :
    {q : FwuDq} {p : ℕ} → IsValid q → fwu_queue_tst q ≡ some p → (fwu_queue_get q).0 ≢ some p
unfolding fwu_queue_tst fwu_queue_get
tst-ne-get v e = λ h. ground arith

-- The entry that `fwu_queue_tst` hands out stays free, and is not handed to the consumer, until it is
-- put into the queue, however often the interrupt handler gets entries meanwhile.
pub fwu_queue_tst_hold :
    (k : ℕ) (q : FwuDq) (p : ℕ)
    → IsValid q
    → fwu_queue_tst q ≡ some p
    → (fwu_queue_tst (get_times k q) ≡ some p) × ((fwu_queue_get (get_times k q)).0 ≢ some p)
unfolding get_times
fwu_queue_tst_hold zero q p v e = (e, tst-ne-get v e)
fwu_queue_tst_hold (suc k) q p v e =
    fwu_queue_tst_hold k (fwu_queue_get q).1 p (fwu_queue_get-IsValid v).0 (tst-get v e)
