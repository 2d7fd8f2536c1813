-- ===== src/Queue/Refine.antt =====
-- The ring behaves as a bounded first-in first-out queue of packets.
use usb_fwu.Base.{
  ℕ, zero, suc, ◌+◌, ◌-◌, ◌*◌, ◌<◌, ◌≡◌, ◌≢◌, ◌⊎◌, inl, inr, refl, ap, ap₂, List, [], ◌∷◌, ◌++◌,
  length, arith,
}
use usb_fwu.Memory.{Mem, store_bytes, bytes_at}
use usb_fwu.Memory.Copy.{bytes_at-congr, bytes_at-store_bytes}
use usb_fwu.Queue.{FwuDq, entry, advance, fwu_queue_put, fwu_queue_get, enqueue}
use usb_fwu.Queue.Valid.{
  IsValid, count, fwu_queue_tst-cases, fwu_queue_get-cases, enqueue-full, enqueue-room,
  fwu_queue_put-IsValid,
}
use usb_fwu.Queue.Fifo
use mathlib.Core.Option
use usb_fwu.Queue.Fifo.{Packet}

module _ (m : Mem) (base n : ℕ) where
  -- The packets of `k` entries from entry `h` on, round the end of the array.
  abbrev pub window : ℕ → ℕ → List Packet
  window h zero = []
  window h (suc k) = bytes_at m (base + h * 64) 64 ∷ window (advance n h) k

  length-window : (h k : ℕ) → length (window h k) ≡ k
  length-window h zero = refl
  length-window h (suc k) = ap suc (length-window (advance n h) k)

-- The packets in the queue, oldest first.
abbrev pub contents : Mem → FwuDq → List Packet
contents m q = window m q.data_fifo q.num_entries q.tail_cnt (count q)

-- Entry `i` is `k` steps behind entry `h`.
abbrev IsAhead : ℕ → ℕ → ℕ → ℕ → Type 0
IsAhead n h k i = (h + k ≡ i) ⊎ (h + k ≡ i + n)

-- A packet stored in an entry leaves the other entries alone.
other_entry :
    (m : Mem) (base h i : ℕ) (p : Packet)
    → length p ≡ 64
    → h ≢ i
    → bytes_at (store_bytes m (base + i * 64) p) (base + h * 64) 64 ≡ bytes_at m (base + h * 64) 64
other_entry m base h i p l ne =
    bytes_at-congr (store_bytes m (base + i * 64) p) m 64 (base + h * 64) (λ b lo hi. ground arith)

window-snoc :
    (m : Mem) (base n k h i : ℕ) (p : Packet)
    → length p ≡ 64
    → h < n
    → i < n
    → k < n
    → IsAhead n h k i
    → window (store_bytes m (base + i * 64) p) base n h (suc k) ≡ window m base n h k ++ (p ∷ [])
window-snoc m base n zero h i p l hh hi hk a =
    let here : h ≡ i = omega arith in
    rw here (ap (λ b. b ∷ []) (bytes_at-store_bytes p m (base + i * 64) 64 l))
window-snoc m base n (suc k) h i p l hh hi hk a =
    ap₂ ◌∷◌ (other_entry m base h i p l (ground arith))
      (window-snoc m base n k (advance n h) i p l (ground arith) hi (omega arith) (ground arith))

contents-fwu_queue_put :
    (m : Mem) (q : FwuDq)
    → IsValid q
    → count q + 1 < q.num_entries
    → contents m (fwu_queue_put q) ≡ window m q.data_fifo q.num_entries q.tail_cnt (suc (count q))
contents-fwu_queue_put m q v h =
    let more : count (fwu_queue_put q) ≡ suc (count q) =
      omega (arith, (fwu_queue_put-IsValid v h).1) in
    unfold fwu_queue_put in
    ap (window m q.data_fifo q.num_entries q.tail_cnt) (unfold fwu_queue_put in more)

-- A producer with a 64-byte packet does to the contents what the bounded queue does: it is refused
-- exactly when all entries but one are taken, and else its packet comes last.
pub enqueue_refines :
    (m : Mem) (q : FwuDq) (p : Packet)
    → IsValid q
    → length p ≡ 64
    → let (done, m', q') = enqueue p (m, q) in
      (done, contents m' q') ≡ Fifo.offer (q.num_entries - 1) (contents m q) p
unfolding Fifo.offer
enqueue_refines m q p v l = elim (fwu_queue_tst-cases v) [
  | inl (e, full) ↦ rw (enqueue-full m q p e) (ground (arith, size))
  | inr (e, room) ↦
      let longer =
        window-snoc m base n (count q) q.tail_cnt q.header_cnt p l (omega arith) (omega arith)
          (omega arith) (ground arith) in
      rw
        (
          enqueue-room m q p (entry q q.header_cnt) e,
          contents-fwu_queue_put (store_bytes m (entry q q.header_cnt) p) q v room,
          longer,
        )
        (ground (arith, size))
]
  where
    n : ℕ
    n = q.num_entries

    base : ℕ
    base = q.data_fifo

    size : length (contents m q) ≡ count q
    size = length-window m base n q.tail_cnt (count q)

-- `fwu_queue_get` hands out the entry that holds the oldest packet and removes that packet, and
-- answers NULL exactly when there is none.
pub fwu_queue_get_refines :
    (m : Mem) (q : FwuDq)
    → IsValid q
    → let (p, q') = fwu_queue_get q in
      (Option.map (λ a. bytes_at m a 64) p, contents m q') ≡ Fifo.take_first (contents m q)
unfolding Fifo.take_first
fwu_queue_get_refines m q v = elim (fwu_queue_get-cases v) [
  | inl (e, empty) ↦ rw (e, empty)
  | inr (e, more) ↦ rw (e, more)
]
