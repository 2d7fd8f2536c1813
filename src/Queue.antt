-- ===== src/Queue.antt =====
-- LPC214X_USB_FWU/usb_fwu/fwu_queue.c: the ring of 64-byte entries between the interrupt handlers
-- and the main loop. The functions ending in `i` are called with interrupts disabled; they have the
-- bodies of their namesakes, which disable them. Each is one atomic step, so one definition serves.
pub mod Valid
pub mod Fifo
pub mod Refine
pub mod Hold
use usb_fwu.Base.{
  ℕ, ◌+◌, ◌*◌, ◌==◌, leb, if◌then◌else◌, ◌&&◌, ◌||◌, Option, none, some, Bool, true, false, List,
  length,
}
use usb_fwu.Memory.{Mem, store_bytes}

-- `FWU_DQ`. `data_fifo` is the address of the first entry.
pub record FwuDq : Type 0 where
  pub data_fifo : ℕ
  pub num_entries : ℕ
  pub tail_cnt : ℕ
  pub header_cnt : ℕ

unfoldable pub fwu_queue_create : ℕ → ℕ → FwuDq
fwu_queue_create n_entries data_arr = record {
  data_fifo = data_arr;
  num_entries = n_entries;
  tail_cnt = 0;
  header_cnt = 0;
}

-- `&flq->data_fifo[i << 6]`
abbrev pub entry : FwuDq → ℕ → ℕ
entry q i = q.data_fifo + i * 64

-- The counters are `int`: `header == tail - 1` fails at a tail of 0, as `header + 1 == tail` does.
abbrev pub is_full : FwuDq → Bool
is_full q = (q.tail_cnt == 0 && q.header_cnt + 1 == q.num_entries) || q.header_cnt + 1 == q.tail_cnt

-- `fwu_queue_tst`, `fwu_queue_tsti`: the free entry at the header, or NULL
unfoldable pub fwu_queue_tst : FwuDq → Option ℕ
fwu_queue_tst q = if is_full q then none else some (entry q q.header_cnt)

-- `cnt++; if(cnt >= num_entries) cnt = 0;`
abbrev pub advance : ℕ → ℕ → ℕ
advance n cnt = if leb n (cnt + 1) then 0 else cnt + 1

-- `fwu_queue_put`, `fwu_queue_puti`: the entry at the header is now in the queue
unfoldable pub fwu_queue_put : FwuDq → FwuDq
fwu_queue_put q = record q { header_cnt = advance q.num_entries q.header_cnt }

-- `fwu_queue_get`, `fwu_queue_geti`: the entry at the tail, or NULL
unfoldable pub fwu_queue_get : FwuDq → Option ℕ × FwuDq
fwu_queue_get q =
    if q.tail_cnt == q.header_cnt
    then (none, q)
    else (some (entry q q.tail_cnt), record q { tail_cnt = advance q.num_entries q.tail_cnt })

-- How a producer uses the queue: it asks for the free entry, fills it, and puts it into the queue.
-- `true` tells that there was an entry.
unfoldable pub enqueue : List ℕ → Mem × FwuDq → Bool × Mem × FwuDq
enqueue packet (m, q) = elim (fwu_queue_tst q) [
  | none ↦ (false, m, q)
  | some p ↦ (true, store_bytes m p packet, fwu_queue_put q)
]
