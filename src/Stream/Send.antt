-- ===== src/Stream/Send.antt =====
-- What send_to_host puts into the queue for the host.
use usb_fwu.Base.{
  ℕ, zero, suc, ◌+◌, ◌-◌, ◌*◌, ◌%◌, ◌≤◌, ◌<◌, ◌≡◌, ◌⊎◌, inl, inr, refl, ap, ap₂, sym, fun_ext, ◌∙◌,
  arith, some, List, ◌∷◌, get_or, Bool,
}
use usb_fwu.Memory.Bytes.{s_memset-byte}
use usb_fwu.Memory.{Mem, s_memset, move, store_bytes, bytes_at, load_word}
use usb_fwu.Memory.Copy.{s_memcpy_lem, bytes_at-congr, length-bytes_at}
use usb_fwu.Crc.{calc_crc, make_cmd}
use usb_fwu.Crc.Table.{IsCrcTable}
use usb_fwu.Crc.Command.{make_cmd_lem}
use usb_fwu.Queue.{FwuDq, entry, advance, enqueue, fwu_queue_put}
use usb_fwu.Queue.Valid.{count, fwu_queue_tst-cases, enqueue-full, enqueue-room}
use usb_fwu.Queue.Fifo
use usb_fwu.Queue.Refine.{window, contents, enqueue_refines}
use usb_fwu.Stream.{Layout, Loader, send_to_host}
use usb_fwu.Stream.Safe.{InRam, make_cmd-other, s_memset-other}

pub get_or-bytes_at : (m : Mem) (n a k : ℕ) → k < n → get_or (bytes_at m a n) k 0 ≡ m (a + k)
get_or-bytes_at m zero a k h = absurd (omega arith)
get_or-bytes_at m (suc n) a zero h = ap m (omega arith)
get_or-bytes_at m (suc n) a (suc k) h =
    get_or-bytes_at m n (a + 1) k (omega arith) ∙ ap m (omega arith)

-- A copied range is the store of the bytes that stood there.
pub move-store_bytes :
    (dst src n : ℕ) (m : Mem) → move n dst src m ≡ store_bytes m dst (bytes_at m src n)
unfolding move
move-store_bytes dst src n m =
    fun_ext λ b. ground (arith, length-bytes_at m src n, get_or-bytes_at m n src (b - dst))

pub window-congr :
    (m m' : Mem) (base n : ℕ)
    → ((a : ℕ) → base ≤ a → a < base + n * 64 → m a ≡ m' a)
    → (h k : ℕ) → h < n
    → window m base n h k ≡ window m' base n h k
window-congr m m' base n same h zero lt = refl
window-congr m m' base n same h (suc k) lt =
    ap₂ ◌∷◌ (bytes_at-congr m m' 64 (base + h * 64) (λ b p q. same b (omega arith) (omega arith)))
      (window-congr m m' base n same (advance n h) k (ground arith))

module _ {Chip : Type 0} (layout : Layout) where
  -- The memory with the command in the local buffer.
  abbrev pub framed : ℕ → Loader Chip → Mem
  framed cmd l =
      make_cmd layout.crc32_ref_table cmd layout.cmd_buf (s_memset layout.cmd_buf 0 64 l.mem)

  abbrev pub frame : ℕ → Loader Chip → List ℕ
  frame cmd l = bytes_at (framed cmd l) layout.cmd_buf 64

  -- `send_to_host` is the offer of its frame to the queue.
  send_to_host-enqueue :
      (cmd : ℕ) (l : Loader Chip)
      → InRam layout l
      → (l' : Loader Chip) × (send_to_host layout cmd l ≡ some l')
        × ((enqueue (frame cmd l) (framed cmd l, l.queue_ep2_tx)).1 ≡ l'.mem)
        × ((enqueue (frame cmd l) (framed cmd l, l.queue_ep2_tx)).2 ≡ l'.queue_ep2_tx)
  unfolding send_to_host
  send_to_host-enqueue cmd l w = elim (fwu_queue_tst-cases w.tx.valid) [
    | inl (full, size) ↦
        let e = enqueue-full (framed cmd l) l.queue_ep2_tx (frame cmd l) full in
        (record l { mem = framed cmd l }, rw (full, send_to_host), rw e, rw e)
    | inr (free, room) ↦
        let ptr = entry l.queue_ep2_tx l.queue_ep2_tx.header_cnt in
        let e = enqueue-room (framed cmd l) l.queue_ep2_tx (frame cmd l) ptr free in
        let copied =
          s_memcpy_lem ptr layout.cmd_buf 64 (framed cmd l) (omega arith)
            (omega (arith, w.tx.valid, w.cmd_apart)) in
        (
          record l {
            mem = move 64 ptr layout.cmd_buf (framed cmd l);
            queue_ep2_tx = fwu_queue_put l.queue_ep2_tx;
          },
          rw (free, copied, send_to_host),
          rw e (sym (move-store_bytes ptr layout.cmd_buf 64 (framed cmd l))),
          rw e,
        )
  ]

  -- With the buffers in RAM and apart, a table of CRC-32 and bytes in memory, `send_to_host` comes
  -- to an end and offers one frame of 64 bytes to the queue for the host, behind all that waits
  -- there; a full queue stays as it was. The frame begins with the low byte of the command, and its
  -- last four bytes are the CRC of the sixty before.
  pub send_to_host_lem :
      (cmd : ℕ) (l : Loader Chip)
      → InRam layout l
      → IsCrcTable layout.crc32_ref_table
      → ((a : ℕ) → l.mem a < 256)
      → (l' : Loader Chip) × (send_to_host layout cmd l ≡ some l')
        × (contents l'.mem l'.queue_ep2_tx
            ≡ (Fifo.offer
                (l.queue_ep2_tx.num_entries - 1)
                (contents l.mem l.queue_ep2_tx)
                (frame cmd l)).1)
        × (framed cmd l layout.cmd_buf ≡ cmd % 256)
        × (calc_crc layout.crc32_ref_table (framed cmd l) layout.cmd_buf 60
            ≡ load_word (framed cmd l) (layout.cmd_buf + 60))
  send_to_host_lem cmd l w t h =
      let (l', sends, mem, queue) = send_to_host-enqueue cmd l w in
      let (first, crc, other) =
        make_cmd_lem layout.crc32_ref_table cmd layout.cmd_buf (s_memset layout.cmd_buf 0 64 l.mem)
          t (s_memset-byte layout.cmd_buf 64 l.mem h) in
      let offered =
        enqueue_refines (framed cmd l) q (frame cmd l) w.tx.valid
          (length-bytes_at (framed cmd l) layout.cmd_buf 64) in
      (
        l',
        sends,
        ap₂ contents (sym mem) (sym queue)
            ∙ ap (λ (o : Bool × List (List ℕ)). o.1) offered
            ∙ ap (λ (c : List (List ℕ)). (Fifo.offer (q.num_entries - 1) c (frame cmd l)).1)
                (window-congr (framed cmd l) l.mem q.data_fifo q.num_entries
                  (λ a p r. outside a (ground (arith, w.cmd_apart))) q.tail_cnt (count q)
                  w.tx.valid.tail_in),
        first,
        crc,
      )
    where
      q : FwuDq
      q = l.queue_ep2_tx

      outside :
          (a : ℕ) → (a < layout.cmd_buf) ⊎ (layout.cmd_buf + 64 ≤ a) → framed cmd l a ≡ l.mem a
      outside a p =
          make_cmd-other layout.crc32_ref_table cmd layout.cmd_buf
            (s_memset layout.cmd_buf 0 64 l.mem) a p
          ∙ s_memset-other layout.cmd_buf 64 l.mem a p
