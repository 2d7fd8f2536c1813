-- ===== src/Stream/Outgoing/Round.antt =====
-- A round of stream_tx puts the next bytes of the firmware behind what is to be sent.
use usb_fwu.Base.{
  ℕ, zero, suc, ◌+◌, ◌-◌, ◌%◌, ◌≤◌, ◌<◌, ◌≡◌, inl, inr, refl, ap, sym, ◌∙◌, arith, some, Bool,
  Bool-cases, List, [], ◌∷◌, ◌++◌, append_assoc, append-nil, leb, ◌==◌, ◌&&◌, ◌||◌, true, false,
}
use usb_fwu.Memory.{Mem, bytes_at, s_memcpy, move, store_bytes}
use usb_fwu.Memory.Copy.{s_memcpy_lem, bytes_at-congr, length-bytes_at}
use usb_fwu.Queue.{FwuDq, entry, fwu_queue_put, fwu_queue_tst}
use usb_fwu.Queue.Valid.{fwu_queue_tst-cases, enqueue-room}
use usb_fwu.Queue.Fifo.{Packet}
use usb_fwu.Queue.Refine.{contents, enqueue_refines}
use usb_fwu.Image.{fw_load_addr, do_switch_to_firmware}
use usb_fwu.Stream.{Layout, Loader, set_state}
use usb_fwu.Stream.Tx.{TxLocals, tx_timrout, now_chk_break, tx_check, tx_round}
use usb_fwu.Stream.Safe.{InRam, move-other}
use usb_fwu.Stream.Send.{move-store_bytes}
use usb_fwu.Stream.Sent.{tx_target, IsSending}
use usb_fwu.Stream.Arrivals.{joined, offer-append}
use usb_fwu.Stream.Written.{joined-append}
use usb_fwu.Stream.Outgoing.{sending, IsGoingOut, IsSent, AfterTxRound}

bytes_at-append :
    (m : Mem) (a n k : ℕ) → bytes_at m a (n + k) ≡ bytes_at m a n ++ bytes_at m (a + n) k
bytes_at-append m a zero k =
    let none_before : zero + k ≡ k = omega arith in
    let here : a ≡ a + 0 = omega arith in
    ap (bytes_at m a) none_before ∙ ap (λ (b : ℕ). bytes_at m b k) here
bytes_at-append m a (suc n) k =
    let next : suc n + k ≡ suc (n + k) = omega arith in
    let there : a + 1 + n ≡ a + suc n = omega arith in
    ap (bytes_at m a) next
    ∙ ap (λ (xs : List ℕ). m a ∷ xs)
        (bytes_at-append m (a + 1) n k
          ∙ ap (λ (b : ℕ). bytes_at m (a + 1) n ++ bytes_at m b k) there)

-- What is put into a queue with room comes last.
put-sending :
    {Chip : Type 0} {layout : Layout} (l : Loader Chip) (src : ℕ)
    → InRam layout l
    → let q = l.queue_ep2_tx in
      fwu_queue_tst q ≡ some (entry q q.header_cnt)
      → contents (move 64 (entry q q.header_cnt) src l.mem) (fwu_queue_put q)
        ≡ sending l ++ (bytes_at l.mem src 64 ∷ [])
put-sending l src w free =
    let q = l.queue_ep2_tx in
    let p = bytes_at l.mem src 64 in
    let i = entry q q.header_cnt in
    let offered = enqueue_refines l.mem q p w.tx.valid (length-bytes_at l.mem src 64) in
    let put = rw (enqueue-room l.mem q p i free) at offered in
    ap (λ (m : Mem). contents m (fwu_queue_put q)) (move-store_bytes i src 64 l.mem)
    ∙ sym (append-nil (contents (store_bytes l.mem i p) (fwu_queue_put q)))
    ∙ offer-append (q.num_entries - 1) (sending l) p [] _ put

-- Whole blocks that reach the end of a firmware, and are not more than cover it, are what covers it.
covered :
    (last_pos n : ℕ)
    → fw_load_addr < last_pos
    → n % 4096 ≡ 0
    → last_pos ≤ fw_load_addr + n
    → n ≤ tx_target last_pos
    → n ≡ tx_target last_pos
covered last_pos n some_firmware aligned covers near = ground arith

module _ {Chip : Type 0} (layout : Layout) (last_pos : ℕ) (before : List ℕ) (m0 : Mem)
    (out : List Packet) (some_firmware : fw_load_addr < last_pos) where
  tx_check-AfterTxRound :
      (t : TxLocals) (l : Loader Chip)
      → l.g_full_block ≡ 1
      → t.flash_ptr ≡ fw_load_addr + t.nbytes
      → t.nbytes ≤ tx_target last_pos
      → IsGoingOut before m0 out last_pos t l
      → AfterTxRound before m0 out last_pos (some (tx_check layout last_pos t l))
  unfolding tx_check set_state
  tx_check-AfterTxRound t l full place near g = elim (Bool-cases over) [
    | inl e ↦
        let aligned : t.nbytes % 4096 ≡ 0 = ground arith in
        let covers : last_pos ≤ t.flash_ptr = ended (ground arith) in
        let all : t.nbytes ≡ tx_target last_pos =
          covered last_pos t.nbytes some_firmware aligned (omega arith) near in
        let whole : IsSent before m0 out last_pos l =
          g.sent ∙ ap (λ (n : ℕ). before ++ bytes_at m0 fw_load_addr n) all in
        elim (Bool-cases (do_switch_to_firmware layout.crc32_ref_table l.mem l.info).1) [
          | inl run ↦ rw (e, run) (inr whole)
          | inr stay ↦ rw (e, stay) (inr whole)
        ]
    | inr e ↦ elim (Bool-cases (leb now_chk_break (t.chkbreak_cnt + 1))) [
      | inl check ↦
          let wanted : (f_end && l.g_full_block == 0) ≡ false = ground (arith, full) in
          rw (e, check, wanted) (on f_end 0 ended)
      | inr no_check ↦ rw (e, no_check) (on f_end (t.chkbreak_cnt + 1) ended)
    ]
  ]
    where
      f_end : Bool
      f_end = leb last_pos t.flash_ptr || t.f_end

      over : Bool
      over = t.nbytes % 4096 == 0 && l.g_full_block == 1 && f_end

      ended : f_end ≡ true → last_pos ≤ t.flash_ptr
      ended e = ground (arith, g.ended)

      on :
          (f : Bool) (c : ℕ)
          → (f ≡ true → last_pos ≤ t.flash_ptr)
          → IsGoingOut before m0 out last_pos (record t { f_end = f; chkbreak_cnt = c }) l
      on f c h = record { sent = g.sent; flash = g.flash; apart = g.apart; ended = h }

  pub tx_round-AfterTxRound :
      (t : TxLocals) (l : Loader Chip)
      → InRam layout l
      → last_pos ≤ 0x40000
      → l.g_full_block ≡ 1
      → IsSending last_pos t
      → IsGoingOut before m0 out last_pos t l
      → AfterTxRound before m0 out last_pos (tx_round layout last_pos t l)
  unfolding tx_round set_state
  tx_round-AfterTxRound t l w in_flash full f g = elim (fwu_queue_tst-cases w.tx.valid) [
    | inr (free, room) ↦
        let copied : s_memcpy ptr t.flash_ptr 64 l.mem ≡ some m =
          s_memcpy_lem ptr t.flash_ptr 64 l.mem (omega arith)
            (inr (omega (arith, w.tx.in_ram, f.place, in_64, f.fewer, small))) in
        rw (free, tx_round, copied)
          (tx_check-AfterTxRound t1 l1 full (omega (arith, f.place))
            (omega (arith, f.fewer, f.packets, in_64))
            record {
              sent = sent free;
              flash = λ a h.
                  move-other 64 ptr t.flash_ptr l.mem a (inl (omega (arith, w.tx.in_ram)))
                  ∙ g.flash a h;
              apart = unfold fwu_queue_put in g.apart;
              ended = λ e. omega (arith, g.ended e);
            })
    | inl (no_room, size) ↦ elim (Bool-cases (leb (t.timeout - 1) 0)) [
      | inl late ↦ rw (no_room, tx_round, late) (inl refl)
      | inr wait ↦
          rw (no_room, tx_round, wait)
            (tx_check-AfterTxRound (record t { timeout = t.timeout - 1 }) l full f.place
              (omega (arith, f.fewer))
              record { sent = g.sent; flash = g.flash; apart = g.apart; ended = g.ended })
    ]
  ]
    where
      q : FwuDq
      q = l.queue_ep2_tx

      ptr : ℕ
      ptr = entry q q.header_cnt

      m : Mem
      m = move 64 ptr t.flash_ptr l.mem

      l1 : Loader Chip
      l1 = record l { mem = m; queue_ep2_tx = fwu_queue_put q }

      t1 : TxLocals
      t1 = record t { timeout = tx_timrout; flash_ptr = t.flash_ptr + 64; nbytes = t.nbytes + 64 }

      in_64 : tx_target last_pos % 64 ≡ 0
      in_64 = ground arith

      small : tx_target last_pos ≤ 0x3e000
      small = ground arith

      packet : Packet
      packet = bytes_at l.mem t.flash_ptr 64

      same : packet ≡ bytes_at m0 (fw_load_addr + t.nbytes) 64
      same =
          ap (λ (a : ℕ). bytes_at l.mem a 64) f.place
          ∙ bytes_at-congr l.mem m0 64 (fw_load_addr + t.nbytes)
              (λ b lo hi. g.flash b (omega (arith, f.fewer, small, in_64, f.packets)))

      sent :
          fwu_queue_tst q ≡ some ptr
          → joined (out ++ sending l1) ≡ before ++ bytes_at m0 fw_load_addr (t.nbytes + 64)
      sent free =
          ap (λ (ps : List Packet). joined (out ++ ps)) (put-sending l t.flash_ptr w free)
          ∙ ap joined (sym (append_assoc out (sending l) (packet ∷ [])))
          ∙ joined-append (out ++ sending l) (packet ∷ [])
          ∙ ap (λ (xs : List ℕ). joined (out ++ sending l) ++ xs) (append-nil packet)
          ∙ ap (λ (xs : List ℕ). xs ++ packet) g.sent
          ∙ append_assoc before (bytes_at m0 fw_load_addr t.nbytes) packet
          ∙ ap (λ (xs : List ℕ). before ++ xs)
              (ap (λ (xs : List ℕ). bytes_at m0 fw_load_addr t.nbytes ++ xs) same
                ∙ sym (bytes_at-append m0 fw_load_addr t.nbytes 64))
