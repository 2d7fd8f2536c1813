-- ===== src/Stream/Sent.antt =====
-- stream_tx comes to an end when it sends full blocks, whatever the host does.
use usb_fwu.Base.{
  ℕ, ◌+◌, ◌-◌, ◌*◌, ◌/◌, ◌%◌, ◌^◌, ◌≤◌, ◌<◌, ◌≡◌, inl, inr, refl, ◌∙◌, arith, some, Bool,
  Bool-cases, List, [], ◌∷◌, length, leb, if◌then◌else◌, ◌==◌, ◌&&◌, ◌||◌, false,
}
use usb_fwu.Memory.{s_memcpy, move}
use usb_fwu.Memory.Copy.{s_memcpy_lem}
use usb_fwu.Queue.{FwuDq, entry, fwu_queue_put, enqueue}
use usb_fwu.Queue.Valid.{fwu_queue_tst-cases, fwu_queue_put-IsValid}
use usb_fwu.Image.{fw_load_addr, do_switch_to_firmware}
use usb_fwu.Stream.{
  Layout, Loader, Event, received, transmitted, interrupt, interrupts, set_state, state_default,
}
use usb_fwu.Stream.Tx.{
  TxLocals, TxEnd, TxNext, again, stop, timed_out, tx_timrout, now_chk_break, tx_start, tx_last_pos,
  tx_check, tx_round, tx_loop, stream_tx,
}
use usb_fwu.Stream.Safe.{
  InRam, InRam-queues, SameBelow, Kept, Kept-trans, Kept-refl, AllRounds, interrupts-Kept,
  move-other,
}

-- The bytes after which the loop is over: the first full block that reaches the end of the firmware.
abbrev pub tx_target : ℕ → ℕ
tx_target last_pos =
    if leb last_pos fw_load_addr then 4096 else (last_pos - fw_load_addr + 4095) / 4096 * 4096

-- What holds of the local variables at the beginning of a round.
pub record IsSending (last_pos : ℕ) (t : TxLocals) : Type 0 where
  pub packets : t.nbytes % 64 ≡ 0
  pub place : t.flash_ptr ≡ fw_load_addr + t.nbytes
  pub fewer : t.nbytes < tx_target last_pos
  pub waiting : 0 < t.timeout
  pub patience : t.timeout ≤ tx_timrout

abbrev pub packets_left : ℕ → TxLocals → ℕ
packets_left last_pos t = (tx_target last_pos - t.nbytes) / 64 * 60000 + t.timeout

pub interrupts-g_full_block :
    {Chip : Type 0} (es : List Event) (l : Loader Chip)
    → (interrupts es l).g_full_block ≡ l.g_full_block
unfolding interrupts interrupt enqueue
interrupts-g_full_block [] l = refl
interrupts-g_full_block (received p ∷ es) l = interrupts-g_full_block es (interrupt (received p) l)
interrupts-g_full_block (transmitted ∷ es) l = interrupts-g_full_block es (interrupt transmitted l)

target_reached :
    (last_pos nbytes : ℕ)
    → nbytes ≡ tx_target last_pos
    → (nbytes % 4096 ≡ 0) × (last_pos ≤ fw_load_addr + nbytes)
target_reached last_pos nbytes e = ground arith

pub last_pos-le : (fw_length : ℕ) → fw_length < 2 ^ 32 → tx_last_pos fw_length ≤ 0x40000
unfolding tx_last_pos
last_pos-le fw_length h = ground arith

module _ {Chip : Type 0} (layout : Layout) (last_pos : ℕ) (in_flash : last_pos ≤ 0x40000) where
  abbrev pub SendsOn : ℕ → Loader Chip → TxNext Chip → Type 0
  SendsOn before l (again t' l') =
      Kept layout l l'
      × (l'.g_full_block ≡ 1)
      × IsSending last_pos t'
      × (packets_left last_pos t' < before)
  SendsOn before l (stop e l') = InRam layout l' × SameBelow l.mem l'.mem

  tx_check_well :
      (before : ℕ) (t : TxLocals) (l : Loader Chip)
      → InRam layout l
      → l.g_full_block ≡ 1
      → t.nbytes % 64 ≡ 0
      → t.flash_ptr ≡ fw_load_addr + t.nbytes
      → t.nbytes ≤ tx_target last_pos
      → 0 < t.timeout
      → t.timeout ≤ tx_timrout
      → packets_left last_pos t < before
      → SendsOn before l (tx_check layout last_pos t l)
  unfolding tx_check set_state
  tx_check_well before t l w full aligned place near waiting patience fall =
      elim (Bool-cases over) [
        | inl e ↦ elim (Bool-cases (do_switch_to_firmware layout.crc32_ref_table l.mem l.info).1) [
          | inl run ↦ rw (e, run) (InRam-queues l _ w refl refl, λ a h. refl)
          | inr stay ↦ rw (e, stay) (InRam-queues l _ w refl refl, λ a h. refl)
        ]
        | inr e ↦
            let below : t.nbytes < tx_target last_pos =
              ground (arith, target_reached last_pos t.nbytes) in
            let fine : (f : Bool) (c : ℕ)
                → IsSending last_pos (record t { f_end = f; chkbreak_cnt = c }) =
              λ f c. record {
                packets = aligned;
                place = place;
                fewer = below;
                waiting = waiting;
                patience = patience;
              } in
            elim (Bool-cases (leb now_chk_break (t.chkbreak_cnt + 1))) [
              | inl check ↦
                  let wanted : (f_end && l.g_full_block == 0) ≡ false = ground (arith, full) in
                  rw (e, check, wanted) (Kept-refl w, full, fine f_end 0, fall)
              | inr no_check ↦
                  rw (e, no_check) (Kept-refl w, full, fine f_end (t.chkbreak_cnt + 1), fall)
            ]
      ]
    where
      f_end : Bool
      f_end = leb last_pos t.flash_ptr || t.f_end

      over : Bool
      over = t.nbytes % 4096 == 0 && l.g_full_block == 1 && f_end

  -- A round comes to its end with fewer rounds left, or ends the function.
  pub tx_round_well :
      (t : TxLocals) (l : Loader Chip)
      → InRam layout l
      → l.g_full_block ≡ 1
      → IsSending last_pos t
      → (n : TxNext Chip) × (tx_round layout last_pos t l ≡ some n)
        × SendsOn (packets_left last_pos t) l n
  unfolding tx_round set_state
  tx_round_well t l w full f = elim (fwu_queue_tst-cases w.tx.valid) [
    | inr (free, room) ↦
        let ptr : ℕ = entry q q.header_cnt in
        let copied : s_memcpy ptr t.flash_ptr 64 l.mem ≡ some (move 64 ptr t.flash_ptr l.mem) =
          s_memcpy_lem ptr t.flash_ptr 64 l.mem (omega arith)
            (inr (omega (arith, w.tx.in_ram, f.place, in_64, f.fewer, small))) in
        let l1 : Loader Chip = record l {
          mem = move 64 ptr t.flash_ptr l.mem;
          queue_ep2_tx = fwu_queue_put q;
        } in
        let k : Kept layout l l1 = record {
          in_ram = record {
            rx = w.rx;
            tx = record {
              valid = (fwu_queue_put-IsValid w.tx.valid room).0;
              in_ram = unfold fwu_queue_put in w.tx.in_ram;
            };
            stream_in_ram = w.stream_in_ram;
            cmd_in_ram = w.cmd_in_ram;
            stream_apart = w.stream_apart;
            cmd_apart = unfold fwu_queue_put in w.cmd_apart;
          };
          below = λ a h. move-other 64 ptr t.flash_ptr l.mem a (inl (omega (arith, w.tx.in_ram)));
          info = refl;
        } in
        let well =
          tx_check_well (packets_left last_pos t) t1 l1 k.in_ram full (omega (arith, f.packets))
            (omega (arith, f.place)) (omega (arith, f.packets, f.fewer, in_64)) (omega arith)
            (omega arith) (omega (arith, f.packets, f.fewer, f.waiting, in_64)) in
        (
          tx_check layout last_pos t1 l1,
          rw (free, tx_round, copied),
          rebase (packets_left last_pos t) l l1 (tx_check layout last_pos t1 l1) k well,
        )
    | inl (no_room, size) ↦ elim (Bool-cases (leb (t.timeout - 1) 0)) [
      | inl over ↦ (
        stop timed_out (set_state state_default l),
        rw (no_room, tx_round, over),
        (InRam-queues l _ w refl refl, λ a h. refl),
      )
      | inr wait ↦ (
        tx_check layout last_pos (record t { timeout = t.timeout - 1 }) l,
        rw (no_room, tx_round, wait),
        tx_check_well (packets_left last_pos t) (record t { timeout = t.timeout - 1 }) l w full
            f.packets f.place (omega (arith, f.fewer)) (ground arith) (omega (arith, f.patience))
            (omega (arith, f.waiting)),
      )
    ]
  ]
    where
      q : FwuDq
      q = l.queue_ep2_tx

      t1 : TxLocals
      t1 = record t { timeout = tx_timrout; flash_ptr = t.flash_ptr + 64; nbytes = t.nbytes + 64 }

      in_64 : tx_target last_pos % 64 ≡ 0
      in_64 = ground arith

      small : tx_target last_pos ≤ 0x3e000
      small = ground arith

      rebase :
          (before : ℕ) (l l2 : Loader Chip) (n : TxNext Chip)
          → Kept layout l l2
          → SendsOn before l2 n
          → SendsOn before l n
      rebase before l l2 (again t' l') k g = (Kept-trans k g.0, g.1, g.2, g.3)
      rebase before l l2 (stop e l') k g = (g.0, λ a h. g.1 a h ∙ k.below a h)

  abbrev TxEnds : List (List Event) → TxLocals → Loader Chip → Type 0
  TxEnds rounds t l =
      (e : TxEnd) × (l' : Loader Chip) × (tx_loop layout rounds last_pos t l ≡ some (e, l'))
      × InRam layout l'
      × SameBelow l.mem l'.mem

  tx_loop_well :
      (rounds : List (List Event)) (t : TxLocals) (l : Loader Chip)
      → InRam layout l
      → l.g_full_block ≡ 1
      → IsSending last_pos t
      → AllRounds rounds
      → packets_left last_pos t ≤ length rounds
      → TxEnds rounds t l
  unfolding tx_loop
  tx_loop_well [] t l w full f s enough = absurd (omega (arith, f.waiting))
  tx_loop_well (es ∷ rest) t l w full f s enough =
      let k = interrupts-Kept es l w s.0 in
      let (n, ends, well) =
        tx_round_well t (interrupts es l) k.in_ram (interrupts-g_full_block es l ∙ full) f in
      next n ends well k.below (tx_loop_well rest)
    where
      next :
          (n : TxNext Chip)
          → tx_round layout last_pos t (interrupts es l) ≡ some n
          → SendsOn (packets_left last_pos t) (interrupts es l) n
          → SameBelow l.mem (interrupts es l).mem
          → ((t' : TxLocals) (l' : Loader Chip)
              → InRam layout l'
              → l'.g_full_block ≡ 1
              → IsSending last_pos t'
              → AllRounds rest
              → packets_left last_pos t' ≤ length rest
              → TxEnds rest t' l')
          → TxEnds (es ∷ rest) t l
      next (stop e l') ends well same ih =
          (e, l', rw (ends, tx_loop), well.0, λ a h. well.1 a h ∙ same a h)
      next (again t' l') ends well same ih =
          let k : Kept layout (interrupts es l) l' = well.0 in
          let (e, l'', runs, w', below) =
            ih t' l' k.in_ram well.1 well.2 s.1 (omega (arith, well.3)) in
          (e, l'', rw (ends, tx_loop) runs, w', λ a h. below a h ∙ k.below a h ∙ same a h)

-- The start of `stream_tx`.
pub tx_start-IsSending : (last_pos : ℕ) → IsSending last_pos tx_start
unfolding tx_start
tx_start-IsSending last_pos = record {
  packets = refl;
  place = refl;
  fewer = ground arith;
  waiting = omega arith;
  patience = omega arith;
}

-- With the buffers in RAM and apart, full blocks asked for, as GET_FW does, and packets of 64
-- bytes, `stream_tx` comes to an end within 60000 rounds for each packet of the firmware's blocks,
-- whatever the host does and when. The flash below the firmware is then as it was.
pub stream_tx-total :
    {Chip : Type 0} (layout : Layout) (rounds : List (List Event)) (l : Loader Chip)
    → InRam layout l
    → l.g_full_block ≡ 1
    → l.info.fw_length < 2 ^ 32
    → AllRounds rounds
    → (tx_target (tx_last_pos l.info.fw_length) / 64 + 1) * 60000 ≤ length rounds
    → (e : TxEnd) × (l' : Loader Chip) × (stream_tx layout rounds l ≡ some (e, l'))
      × InRam layout l'
      × SameBelow l.mem l'.mem
unfolding stream_tx
stream_tx-total layout rounds l w full small s enough =
    tx_loop_well layout (tx_last_pos l.info.fw_length) (last_pos-le l.info.fw_length small) rounds
      tx_start l w full (tx_start-IsSending (tx_last_pos l.info.fw_length)) s
      (unfold tx_start in omega arith)
