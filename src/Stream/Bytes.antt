-- ===== src/Stream/Bytes.antt =====
-- stream_rx keeps every byte of memory below 256.
use usb_fwu.Base.{
  ℕ, ◌+◌, ◌-◌, ◌%◌, ◌==◌, ==_iff, ◌<◌, ◌≡◌, arith, inl, inr, Bool-cases, Option-cases, Option, none,
  some, List, [], ◌∷◌, get_or, leb, sleb, if◌then◌else◌, refl,
}
use mathlib.Core.Option
use usb_fwu.Memory.{Mem, s_memset, s_memcpy}
use usb_fwu.Memory.Bytes.{
  IsBytes, store-byte, store_word-byte, store_bytes-byte, s_memset-byte, move-byte, LeavesBytes,
  s_memcpy-byte,
}
use usb_fwu.Crc.{make_cmd}
use usb_fwu.Queue.{enqueue, fwu_queue_tst, fwu_queue_put, fwu_queue_get}
use usb_fwu.Flash.{err_no_err}
use usb_fwu.Flash.Rom.{Iap}
use usb_fwu.Flash.Write.{flash_write_lem}
use usb_fwu.Image.{FwInfo, fw_load_addr, crc_matches}
use usb_fwu.Stream.{
  Layout, Loader, Event, received, transmitted, interrupt, interrupts, send_to_host, set_state,
  stream_buf_size, prc_clk, fw_wr_rdy, fw_wr_err,
}
use usb_fwu.Stream.Rx.{
  RxLocals, RxEnd, RxNext, again, stop, write_error, rx_start, put_header, rx_switch, rx_finish,
  rx_block, rx_packet, rx_round, rx_loop, stream_rx,
}

-- A packet of bytes.
abbrev pub OfBytes : Event → Type 0
OfBytes (received p) = (k : ℕ) → get_or p k 0 < 256
OfBytes transmitted = Unit

abbrev pub AllOfBytes : List Event → Type 0
AllOfBytes [] = Unit
AllOfBytes (e ∷ es) = OfBytes e × AllOfBytes es

abbrev pub RoundsOfBytes : List (List Event) → Type 0
RoundsOfBytes [] = Unit
RoundsOfBytes (es ∷ rest) = AllOfBytes es × RoundsOfBytes rest

make_cmd-byte :
    (table : List ℕ) (cmd buf : ℕ) (m : Mem) → IsBytes m → IsBytes (make_cmd table cmd buf m)
unfolding make_cmd
make_cmd-byte table cmd buf m h =
    store_word-byte _ (buf + 60) _ (store-byte m buf (cmd % 256) (omega arith) h)

put_header-byte : (buf : ℕ) (info : FwInfo) (m : Mem) → IsBytes m → IsBytes (put_header buf info m)
unfolding put_header
put_header-byte buf info m h = store_word-byte _ (buf + 12) _ (
    store_word-byte _ (buf + 8) _ (store_word-byte _ (buf + 4) _ (store_word-byte m (buf + 0) _ h)))

module _ {Chip : Type 0} where
  interrupt-byte :
      (e : Event) (l : Loader Chip) → OfBytes e → IsBytes l.mem → IsBytes (interrupt e l).mem
  unfolding interrupt enqueue
  interrupt-byte (received p) l b h = elim (Option-cases (fwu_queue_tst l.queue_ep2_rx)) [
    | inl full ↦ rw (full, enqueue) h
    | inr (a, free) ↦ rw (free, enqueue) (store_bytes-byte l.mem a p b h)
  ]
  interrupt-byte transmitted l b h = h

  interrupts-byte :
      (es : List Event) (l : Loader Chip)
      → AllOfBytes es
      → IsBytes l.mem
      → IsBytes (interrupts es l).mem
  unfolding interrupts
  interrupts-byte [] l b h = h
  interrupts-byte (e ∷ es) l b h = interrupts-byte es (interrupt e l) b.1 (interrupt-byte e l b.0 h)

  abbrev SentBytes : Option (Loader Chip) → Type 0
  SentBytes none = Unit
  SentBytes (some l) = IsBytes l.mem

  send_to_host-byte :
      (layout : Layout) (cmd : ℕ) (l : Loader Chip)
      → IsBytes l.mem
      → SentBytes (send_to_host layout cmd l)
  unfolding send_to_host
  send_to_host-byte layout cmd l h = elim (Option-cases (fwu_queue_tst l.queue_ep2_tx)) [
    | inl full ↦ rw (full, send_to_host) framed-byte
    | inr (a, free) ↦
        rw (free, send_to_host)
          (finish a (s_memcpy a layout.cmd_buf 64 framed)
            (s_memcpy-byte a layout.cmd_buf 64 framed framed-byte))
  ]
    where
      framed : Mem
      framed =
          make_cmd layout.crc32_ref_table cmd layout.cmd_buf (s_memset layout.cmd_buf 0 64 l.mem)

      framed-byte : IsBytes framed
      framed-byte =
          make_cmd-byte layout.crc32_ref_table cmd layout.cmd_buf _
            (s_memset-byte layout.cmd_buf 64 l.mem h)

      finish :
          (a : ℕ) (o : Option Mem)
          → LeavesBytes o
          → SentBytes (
              Option.map
                (λ m2. record l { mem = m2; queue_ep2_tx = fwu_queue_put l.queue_ep2_tx })
                o)
      finish a none b = tt
      finish a (some m) b = b

module _ (iap : Iap) (layout : Layout) (fuel : ℕ) (enough : iap.max_pending < fuel) where
  open iap use {Chip}

  abbrev NextBytes : Option (RxNext Chip) → Type 0
  NextBytes none = Unit
  NextBytes (some (again r l)) = IsBytes l.mem
  NextBytes (some (stop e l)) = IsBytes l.mem

  rx_finish-byte : (l : Loader Chip) → IsBytes l.mem → NextBytes (rx_finish iap layout fuel l)
  unfolding rx_finish rx_switch
  rx_finish-byte l h = elim (Bool-cases (crc_matches layout.crc32_ref_table l.mem l.info)) [
    | inl ok ↦
        rw ok (right (send_to_host layout fw_wr_rdy l) (send_to_host-byte layout fw_wr_rdy l h))
    | inr bad ↦
        rw bad (wrong (send_to_host layout fw_wr_err l) (send_to_host-byte layout fw_wr_err l h))
  ]
    where
      right :
          (o : Option (Loader Chip))
          → SentBytes o
          → NextBytes (elim o as (λ x. Option (RxNext Chip)) [
            | none ↦ none
            | some l1 ↦
                some (stop (rx_switch iap layout fuel l1).0 (rx_switch iap layout fuel l1).1)
          ])
      right none b = tt
      right (some l1) b = b

      wrong :
          (o : Option (Loader Chip))
          → SentBytes o
          → NextBytes (elim o as (λ x. Option (RxNext Chip)) [
            | none ↦ none
            | some l1 ↦ some (stop write_error l1)
          ])
      wrong none b = tt
      wrong (some l1) b = b

  rx_block-byte :
      (r : RxLocals) (l : Loader Chip) → IsBytes l.mem → NextBytes (rx_block iap layout fuel r l)
  unfolding rx_block
  rx_block-byte r l h =
      let (rc, c2, m2, wrote, done, undone, wrong) =
        flash_write_lem iap fuel r.flash_addr layout.g_stream_rx_buf prc_clk stream_buf_size l.chip
          m1 enough in
      let bytes : IsBytes m2 = elim (Bool-cases (rc == err_no_err)) [
        | inl ok ↦
            rw (done ((==_iff rc 0).0 ok))
              (move-byte 4096 r.flash_addr layout.g_stream_rx_buf m1 first)
        | inr bad ↦ rw (undone (λ e. ground arith)) first
      ] in
      elim (Bool-cases (sleb l.info.fw_length r.nbytes)) [
        | inl last ↦
            rw (wrote, rx_block, last) (rx_finish-byte (record l { chip = c2; mem = m2 }) bytes)
        | inr more ↦ rw (wrote, rx_block, more) bytes
      ]
    where
      m1 : Mem
      m1 =
          if r.flash_addr == fw_load_addr
          then put_header layout.g_stream_rx_buf l.info l.mem
          else l.mem

      first : IsBytes m1
      first = elim (Bool-cases (r.flash_addr == fw_load_addr)) [
        | inl e ↦ rw e (put_header-byte layout.g_stream_rx_buf l.info l.mem h)
        | inr e ↦ rw e h
      ]

  rx_packet-byte :
      (ptr : ℕ) (r : RxLocals) (l : Loader Chip)
      → IsBytes l.mem
      → NextBytes (rx_packet iap layout fuel ptr r l)
  unfolding rx_packet
  rx_packet-byte ptr r l h =
      elim (Option-cases (s_memcpy (layout.g_stream_rx_buf + r.buf_ind) ptr 64 l.mem)) [
        | inl e ↦ rw (e, rx_packet) tt
        | inr (m, e) ↦
            let b : IsBytes m =
              rw e at (s_memcpy-byte (layout.g_stream_rx_buf + r.buf_ind) ptr 64 l.mem h) in
            elim (Bool-cases (leb stream_buf_size (r.buf_ind + 64))) [
              | inl full ↦ rw (e, rx_packet, full) (rx_block-byte _ (record l { mem = m }) b)
              | inr part ↦ rw (e, rx_packet, part) b
            ]
      ]

  rx_round-byte :
      (r : RxLocals) (l : Loader Chip) → IsBytes l.mem → NextBytes (rx_round iap layout fuel r l)
  unfolding rx_round set_state
  rx_round-byte r l h = elim (Option-cases (fwu_queue_get l.queue_ep2_rx).0) [
    | inr (ptr, e) ↦
        rw (e, rx_round)
          (rx_packet-byte ptr r (record l { queue_ep2_rx = (fwu_queue_get l.queue_ep2_rx).1 }) h)
    | inl e ↦ elim (Bool-cases (leb (r.timeout - 1) 0)) [
      | inl over ↦ rw (e, rx_round, over) h
      | inr wait ↦ rw (e, rx_round, wait) h
    ]
  ]

  abbrev EndBytes : Option (RxEnd × Loader Chip) → Type 0
  EndBytes none = Unit
  EndBytes (some (e, l)) = IsBytes l.mem

  rx_loop-byte :
      (rounds : List (List Event)) (r : RxLocals) (l : Loader Chip)
      → RoundsOfBytes rounds
      → IsBytes l.mem
      → EndBytes (rx_loop iap layout fuel rounds r l)
  unfolding rx_loop
  rx_loop-byte [] r l b h = tt
  rx_loop-byte (es ∷ rest) r l b h =
      next (rx_round iap layout fuel r (interrupts es l)) refl
        (rx_round-byte r (interrupts es l) (interrupts-byte es l b.0 h))
        (λ r1 l1 h1. rx_loop-byte rest r1 l1 b.1 h1)
    where
      next :
          (o : Option (RxNext Chip))
          → rx_round iap layout fuel r (interrupts es l) ≡ o
          → NextBytes o
          → ((r1 : RxLocals) (l1 : Loader Chip)
              → IsBytes l1.mem
              → EndBytes (rx_loop iap layout fuel rest r1 l1))
          → EndBytes (rx_loop iap layout fuel (es ∷ rest) r l)
      next none k p ih = rw (k, rx_loop) tt
      next (some (again r1 l1)) k p ih = rw (k, rx_loop) (ih r1 l1 p)
      next (some (stop e1 l1)) k p ih = rw (k, rx_loop) p

  -- `stream_rx` leaves bytes in memory, if memory and the packets hold bytes.
  pub stream_rx-byte :
      (rounds : List (List Event)) (l l' : Loader Chip) (e : RxEnd)
      → stream_rx iap layout fuel rounds l ≡ some (e, l')
      → RoundsOfBytes rounds
      → IsBytes l.mem
      → IsBytes l'.mem
  unfolding stream_rx
  stream_rx-byte rounds l l' e h b start = rw h at p
    where
      p : EndBytes (stream_rx iap layout fuel rounds l)
      p = rx_loop-byte rounds rx_start l b start
