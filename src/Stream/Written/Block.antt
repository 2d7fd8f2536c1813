-- ===== src/Stream/Written/Block.antt =====
-- The full block of stream_rx is what the firmware holds there.
use usb_fwu.Base.{
  ℕ, ◌+◌, ◌-◌, ◌*◌, ◌%◌, ◌≤◌, ◌<◌, ◌≡◌, ◌⊎◌, inl, inr, refl, ap, sym, ◌∙◌, arith, Bool-cases, sleb,
  ltb, if◌then◌else◌, ◌==◌, List, get_or, ◌++◌,
}
use usb_fwu.Memory.{Mem, move}
use usb_fwu.Queue.Fifo.{Packet}
use usb_fwu.Flash.Rom.{Iap}
use usb_fwu.Flash.Write.Works.{IsSource, Works, flash_write_works}
use usb_fwu.Image.{FwInfo, fw_load_addr, crc_matches}
use usb_fwu.Stream.{Layout, Loader, fw_wr_rdy, fw_wr_err, prc_clk}
use usb_fwu.Stream.Rx.{RxLocals, put_header, rx_finish, rx_block}
use usb_fwu.Stream.Safe.{InRam, InRam-queues, send_to_host-ends, move-other}
use usb_fwu.Stream.Arrivals.{joined}
use usb_fwu.Stream.Block.{rx_target}
use usb_fwu.Stream.Judged.{crc_matches-flash, rx_switch-Tells}
use usb_fwu.Stream.Written.{
  described, FlashHolds, IsUnderWay, AfterRound, waiting-congr, target_bound,
}

-- The header over a buffer, and over the same bytes at address 0.
put_header-shift :
    (buf : ℕ) (info : FwInfo) (m m0 : Mem) (k : ℕ)
    → m (buf + k) ≡ m0 k
    → put_header buf info m (buf + k) ≡ put_header 0 info m0 k
unfolding put_header
put_header-shift buf info m m0 k h = ground arith

put_header-other :
    (buf : ℕ) (info : FwInfo) (m : Mem) (a : ℕ)
    → (a < buf) ⊎ (buf + 16 ≤ a)
    → put_header buf info m a ≡ m a
unfolding put_header
put_header-other buf info m a h = ground arith

pub move-within :
    (n dst src i : ℕ) (m : Mem) (a : ℕ) → a ≡ dst + i → i < n → move n dst src m a ≡ m (src + i)
unfolding move
move-within n dst src i m a e h = let index : a - dst ≡ i = omega arith in ground arith

-- What stands in the full buffer once the description is put over the first block.
buffer_described :
    (buf flash_addr nbytes : ℕ) (info : FwInfo) (bytes : List ℕ) (m : Mem) (k : ℕ)
    → flash_addr + 4096 ≡ fw_load_addr + nbytes
    → fw_load_addr ≤ flash_addr
    → nbytes % 4096 ≡ 0
    → k < 4096
    → m (buf + k) ≡ get_or bytes (nbytes - 4096 + k) 0
    → (if flash_addr == fw_load_addr then put_header buf info m else m) (buf + k)
      ≡ described info bytes (flash_addr - fw_load_addr + k)
buffer_described buf flash_addr nbytes info bytes m k place from aligned lt held =
    let same : nbytes - 4096 + k ≡ flash_addr - fw_load_addr + k = omega arith in
    let here = held ∙ ap (λ (i : ℕ). get_or bytes i 0) same in
    elim (Bool-cases (flash_addr == fw_load_addr)) [
      | inl first ↦
          let zeroth : flash_addr - fw_load_addr + k ≡ k = ground arith in
          rw first (
            put_header-shift buf info m (λ a. get_or bytes a 0) k
              (here ∙ ap (λ (i : ℕ). get_or bytes i 0) zeroth)
            ∙ ap (described info bytes) (sym zeroth))
      | inr later ↦ rw later (
          here
          ∙ sym (
              put_header-other 0 info (λ a. get_or bytes a 0) (flash_addr - fw_load_addr + k)
                (inr (ground arith))))
    ]

module _ (iap : Iap) (layout : Layout) (fuel : ℕ) (works : Works iap) where
  open iap use {Chip}

  rx_finish-AfterRound :
      (bytes : List ℕ) (more : List Packet) (l : Loader Chip)
      → InRam layout l
      → FlashHolds l.info bytes l.info.fw_length l.mem
      → l.info.fw_length ≤ 503808
      → AfterRound works.Idle layout bytes more l.info (rx_finish iap layout fuel l)
  unfolding rx_finish
  rx_finish-AfterRound bytes more l w holds small =
      let table = layout.crc32_ref_table in
      elim (Bool-cases (crc_matches table l.mem l.info)) [
        | inl ok ↦
            let (l1, sent, in_ram, flash, info) = send_to_host-ends fw_wr_rdy l w in
            rw (ok, rx_finish, sent)
              (inr (
                λ k lt. flash (fw_load_addr + k) (omega arith) ∙ holds k lt,
                rx_switch-Tells iap layout fuel l1 (crc_matches table l1.mem l.info)
                    (crc_matches-flash table l.mem l1.mem l.info small flash ∙ ok),
              ))
        | inr bad ↦
            let (l1, sent, in_ram, flash, info) = send_to_host-ends fw_wr_err l w in
            rw (bad, rx_finish, sent)
              (inr (
                λ k lt. flash (fw_load_addr + k) (omega arith) ∙ holds k lt,
                crc_matches-flash table l.mem l1.mem l.info small flash ∙ bad,
              ))
      ]

  -- The block is written, and the upload goes on or ends with the whole firmware in the flash.
  pub rx_block-AfterRound :
      (bytes : List ℕ) (more : List Packet) (r : RxLocals) (l : Loader Chip)
      → iap.max_pending < fuel
      → IsSource layout.g_stream_rx_buf 4096
      → InRam layout l
      → IsUnderWay works.Idle layout bytes more r l
      → r.buf_ind ≡ 4096
      → r.nbytes % 4096 ≡ 0
      → fw_load_addr ≤ r.flash_addr
      → l.info.fw_length ≤ 503808
      → r.nbytes ≤ rx_target l.info.fw_length
      → AfterRound works.Idle layout bytes more l.info (rx_block iap layout fuel r l)
  unfolding rx_block
  rx_block-AfterRound bytes more r l enough source w u full aligned from small near =
      let (c2, wrote, idle) =
        flash_write_works iap works fuel r.flash_addr layout.g_stream_rx_buf prc_clk l.chip m1
          enough (omega (arith, u.place, u.bound)) (omega (arith, u.place)) source
          (λ k lt.
            outside (r.flash_addr + k) (inl (omega (arith, w.stream_in_ram, u.place, u.bound)))
            ∙ u.blank (r.flash_addr + k) (omega arith) (omega (arith, u.place, u.bound)))
          u.idle in
      elim (Bool-cases (sleb l.info.fw_length r.nbytes)) [
        | inl last ↦
            rw (wrote, rx_block, last)
              (rx_finish-AfterRound bytes more (record l { chip = c2; mem = m2 })
                (InRam-queues l (record l { chip = c2; mem = m2 }) w refl refl)
                (λ k lt. in_flash k (ground (arith, u.place))) small)
        | inr not_yet ↦
            rw (wrote, rx_block, not_yet)
              record {
                rest =
                    u.rest
                    ∙ ap (λ (ps : List Packet). joined ps ++ joined more)
                        (waiting-congr l m2 w in_queue);
                place = omega (arith, u.place);
                bound = u.bound;
                in_flash = λ k lt. in_flash k (omega arith);
                idle = idle;
                blank = blank_behind;
                in_buffer = λ k lt. absurd (omega arith);
              }
      ]
    where
      buf : ℕ
      buf = layout.g_stream_rx_buf

      m1 : Mem
      m1 = if r.flash_addr == fw_load_addr then put_header buf l.info l.mem else l.mem

      m2 : Mem
      m2 = move 4096 r.flash_addr buf m1

      outside : (a : ℕ) → (a < buf) ⊎ (buf + 16 ≤ a) → m1 a ≡ l.mem a
      outside a h = elim (Bool-cases (r.flash_addr == fw_load_addr)) [
        | inl e ↦ rw e (put_header-other buf l.info l.mem a h)
        | inr e ↦ rw e refl
      ]

      in_queue :
          (a : ℕ)
          → l.queue_ep2_rx.data_fifo ≤ a
          → a < l.queue_ep2_rx.data_fifo + l.queue_ep2_rx.num_entries * 64
          → l.mem a ≡ m2 a
      in_queue a lo hi = sym (
          move-other 4096 r.flash_addr buf m1 a (inr (omega (arith, w.rx.in_ram, u.place, u.bound)))
          ∙ outside a (omega (arith, w.stream_apart)))

      blank_behind :
          (a : ℕ)
          → r.flash_addr + 4096 ≤ a
          → a < fw_load_addr + rx_target l.info.fw_length
          → m2 a ≡ 255
      blank_behind a lo hi =
          move-other 4096 r.flash_addr buf m1 a (inr lo)
          ∙ outside a (inl (omega (arith, w.stream_in_ram, target_bound l.info.fw_length small)))
          ∙ u.blank a (omega arith) hi

      in_flash :
          (k : ℕ)
          → k < r.flash_addr + 4096 - fw_load_addr
          → m2 (fw_load_addr + k) ≡ described l.info bytes k
      in_flash k lt = elim (Bool-cases (ltb (fw_load_addr + k) r.flash_addr)) [
        | inl before ↦
            move-other 4096 r.flash_addr buf m1 (fw_load_addr + k) (inl (ground arith))
            ∙ outside (fw_load_addr + k) (inl (omega (arith, w.stream_in_ram, u.place, u.bound)))
            ∙ u.in_flash k (ground arith)
        | inr within ↦
            let i = fw_load_addr + k - r.flash_addr in
            let short : i < 4096 = ground arith in
            let back : r.flash_addr - fw_load_addr + i ≡ k = ground arith in
            move-within 4096 r.flash_addr buf i m1 (fw_load_addr + k) (ground arith) short
            ∙ buffer_described buf r.flash_addr r.nbytes l.info bytes l.mem i
                (omega (arith, u.place)) from aligned short
                (u.in_buffer i (omega arith)
                  ∙ ap (λ (n : ℕ). get_or bytes (r.nbytes - n + i) 0) full)
            ∙ ap (described l.info bytes) back
      ]
