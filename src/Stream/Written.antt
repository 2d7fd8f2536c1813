-- ===== src/Stream/Written.antt =====
-- What an upload leaves in the flash: the bytes that came, with the description in their header.
pub mod Block
pub mod Round
pub mod Upload
use usb_fwu.Base.{
  ℕ, zero, suc, ◌+◌, ◌-◌, ◌*◌, ◌≤◌, ◌<◌, ◌≡◌, ◌⊎◌, inl, inr, refl, ap, ap₂, sym, ◌∙◌, arith, Option,
  none, some, List, [], ◌∷◌, ◌++◌, append_assoc, length, get_or, drop, Bool, true, false,
}
use usb_fwu.Memory.{Mem}
use usb_fwu.Image.{FwInfo, fw_load_addr, ram_start_addr, crc_matches}
use usb_fwu.Queue.Valid.{count}
use usb_fwu.Queue.Fifo.{Packet}
use usb_fwu.Stream.{Layout, Loader}
use usb_fwu.Stream.Rx.{
  RxLocals, RxEnd, RxNext, again, stop, timed_out, write_error, not_started, started, put_header,
}
use usb_fwu.Stream.Send.{window-congr}
use usb_fwu.Stream.Safe.{InRam}
use usb_fwu.Stream.Block.{rx_target}
use usb_fwu.Stream.Judged.{Tells}
use usb_fwu.Stream.Arrivals.{joined, waiting}

-- The bytes of a firmware as they stand in the flash: a description over their first sixteen.
abbrev pub described : FwInfo → List ℕ → Mem
described info bytes = put_header 0 info (λ a. get_or bytes a 0)

-- The flash holds the first `n` bytes of a firmware.
abbrev pub FlashHolds : FwInfo → List ℕ → ℕ → Mem → Type 0
FlashHolds info bytes n m = (k : ℕ) → k < n → m (fw_load_addr + k) ≡ described info bytes k

-- Between two rounds of `stream_rx`, of the bytes that come altogether, `nbytes` have come out of
-- the queue: all before `flash_addr` are in the flash and the others in the stream buffer. The rest
-- waits in the queue or is still to arrive. From `flash_addr` on what will be written is erased,
-- and its routine is idle.
pub record IsUnderWay {Chip : Type 0} (Idle : Chip → Type 0) (layout : Layout) (bytes : List ℕ)
    (more : List Packet) (r : RxLocals) (l : Loader Chip) : Type 0 where
  pub rest : drop r.nbytes bytes ≡ joined (waiting l) ++ joined more
  pub place : r.flash_addr + r.buf_ind ≡ fw_load_addr + r.nbytes
  pub bound : r.nbytes ≤ 503808
  pub in_flash : FlashHolds l.info bytes (r.flash_addr - fw_load_addr) l.mem
  pub idle : Idle l.chip
  pub blank :
      (a : ℕ) → r.flash_addr ≤ a → a < fw_load_addr + rx_target l.info.fw_length → l.mem a ≡ 255
  pub in_buffer :
      (k : ℕ)
      → k < r.buf_ind
      → l.mem (layout.g_stream_rx_buf + k) ≡ get_or bytes (r.nbytes - r.buf_ind + k) 0

-- At the end the flash holds the firmware, and the host is told of an error exactly if the CRC of what
-- stands there is not the one that it has given.
abbrev pub Completed : Layout → FwInfo → List ℕ → RxEnd → Mem → Type 0
Completed layout info bytes e m =
    FlashHolds info bytes info.fw_length m × Tells e (crc_matches layout.crc32_ref_table m info)

-- What a round leaves: the upload is under way, or it has ended with the whole firmware in the flash,
-- if it has not ended by a timeout.
abbrev pub AfterRound :
    {Chip : Type 0}
    → (Chip → Type 0)
    → Layout
    → List ℕ
    → List Packet
    → FwInfo
    → Option (RxNext Chip)
    → Type 0
AfterRound Idle layout bytes more info none = Unit {0}
AfterRound Idle layout bytes more info (some (again r l)) = IsUnderWay Idle layout bytes more r l
AfterRound Idle layout bytes more info (some (stop e l)) =
    (e ≡ timed_out) ⊎ Completed layout info bytes e l.mem

pub joined-append : (ps qs : List Packet) → joined (ps ++ qs) ≡ joined ps ++ joined qs
joined-append [] qs = refl
joined-append (p ∷ ps) qs =
    ap (λ (l : List ℕ). p ++ l) (joined-append ps qs) ∙ sym (append_assoc p (joined ps) (joined qs))

pub get_or-drop : (n : ℕ) (xs : List ℕ) (k : ℕ) → get_or xs (n + k) 0 ≡ get_or (drop n xs) k 0
get_or-drop zero xs k = ap (λ (i : ℕ). get_or xs i 0) (omega arith)
get_or-drop (suc n) [] k = refl
get_or-drop (suc n) (x ∷ xs) k =
    let next : suc n + k ≡ suc (n + k) = omega arith in
    ap (λ (i : ℕ). get_or (x ∷ xs) i 0) next ∙ get_or-drop n xs k

pub get_or-append : (xs ys : List ℕ) (k : ℕ) → k < length xs → get_or (xs ++ ys) k 0 ≡ get_or xs k 0
get_or-append [] ys k h = absurd (omega arith)
get_or-append (x ∷ xs) ys zero h = refl
get_or-append (x ∷ xs) ys (suc k) h = get_or-append xs ys k (omega arith)

drop_nil : (n : ℕ) → drop {A = ℕ} n [] ≡ []
drop_nil zero = refl
drop_nil (suc n) = refl

pub drop-drop : (n k : ℕ) (xs : List ℕ) → drop (n + k) xs ≡ drop k (drop n xs)
drop-drop zero k xs = ap (λ (i : ℕ). drop i xs) (omega arith)
drop-drop (suc n) k [] = drop_nil (suc n + k) ∙ sym (drop_nil k)
drop-drop (suc n) k (x ∷ xs) =
    let next : suc n + k ≡ suc (n + k) = omega arith in
    ap (λ (i : ℕ). drop i (x ∷ xs)) next ∙ drop-drop n k xs

pub drop-append : (k : ℕ) (xs ys : List ℕ) → length xs ≡ k → drop k (xs ++ ys) ≡ ys
drop-append zero [] ys h = refl
drop-append zero (x ∷ xs) ys h = absurd (omega arith)
drop-append (suc k) [] ys h = absurd (omega arith)
drop-append (suc k) (x ∷ xs) ys h = drop-append k xs ys (omega arith)

-- The packets that wait do not change with memory outside the array of their queue.
pub waiting-congr :
    {Chip : Type 0} {layout : Layout} (l : Loader Chip) (m : Mem)
    → InRam layout l
    → ((a : ℕ)
        → l.queue_ep2_rx.data_fifo ≤ a
        → a < l.queue_ep2_rx.data_fifo + l.queue_ep2_rx.num_entries * 64
        → l.mem a ≡ m a)
    → waiting l ≡ waiting (record l { mem = m })
waiting-congr l m w same =
    let q = l.queue_ep2_rx in
    window-congr l.mem m q.data_fifo q.num_entries same q.tail_cnt (count q) w.rx.valid.tail_in

pub target_bound : (fw_length : ℕ) → fw_length ≤ 503808 → rx_target fw_length ≤ 503808
target_bound fw_length small = ground arith
