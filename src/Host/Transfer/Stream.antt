-- ===== src/Host/Transfer/Stream.antt =====
-- The blocks that the host sends are the image, and those that it reads are put together to one.
use usb_fwu.Base.{
  ℕ, zero, suc, ◌+◌, ◌-◌, ◌*◌, ◌/◌, ◌^◌, ◌≤◌, ◌<◌, ◌≡◌, refl, ap, ap₂, sym, ◌∙◌, arith, true, false,
  Bool-cases, inl, inr, ltb, sltb, sub32, if◌then◌else◌, Option, some, List, [], ◌∷◌, ◌++◌, length,
  length-append, get_or, take, append_assoc,
}
use usb_fwu.Memory.{Mem, store_bytes}
use usb_fwu.Stream.Arrivals.{joined}
use usb_fwu.Host.Command.{make_rx_cmd, fw_rx_rdy}
use usb_fwu.Host.Transfer.{
  HostData, max_fw_size, copied, prepare, tx_process_buffer, filled, append_file, rx_firmware,
}

-- `k` blocks that the pipe asks for, one behind the other.
unfoldable pub tx_blocks : ℕ → HostData → List ℕ × HostData
tx_blocks zero g = ([], g)
tx_blocks (suc k) g =
    let (block, g1) = tx_process_buffer g in let (rest, g2) = tx_blocks k g1 in (block ++ rest, g2)

copied-append :
    (p q r : ℕ) (m : Mem) (a : ℕ) → r ≡ p + q → copied m a r ≡ copied m a p ++ copied m (a + p) q
unfolding copied
copied-append zero q r m a e = rw e (ap₂ (copied m) (omega arith) (omega arith))
copied-append (suc p) q zero m a e = absurd (omega arith)
copied-append (suc p) q (suc r) m a e =
    let next : a + 1 + p ≡ a + suc p = omega arith in
    ap (λ (l : List ℕ). m a ∷ l)
      (copied-append p q r m (a + 1) (omega arith)
        ∙ ap (λ (b : ℕ). copied m (a + 1) p ++ copied m b q) next)

take-copied :
    (xs : List ℕ) (m : Mem) (a r : ℕ)
    → length xs ≤ r
    → ((k : ℕ) → k < length xs → m (a + k) ≡ get_or xs k 0)
    → take (length xs) (copied m a r) ≡ xs
unfolding copied
take-copied [] m a r le h = refl
take-copied (x ∷ xs) m a zero le h = absurd (omega arith)
take-copied (x ∷ xs) m a (suc r) le h =
    let here : m a ≡ x = ap m (omega arith) ∙ h 0 (omega arith) in
    let rest =
      take-copied xs m (a + 1) r (omega arith)
        (λ k lt. ap m (omega arith) ∙ h (suc k) (omega arith)) in
    ap₂ (λ (y : ℕ) (ys : List ℕ). y ∷ ys) here rest

tx_blocks-copied :
    (k n : ℕ) (g : HostData)
    → n ≡ k * 4096
    → g.fw.len ≡ n
    → n < 2 ^ 31
    → ((tx_blocks k g).0 ≡ copied g.mem g.fw.buf_ptr n)
      × ((tx_blocks k g).1.fw.len ≡ 0)
      × ((tx_blocks k g).1.fw.buf_ptr ≡ g.fw.buf_ptr + n)
unfolding tx_blocks tx_process_buffer
tx_blocks-copied zero n g e len small =
    let none_left : n ≡ 0 = omega arith in
    (rw none_left (unfold copied in refl), omega arith, omega arith)
tx_blocks-copied (suc k) n g e len small =
    let some_left : sltb 0 g.fw.len ≡ true = ground (arith, len) in
    let less : sub32 g.fw.len 4096 ≡ k * 4096 = omega (arith, len) in
    let g1 : HostData = record g {
      fw = record g.fw { buf_ptr = g.fw.buf_ptr + 4096; len = sub32 g.fw.len 4096 };
    } in
    let (bytes, done, end) = tx_blocks-copied k (k * 4096) g1 refl less (omega arith) in
    (
      rw some_left (
          ap (λ (l : List ℕ). copied g.mem g.fw.buf_ptr 4096 ++ l) bytes
          ∙ sym (copied-append 4096 (k * 4096) n g.mem g.fw.buf_ptr (omega arith))),
      rw some_left done,
      rw some_left (end ∙ omega arith),
    )

length-copied : (m : Mem) (a n : ℕ) → length (copied m a n) ≡ n
unfolding copied
length-copied m a zero = refl
length-copied m a (suc n) = omega (arith, length-copied m (a + 1) n)

tx_dummy : (g : HostData) → g.fw.len ≡ 0 → (tx_process_buffer g).0 ≡ filled 0xff 4096
unfolding tx_process_buffer
tx_dummy g e = let none_left : sltb 0 g.fw.len ≡ false = rw e in rw none_left

-- An image of at most 262144 bytes, which is the size of the buffer, goes out whole: once it is
-- prepared, the pipe asks for as many blocks of 4096 bytes as cover it, and these hold the image from
-- their beginning on; the pointer then stands right behind them and not beyond the end of the buffer.
-- What the pipe asks for behind them is a block of 0xff.
pub tx_blocks-prepare :
    (fw_buf : ℕ) (image : List ℕ) (g : HostData)
    → length image ≤ max_fw_size
    → let k = (length image + 4095) / 4096 in
      let sent = tx_blocks k (prepare fw_buf image g).1 in
      (take (length image) sent.0 ≡ image)
      × (length sent.0 ≡ k * 4096)
      × (sent.1.fw.buf_ptr ≡ fw_buf + k * 4096)
      × (fw_buf + k * 4096 ≤ fw_buf + max_fw_size)
      × ((tx_process_buffer sent.1).0 ≡ filled 0xff 4096)
unfolding prepare
tx_blocks-prepare fw_buf image g small =
    let k = (length image + 4095) / 4096 in
    let mem : Mem = store_bytes g.mem fw_buf image in
    let g1 : HostData = record g {
      mem = mem;
      fw = record g.fw { len = k * 4096; buf_ptr = fw_buf };
    } in
    let (bytes, done, end) = tx_blocks-copied k (k * 4096) g1 refl refl (omega arith) in
    (
      ap (take (length image)) bytes
          ∙ take-copied image mem fw_buf (k * 4096) (omega arith) (λ i lt. stored i lt),
      ap length bytes ∙ length-copied mem fw_buf (k * 4096),
      end,
      omega arith,
      tx_dummy (tx_blocks k g1).1 done,
    )
  where
    stored :
        (i : ℕ) → i < length image → store_bytes g.mem fw_buf image (fw_buf + i) ≡ get_or image i 0
    stored i lt = let back : fw_buf + i - fw_buf ≡ i = omega arith in ground arith

-- The blocks that come from the device, one after the other.
pub rx_blocks : List (List ℕ) → HostData → HostData
rx_blocks [] g = g
rx_blocks (block ∷ blocks) g = rx_blocks blocks (rx_firmware block g)

abbrev pub AreStreamBlocks : List (List ℕ) → Type 0
AreStreamBlocks [] = Unit {0}
AreStreamBlocks (block ∷ blocks) = (length block ≡ 4096) × AreStreamBlocks blocks

rx_blocks-over :
    (blocks : List (List ℕ)) (g : HostData) → g.fw.is_valid ≡ false → rx_blocks blocks g ≡ g
unfolding rx_blocks
rx_blocks-over [] g e = refl
rx_blocks-over (block ∷ blocks) g e =
    let same : rx_firmware block g ≡ g = unfold rx_firmware in rw e in
    rw same (rx_blocks-over blocks g e)

take-within : (n : ℕ) (xs ys : List ℕ) → n ≤ length xs → take n (xs ++ ys) ≡ take n xs
take-within zero xs ys h = refl
take-within (suc n) [] ys h = absurd (omega arith)
take-within (suc n) (x ∷ xs) ys h = ap (λ (l : List ℕ). x ∷ l) (take-within n xs ys (omega arith))

take-beyond : (n m : ℕ) (xs ys : List ℕ) → n ≡ length xs + m → take n (xs ++ ys) ≡ xs ++ take m ys
take-beyond n m [] ys e = ap (λ (k : ℕ). take k ys) (omega arith)
take-beyond zero m (x ∷ xs) ys e = absurd (omega arith)
take-beyond (suc n) m (x ∷ xs) ys e =
    ap (λ (l : List ℕ). x ∷ l) (take-beyond n m xs ys (omega arith))

take-whole : (n : ℕ) (xs : List ℕ) → n ≡ length xs → take n xs ≡ xs
take-whole zero [] e = refl
take-whole zero (x ∷ xs) e = absurd (omega arith)
take-whole (suc n) [] e = refl
take-whole (suc n) (x ∷ xs) e = ap (λ (l : List ℕ). x ∷ l) (take-whole n xs (omega arith))

abbrev rx_more_state : List ℕ → HostData → HostData
rx_more_state block g = record g {
  h_rx_file = append_file g.h_rx_file (take 4096 block);
  fw = record g.fw { buf_ptr = g.fw.buf_ptr + 4096; len = g.fw.len - 4096 };
}

abbrev rx_last_state : List ℕ → HostData → HostData
rx_last_state block g = record g {
  h_rx_file = append_file g.h_rx_file (take g.fw.len block);
  fw = record g.fw { buf_ptr = g.fw.buf_ptr + g.fw.len; len = 0; is_valid = false };
  ctrl_rx_exch = make_rx_cmd fw_rx_rdy;
  event_rx_data = true;
}

rx_firmware-more :
    (block : List ℕ) (g : HostData)
    → g.fw.is_valid ≡ true
    → 4096 < g.fw.len
    → g.fw.len < 2 ^ 31
    → rx_firmware block g ≡ rx_more_state block g
unfolding rx_firmware
rx_firmware-more block g valid more small =
    let whole : sltb g.fw.len 4096 ≡ false = ground arith in
    let rest : sub32 g.fw.len 4096 ≡ g.fw.len - 4096 = omega arith in
    let goes_on : sltb 0 (g.fw.len - 4096) ≡ true = ground arith in rw (valid, whole, rest, goes_on)

rx_firmware-last :
    (block : List ℕ) (g : HostData)
    → g.fw.is_valid ≡ true
    → 0 < g.fw.len
    → g.fw.len ≤ 4096
    → rx_firmware block g ≡ rx_last_state block g
unfolding rx_firmware
rx_firmware-last block g valid pos last =
    let part : (if sltb g.fw.len 4096 then g.fw.len else 4096) ≡ g.fw.len = ground arith in
    let rest : sub32 g.fw.len g.fw.len ≡ 0 = omega arith in
    let ends : sltb 0 0 ≡ false = refl in rw (valid, part, rest)

-- A firmware that is read comes out whole: while a firmware of `len` bytes is valid and a file is
-- open, blocks of 4096 bytes that hold at least `len` bytes together append exactly the first `len`
-- of them to the file, and the host then has its own frame FW_RX_RDY and takes no more.
pub rx_blocks_lem :
    (blocks : List (List ℕ)) (g : HostData) (f : List ℕ)
    → AreStreamBlocks blocks
    → g.fw.is_valid ≡ true
    → 0 < g.fw.len
    → g.fw.len < 2 ^ 31
    → g.fw.len ≤ length (joined blocks)
    → g.h_rx_file ≡ some f
    → ((rx_blocks blocks g).h_rx_file ≡ some (f ++ take g.fw.len (joined blocks)))
      × ((rx_blocks blocks g).fw.is_valid ≡ false)
      × ((rx_blocks blocks g).ctrl_rx_exch ≡ make_rx_cmd fw_rx_rdy)
      × ((rx_blocks blocks g).event_rx_data ≡ true)
unfolding rx_blocks
rx_blocks_lem [] g f b valid pos small enough file = absurd (omega arith)
rx_blocks_lem (block ∷ blocks) g f (size, more) valid pos small enough file =
    elim (Bool-cases (ltb 4096 g.fw.len)) [
      | inl more_left ↦
          let left : 4096 < g.fw.len = ground arith in
          let cut : take g.fw.len (block ++ joined blocks)
              ≡ block ++ take (g.fw.len - 4096) (joined blocks) =
            take-beyond g.fw.len (g.fw.len - 4096) block (joined blocks) (omega (arith, size)) in
          let written : append_file g.h_rx_file (take 4096 block) ≡ some (f ++ block) =
            ap₂ append_file file (take-whole 4096 block (sym size)) in
          let (out, over, frame, event) =
            rx_blocks_lem blocks (rx_more_state block g) (f ++ block) more valid (omega arith)
              (omega arith) (omega (arith, size, length-append block (joined blocks))) written in
          let step : rx_blocks blocks (rx_firmware block g)
              ≡ rx_blocks blocks (rx_more_state block g) =
            ap (rx_blocks blocks) (rx_firmware-more block g valid left small) in
          (
            ap (λ (h : HostData). h.h_rx_file) step
                ∙ out
                ∙ ap some (append_assoc f block (take (g.fw.len - 4096) (joined blocks)))
                ∙ ap (λ (l : List ℕ). some (f ++ l)) (sym cut),
            ap (λ (h : HostData). h.fw.is_valid) step ∙ over,
            ap (λ (h : HostData). h.ctrl_rx_exch) step ∙ frame,
            ap (λ (h : HostData). h.event_rx_data) step ∙ event,
          )
      | inr no_more ↦
          let last : g.fw.len ≤ 4096 = ground arith in
          let cut : take g.fw.len (block ++ joined blocks) ≡ take g.fw.len block =
            take-within g.fw.len block (joined blocks) (omega (arith, size)) in
          let written : append_file g.h_rx_file (take g.fw.len block)
              ≡ some (f ++ take g.fw.len block) =
            ap (λ (o : Option (List ℕ)). append_file o (take g.fw.len block)) file in
          let over : rx_blocks blocks (rx_firmware block g) ≡ rx_last_state block g =
            ap (rx_blocks blocks) (rx_firmware-last block g valid pos last)
            ∙ rx_blocks-over blocks (rx_last_state block g) refl in
          (
            ap (λ (h : HostData). h.h_rx_file) over
                ∙ written
                ∙ ap (λ (l : List ℕ). some (f ++ l)) (sym cut),
            ap (λ (h : HostData). h.fw.is_valid) over,
            ap (λ (h : HostData). h.ctrl_rx_exch) over,
            ap (λ (h : HostData). h.event_rx_data) over,
          )
    ]
