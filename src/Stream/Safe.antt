-- ===== src/Stream/Safe.antt =====
-- The layout of RAM that the linker gives, and what every operation of the main loop keeps: the
-- layout, the description of the firmware, and the flash below the firmware.
use usb_fwu.Base.{
  ℕ, ◌+◌, ◌*◌, ◌≤◌, ◌<◌, ◌≡◌, ◌⊎◌, inl, inr, refl, ap, ◌∙◌, arith, some, List, [], ◌∷◌, length,
}
use usb_fwu.Memory.{Mem, s_memset, s_memcpy, move}
use usb_fwu.Memory.Copy.{s_memset_lem, s_memcpy_lem, store_bytes-other}
use usb_fwu.Crc.{make_cmd}
use usb_fwu.Queue.{FwuDq, entry, fwu_queue_put, fwu_queue_get}
use usb_fwu.Queue.Valid.{
  IsValid, fwu_queue_tst-cases, fwu_queue_put-IsValid, fwu_queue_get-IsValid, enqueue-full,
  enqueue-room,
}
use usb_fwu.Image.{fw_load_addr, ram_start_addr}
use usb_fwu.Stream.{
  Layout, Loader, Event, received, transmitted, interrupt, interrupts, send_to_host,
}

-- The two ranges have no byte in common.
abbrev pub AreApart : ℕ → ℕ → ℕ → ℕ → Type 0
AreApart a n b k = (a + n ≤ b) ⊎ (b + k ≤ a)

-- A queue's counters are valid and its array lies in RAM.
pub record QueueInRam (q : FwuDq) : Type 0 where
  pub valid : IsValid q
  pub in_ram : ram_start_addr ≤ q.data_fifo

-- The arrays of the two queues, the stream buffer and the command buffer lie in RAM, and a copy
-- between two of them does not overlap.
pub record InRam {Chip : Type 0} (layout : Layout) (l : Loader Chip) : Type 0 where
  pub rx : QueueInRam l.queue_ep2_rx
  pub tx : QueueInRam l.queue_ep2_tx
  pub stream_in_ram : ram_start_addr ≤ layout.g_stream_rx_buf
  pub cmd_in_ram : ram_start_addr ≤ layout.cmd_buf
  pub stream_apart :
      AreApart layout.g_stream_rx_buf 4096 l.queue_ep2_rx.data_fifo
        (l.queue_ep2_rx.num_entries * 64)
  pub cmd_apart :
      AreApart layout.cmd_buf 64 l.queue_ep2_tx.data_fifo (l.queue_ep2_tx.num_entries * 64)

abbrev pub SameBelow : Mem → Mem → Type 0
SameBelow m m' = (a : ℕ) → a < fw_load_addr → m' a ≡ m a

abbrev pub SameFlash : Mem → Mem → Type 0
SameFlash m m' = (a : ℕ) → a < ram_start_addr → m' a ≡ m a

-- What an operation from `l` to `l'` keeps.
pub record Kept {Chip : Type 0} (layout : Layout) (l l' : Loader Chip) : Type 0 where
  pub in_ram : InRam layout l'
  pub below : SameBelow l.mem l'.mem
  pub info : l'.info ≡ l.info

pub Kept-trans :
    {Chip : Type 0} {layout : Layout} {l l' l'' : Loader Chip}
    → Kept layout l l'
    → Kept layout l' l''
    → Kept layout l l''
Kept-trans k k' = record {
  in_ram = k'.in_ram;
  below = λ a h. k'.below a h ∙ k.below a h;
  info = k'.info ∙ k.info;
}

pub Kept-refl :
    {Chip : Type 0} {layout : Layout} {l : Loader Chip} → InRam layout l → Kept layout l l
Kept-refl w = record { in_ram = w; below = λ a h. refl; info = refl }

-- A packet of 64 bytes.
abbrev pub IsSound : Event → Type 0
IsSound (received p) = length p ≡ 64
IsSound transmitted = Unit

abbrev pub AllSound : List Event → Type 0
AllSound [] = Unit
AllSound (e ∷ es) = IsSound e × AllSound es

abbrev pub AllRounds : List (List Event) → Type 0
AllRounds [] = Unit
AllRounds (es ∷ rest) = AllSound es × AllRounds rest

-- Getting an entry leaves the array where it is.
pub array-get :
    (q : FwuDq)
    → ((fwu_queue_get q).1.data_fifo ≡ q.data_fifo)
      × ((fwu_queue_get q).1.num_entries ≡ q.num_entries)
unfolding fwu_queue_get
array-get q = ground arith

pub make_cmd-other :
    (table : List ℕ) (cmd buf : ℕ) (m : Mem) (a : ℕ)
    → (a < buf) ⊎ (buf + 64 ≤ a)
    → make_cmd table cmd buf m a ≡ m a
unfolding make_cmd
make_cmd-other table cmd buf m a h = ground arith

pub s_memset-other :
    (buf n : ℕ) (m : Mem) (a : ℕ) → (a < buf) ⊎ (buf + n ≤ a) → s_memset buf 0 n m a ≡ m a
s_memset-other buf n m a h = ap (λ (f : Mem). f a) (s_memset_lem buf 0 n m) ∙ ground arith

pub move-other :
    (n dst src : ℕ) (m : Mem) (a : ℕ) → (a < dst) ⊎ (dst + n ≤ a) → move n dst src m a ≡ m a
unfolding move
move-other n dst src m a h = ground arith

-- The layout speaks of the queues only.
pub InRam-queues :
    {Chip : Type 0} {layout : Layout} (l l' : Loader Chip)
    → InRam layout l
    → l'.queue_ep2_rx ≡ l.queue_ep2_rx
    → l'.queue_ep2_tx ≡ l.queue_ep2_tx
    → InRam layout l'
InRam-queues l l' w e k = record {
  rx = rw e w.rx;
  tx = rw k w.tx;
  stream_in_ram = w.stream_in_ram;
  cmd_in_ram = w.cmd_in_ram;
  stream_apart = rw e w.stream_apart;
  cmd_apart = rw k w.cmd_apart;
}

module _ {Chip : Type 0} {layout : Layout} where
  pub interrupt-Kept :
      (e : Event) (l : Loader Chip) → InRam layout l → IsSound e → Kept layout l (interrupt e l)
  unfolding interrupt
  interrupt-Kept (received p) l w s = elim (fwu_queue_tst-cases w.rx.valid) [
    | inl (full, size) ↦ rw (enqueue-full l.mem l.queue_ep2_rx p full) (Kept-refl w)
    | inr (free, room) ↦
        rw
          (enqueue-room l.mem l.queue_ep2_rx p (entry l.queue_ep2_rx l.queue_ep2_rx.header_cnt)
            free)
          record {
            in_ram = record {
              rx = record {
                valid = (fwu_queue_put-IsValid w.rx.valid room).0;
                in_ram = unfold fwu_queue_put in w.rx.in_ram;
              };
              tx = w.tx;
              stream_in_ram = w.stream_in_ram;
              cmd_in_ram = w.cmd_in_ram;
              stream_apart = unfold fwu_queue_put in w.stream_apart;
              cmd_apart = w.cmd_apart;
            };
            below = λ a h.
                store_bytes-other p l.mem (entry l.queue_ep2_rx l.queue_ep2_rx.header_cnt) a
                  (inl (omega (arith, w.rx.in_ram)));
            info = refl;
          }
  ]
  interrupt-Kept transmitted l w s = record {
    in_ram = record {
      rx = w.rx;
      tx = record {
        valid = (fwu_queue_get-IsValid w.tx.valid).0;
        in_ram = omega (arith, array-get l.queue_ep2_tx);
      };
      stream_in_ram = w.stream_in_ram;
      cmd_in_ram = w.cmd_in_ram;
      stream_apart = w.stream_apart;
      cmd_apart = omega (arith, array-get l.queue_ep2_tx);
    };
    below = λ a h. refl;
    info = refl;
  }

  pub interrupts-Kept :
      (es : List Event) (l : Loader Chip)
      → InRam layout l
      → AllSound es
      → Kept layout l (interrupts es l)
  unfolding interrupts
  interrupts-Kept [] l w s = Kept-refl w
  interrupts-Kept (e ∷ es) l w s =
      let first = interrupt-Kept e l w s.0 in
      Kept-trans first (interrupts-Kept es (interrupt e l) first.in_ram s.1)

  -- `send_to_host` comes to an end and keeps the layout and the flash.
  pub send_to_host-ends :
      (cmd : ℕ) (l : Loader Chip)
      → InRam layout l
      → (l' : Loader Chip) × (send_to_host layout cmd l ≡ some l')
        × InRam layout l'
        × SameFlash l.mem l'.mem
        × (l'.info ≡ l.info)
  unfolding send_to_host
  send_to_host-ends cmd l w = elim (fwu_queue_tst-cases w.tx.valid) [
    | inl (full, size) ↦ (
      record l { mem = framed },
      rw (full, send_to_host),
      InRam-queues l (record l { mem = framed }) w refl refl,
      λ a h. framed-other a (inl (omega (arith, w.cmd_in_ram))),
      refl,
    )
    | inr (free, room) ↦ (
      record l { mem = move 64 ptr layout.cmd_buf framed; queue_ep2_tx = fwu_queue_put q },
      rw (free, copied, send_to_host),
      record {
        rx = w.rx;
        tx = record {
          valid = (fwu_queue_put-IsValid w.tx.valid room).0;
          in_ram = unfold fwu_queue_put in w.tx.in_ram;
        };
        stream_in_ram = w.stream_in_ram;
        cmd_in_ram = w.cmd_in_ram;
        stream_apart = w.stream_apart;
        cmd_apart = unfold fwu_queue_put in w.cmd_apart;
      },
      λ a h.
          move-other 64 ptr layout.cmd_buf framed a (inl (omega (arith, w.tx.in_ram)))
          ∙ framed-other a (inl (omega (arith, w.cmd_in_ram))),
      refl,
    )
  ]
    where
      q : FwuDq
      q = l.queue_ep2_tx

      ptr : ℕ
      ptr = entry q q.header_cnt

      framed : Mem
      framed =
          make_cmd layout.crc32_ref_table cmd layout.cmd_buf (s_memset layout.cmd_buf 0 64 l.mem)

      framed-other : (a : ℕ) → (a < layout.cmd_buf) ⊎ (layout.cmd_buf + 64 ≤ a) → framed a ≡ l.mem a
      framed-other a h =
          make_cmd-other layout.crc32_ref_table cmd layout.cmd_buf
            (s_memset layout.cmd_buf 0 64 l.mem) a h
          ∙ s_memset-other layout.cmd_buf 64 l.mem a h

      copied : s_memcpy ptr layout.cmd_buf 64 framed ≡ some (move 64 ptr layout.cmd_buf framed)
      copied = s_memcpy_lem ptr layout.cmd_buf 64 framed (omega arith) (omega (arith, w.tx.valid))

  pub send_to_host-Kept :
      (cmd : ℕ) (l : Loader Chip)
      → InRam layout l
      → (l' : Loader Chip) × (send_to_host layout cmd l ≡ some l') × Kept layout l l'
  send_to_host-Kept cmd l w =
      let (l', sends, in_ram, flash, info) = send_to_host-ends cmd l w in
      (l', sends, record { in_ram = in_ram; below = λ a h. flash a (omega arith); info = info })
