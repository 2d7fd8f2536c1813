-- ===== src/Stream/Rounds.antt =====
-- A round of the loop of main comes to an end and leaves the upgrader alone.
use usb_fwu.Base.{
  ℕ, ◌+◌, ◌*◌, ◌/◌, ◌^◌, ◌≤◌, ◌<◌, ◌≡◌, inl, inr, refl, ap, sym, ◌∙◌, arith, Option, none, some,
  Bool-cases, List, length, ◌==◌,
}
use usb_fwu.Memory.{Mem}
use usb_fwu.Flash.{get_sector_number}
use usb_fwu.Flash.Rom.{Iap}
use usb_fwu.Flash.Sector.{get_sector_number_lem}
use usb_fwu.Flash.Write.{Erased, flash_erase_sectors_lem}
use usb_fwu.Image.{fw_load_addr}
use usb_fwu.Stream.{
  Layout, Loader, Event, set_state, send_to_host, state_default, get_fw, put_fw_info,
  put_fw_info_ask, prc_clk,
}
use usb_fwu.Stream.Rx.{RxEnd, stream_rx}
use usb_fwu.Stream.Tx.{TxEnd, tx_last_pos}
use usb_fwu.Stream.Main.{Served, received, sent, idle, serve_put, serve_get, main_round}
use usb_fwu.Stream.Safe.{InRam, InRam-queues, SameBelow, AllRounds, send_to_host-Kept}
use usb_fwu.Stream.Block.{rx_target, IsLength}
use usb_fwu.Stream.Total.{stream_rx-total}
use usb_fwu.Stream.Sent.{tx_target, stream_tx-total}

-- The rounds that the stream of either request takes at most.
abbrev pub round_bound : ℕ → ℕ
round_bound fw_length =
    (rx_target fw_length / 64 + 1) * 60000 + (tx_target (tx_last_pos fw_length) / 64 + 1) * 60000

module _ (iap : Iap) (layout : Layout) (fuel : ℕ) (enough : iap.max_pending < fuel) where
  open iap use {Chip}

  -- An erase that begins at the firmware leaves what stands before it.
  Erased-below :
      (oe : Option ℕ) (m m' : Mem)
      → Erased iap (get_sector_number fw_load_addr) oe m m'
      → SameBelow m m'
  Erased-below oe m m' (inl same) a h = ap (λ (f : Mem). f a) same
  Erased-below oe m m' (inr (s, e, first, last, filled_with)) a h =
      let second : some 2 ≡ some s = sym (get_sector_number_lem fw_load_addr) ∙ first in
      ap (λ (f : Mem). f a) filled_with ∙ ground (arith, second)

  -- The round is over, and the layout and the flash below the firmware are kept.
  abbrev IsOver : Option (Served × Loader Chip) → Loader Chip → Type 0
  IsOver o l =
      (served : Served) × (l' : Loader Chip) × (o ≡ some (served, l'))
      × InRam layout l'
      × SameBelow l.mem l'.mem

  serve_put_well :
      (rounds : List (List Event)) (l : Loader Chip)
      → InRam layout l
      → IsLength l.info.fw_length
      → AllRounds rounds
      → (rx_target l.info.fw_length / 64 + 1) * 60000 ≤ length rounds
      → IsOver (serve_put iap layout fuel rounds l) l
  unfolding serve_put set_state
  serve_put_well rounds l w small s bound =
      let (c, m, erased, what) =
        flash_erase_sectors_lem iap fuel fw_load_addr l.info.fw_length prc_clk l.chip l.mem
          enough in
      let l0 : Loader Chip = record l { g_full_block = 0; chip = c; mem = m } in
      let (l1, told, k) = send_to_host-Kept put_fw_info_ask l0 (InRam-queues l l0 w refl refl) in
      let (e, l2, runs, w2, below) =
        stream_rx-total iap layout fuel enough rounds (set_state state_default l1)
          (InRam-queues l1 _ k.in_ram refl refl) (rw k.info small) s (rw k.info bound) in
      (
        received e,
        l2,
        ap (λ (o : Option (ℕ × Chip × Mem)). after_erase o) erased
            ∙ ap (λ (o : Option (Loader Chip)). after_ask o) told
            ∙ ap (λ (o : Option (RxEnd × Loader Chip)). after_rx o) runs,
        w2,
        λ a h. below a h ∙ k.below a h ∙ Erased-below _ l.mem m what a h,
      )
    where
      after_rx : Option (RxEnd × Loader Chip) → Option (Served × Loader Chip)
      after_rx none = none
      after_rx (some (e, l2)) = some (received e, l2)

      after_ask : Option (Loader Chip) → Option (Served × Loader Chip)
      after_ask none = none
      after_ask (some l1) = after_rx (stream_rx iap layout fuel rounds (set_state state_default l1))

      after_erase : Option (ℕ × Chip × Mem) → Option (Served × Loader Chip)
      after_erase none = none
      after_erase (some (rc, c, m)) =
          after_ask
            (send_to_host layout put_fw_info_ask (record l { g_full_block = 0; chip = c; mem = m }))

  serve_get_well :
      (rounds : List (List Event)) (l : Loader Chip)
      → InRam layout l
      → l.info.fw_length < 2 ^ 32
      → AllRounds rounds
      → (tx_target (tx_last_pos l.info.fw_length) / 64 + 1) * 60000 ≤ length rounds
      → IsOver (serve_get iap layout fuel rounds l) l
  unfolding serve_get set_state
  serve_get_well rounds l w small s bound =
      let (e, l2, runs, w2, below) =
        stream_tx-total layout rounds (set_state state_default (record l { g_full_block = 1 }))
          (InRam-queues l _ w refl refl) refl small s bound in
      (
        sent e,
        l2,
        ap
            (λ (o : Option (TxEnd × Loader Chip)). elim o as (λ x. Option (Served × Loader Chip)) [
              | none ↦ none
              | some (e1, l1) ↦ some (sent e1, l1)
            ])
            runs,
        w2,
        below,
      )

  -- With the buffers in RAM and apart, a stated length of at most 0x7ffff000 and packets of 64
  -- bytes: whatever the state that an interrupt has set, the round of `main` that meets it comes to
  -- an end, given as many rounds of its stream as the length asks for, and the flash below the
  -- firmware is then as it was.
  pub main_round-total :
      (rounds : List (List Event)) (l : Loader Chip)
      → InRam layout l
      → IsLength l.info.fw_length
      → AllRounds rounds
      → round_bound l.info.fw_length ≤ length rounds
      → (served : Served) × (l' : Loader Chip) × (main_round iap layout fuel rounds l
          ≡ some (served, l'))
        × InRam layout l'
        × SameBelow l.mem l'.mem
  unfolding main_round set_state
  main_round-total rounds l w small s bound = elim (Bool-cases (l.g_state == put_fw_info)) [
    | inl put ↦ rw put (serve_put_well rounds l w small s (omega arith))
    | inr no_put ↦ elim (Bool-cases (l.g_state == get_fw)) [
      | inl get ↦
          rw (no_put, get) (serve_get_well rounds l w (omega (arith, small.0)) s (omega arith))
      | inr no_get ↦ elim (Bool-cases (l.g_state == state_default)) [
        | inl nothing ↦ (idle, l, rw (no_put, no_get, nothing), w, λ a h. refl)
        | inr other ↦ (
          idle,
          set_state state_default l,
          rw (no_put, no_get, other),
          InRam-queues l _ w refl refl,
          λ a h. refl,
        )
      ]
    ]
  ]
