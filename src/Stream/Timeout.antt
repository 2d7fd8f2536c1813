-- ===== src/Stream/Timeout.antt =====
-- stream_rx when the host goes silent.
use usb_fwu.Base.{
  ℕ, zero, suc, ◌-◌, ◌≤◌, ◌<◌, ◌≡◌, ap, arith, Option, none, some, [], replicate, leb, true, false,
  Bool-cases, inl, inr,
}
use usb_fwu.Queue.{FwuDq, fwu_queue_get}
use usb_fwu.Flash.Rom.{Iap}
use usb_fwu.Stream.{Layout, Loader, interrupts, set_state, state_default}
use usb_fwu.Stream.Rx.{RxLocals, again, stop, timed_out, rx_start, rx_round, rx_loop, stream_rx}

module _ (iap : Iap) (layout : Layout) (fuel : ℕ) where
  open iap use {Chip}

  -- A round that finds no packet takes one from `Timeout`.
  rx_round_silent :
      (r : RxLocals) (l : Loader Chip)
      → fwu_queue_get l.queue_ep2_rx ≡ (none, l.queue_ep2_rx)
      → 1 < r.timeout
      → rx_round iap layout fuel r l ≡ some (again (record r { timeout = r.timeout - 1 }) l)
  unfolding rx_round
  rx_round_silent r l e h =
      let wait : leb (r.timeout - 1) 0 ≡ false = ground arith in
      rw (e, rx_round, wait)
        (ap
          (λ (g : Option ℕ × FwuDq).
            some (again (record r { timeout = r.timeout - 1 }) (record l { queue_ep2_rx = g.1 })))
          e)

  rx_round_last :
      (r : RxLocals) (l : Loader Chip)
      → fwu_queue_get l.queue_ep2_rx ≡ (none, l.queue_ep2_rx)
      → r.timeout ≡ 1
      → rx_round iap layout fuel r l ≡ some (stop timed_out (set_state state_default l))
  unfolding rx_round
  rx_round_last r l e h =
      let over : leb (r.timeout - 1) 0 ≡ true = ground arith in
      rw (e, rx_round, over)
        (ap
          (λ (g : Option ℕ × FwuDq).
            some (stop timed_out (set_state state_default (record l { queue_ep2_rx = g.1 }))))
          e)

  rx_loop_silent :
      (n : ℕ) (r : RxLocals) (l : Loader Chip)
      → fwu_queue_get l.queue_ep2_rx ≡ (none, l.queue_ep2_rx)
      → 0 < r.timeout
      → r.timeout ≤ n
      → rx_loop iap layout fuel (replicate n []) r l ≡ some (timed_out, set_state state_default l)
  unfolding rx_loop interrupts
  rx_loop_silent zero r l e pos h = absurd (omega arith)
  rx_loop_silent (suc n) r l e pos h = elim (Bool-cases (leb r.timeout 1)) [
    | inl last ↦ rw (rx_round_last r l e (ground arith), rx_loop)
    | inr more ↦
        rw (rx_round_silent r l e (ground arith), rx_loop)
          (rx_loop_silent n (record r { timeout = r.timeout - 1 }) l e (ground arith) (omega arith))
  ]

  -- With nothing in the queue, and no interrupt in at least 60000 rounds, `stream_rx` ends by its
  -- timeout. It puts the default state back and changes nothing else.
  pub stream_rx-silent :
      (n : ℕ) (l : Loader Chip)
      → fwu_queue_get l.queue_ep2_rx ≡ (none, l.queue_ep2_rx)
      → 60000 ≤ n
      → stream_rx iap layout fuel (replicate n []) l ≡ some (timed_out, set_state state_default l)
  unfolding stream_rx rx_start
  stream_rx-silent n l e h = rx_loop_silent n rx_start l e (omega arith) h
