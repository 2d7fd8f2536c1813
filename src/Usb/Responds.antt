-- ===== src/Usb/Responds.antt =====
-- What lpc214x.h's USB controller does, as the user manual of the LPC214x documents it, and that the
-- commands of fwu_usb_thumb.c come to an end on it.
use usb_fwu.Base.{
  ℕ, zero, suc, ◌+◌, ◌*◌, ◌^◌, ◌==◌, ==_iff, ◌≤◌, ◌<◌, ◌≡◌, ◌≢◌, refl, ap, ◌∙◌, arith, bit_and,
  bit_or, Bool-cases, inl, inr, sltb, Option, some,
}
use usb_fwu.Memory.{load_word}
use usb_fwu.Usb.{
  Controller, Usb, ◌>>=◌, ◌>>◌, when, and_then, set_reg, await, usb_dev_int_st, usb_dev_int_clr,
  usb_cmd_code, usb_max_p_size, usb_ctrl, usb_tx_data, usb_tx_p_len, usb_ep_int_en, usb_re_ep,
  usb_ep_ind,
}
use usb_fwu.Usb.Engine.{
  ccemty, cdfull, cmd_code, write_code, read_code, tn_usb_lpc_cmd, tn_usb_lpc_cmd_write,
}
use usb_fwu.Usb.Endpoint.{
  ep_rlzed, wr_en, write_fifo, tn_usb_ep0_write, tn_usb_set_addr, tn_usb_config_ep, cmd_ep_select,
  cmd_ep_validate_buffer, ep_num_lg2ph, load_half,
}

-- A code that is written is taken after a bounded number of polls, a byte that is asked for arrives,
-- an endpoint is realized, and the transmit FIFO closes after the last word of the packet.
pub record Responds (ctl : Controller) : Type 1 where
  -- the controller will set the bit of the mask
  pub Awaits : ℕ → ctl.Dev → Type 0
  pub polls : ctl.Dev → ℕ
  pub words : ctl.Dev → ℕ
  pub max_polls : ℕ
  pub polls-le : (d : ctl.Dev) → polls d ≤ max_polls
  pub words-le : (d : ctl.Dev) → words d ≤ max_polls
  pub accepts : (cmd : ℕ) (d : ctl.Dev) → Awaits ccemty (ctl.write usb_cmd_code (cmd_code cmd) d)
  pub takes :
      (value : ℕ) (d : ctl.Dev) → Awaits ccemty (ctl.write usb_cmd_code (write_code value) d)
  pub answers : (cmd : ℕ) (d : ctl.Dev) → Awaits cdfull (ctl.write usb_cmd_code (read_code cmd) d)
  pub realizes : (size : ℕ) (d : ctl.Dev) → Awaits ep_rlzed (ctl.write usb_max_p_size size d)
  pub settles :
      (mask : ℕ) (d : ctl.Dev)
      → Awaits mask d
      → bit_and (ctl.read usb_dev_int_st d).0 mask ≡ 0
      → Awaits mask (ctl.read usb_dev_int_st d).1 × (polls (ctl.read usb_dev_int_st d).1 < polls d)
  pub closes :
      (w : ℕ) (d : ctl.Dev)
      → bit_and (ctl.read usb_ctrl d).0 wr_en ≢ 0
      → words (ctl.write usb_tx_data w (ctl.read usb_ctrl d).1) < words d

module _ (ctl : Controller) (resp : Responds ctl) (spin : ℕ) (enough : resp.max_polls < spin)
    {Chip : Type 0} where
  open ctl use {Dev}

  -- From a state on the action ends with the value, and only the controller has changed.
  abbrev pub Ends :
      {A : Type 0} → (Usb Dev Chip → Option (A × Usb Dev Chip)) → Usb Dev Chip → A → Type 0
  Ends m s a = (d : Dev) × (m s ≡ some (a, record s { dev = d }))

  await-Ends :
      (n mask : ℕ) (s : Usb Dev Chip)
      → resp.Awaits mask s.dev
      → resp.polls s.dev < n
      → Ends (await ctl n mask) s tt
  unfolding await
  await-Ends zero mask s w h = absurd (omega arith)
  await-Ends (suc n) mask s w h =
      elim (Bool-cases (bit_and (ctl.read usb_dev_int_st s.dev).0 mask == 0)) [
        | inl waiting ↦
            let (w1, fewer) = resp.settles mask s.dev w ((==_iff _ 0).0 waiting) in
            let (d, e) =
              await-Ends n mask (record s { dev = (ctl.read usb_dev_int_st s.dev).1 }) w1
                (omega arith) in
            (d, rw (waiting, await) e)
        | inr set ↦ ((ctl.read usb_dev_int_st s.dev).1, rw (set, await))
      ]

  pub >>=-Ends :
      {A B : Type 0} (m : Usb Dev Chip → Option (A × Usb Dev Chip))
      (f : A → Usb Dev Chip → Option (B × Usb Dev Chip)) (s : Usb Dev Chip) {a : A} {b : B}
      → Ends m s a
      → ((s1 : Usb Dev Chip) → s1.udi ≡ s.udi → s1.loader ≡ s.loader → Ends (f a) s1 b)
      → Ends (m >>= f) s b
  >>=-Ends {A} m f s (d, e) k =
      let (d2, e2) = k (record s { dev = d }) refl refl in
      (d2, ap (λ (o : Option (A × Usb Dev Chip)). and_then o f) e ∙ e2)

  awaited->> :
      {B : Type 0} (mask : ℕ) (m : Usb Dev Chip → Option (B × Usb Dev Chip)) (s : Usb Dev Chip)
      {b : B}
      → resp.Awaits mask s.dev
      → ((s1 : Usb Dev Chip) → Ends m s1 b)
      → Ends (await ctl spin mask >> m) s b
  awaited->> mask m s w k =
      >>=-Ends (await ctl spin mask) (λ _. m) s
        (await-Ends spin mask s w (omega (arith, resp.polls-le s.dev))) (λ s1 u l. k s1)

  -- the state after the code of a command
  abbrev commanded : ℕ → Usb Dev Chip → Usb Dev Chip
  commanded code s = record s {
    dev = ctl.write usb_cmd_code code (ctl.write usb_dev_int_clr (bit_or cdfull ccemty) s.dev);
  }

  abbrev answered : ℕ → Usb Dev Chip → Usb Dev Chip
  answered code s = record s {
    dev = ctl.write usb_cmd_code code (ctl.write usb_dev_int_clr ccemty s.dev);
  }

  pub tn_usb_lpc_cmd-Ends : (cmd : ℕ) (s : Usb Dev Chip) → Ends (tn_usb_lpc_cmd ctl spin cmd) s tt
  unfolding tn_usb_lpc_cmd
  tn_usb_lpc_cmd-Ends cmd s =
      awaited->> ccemty (set_reg ctl usb_dev_int_clr ccemty) (commanded (cmd_code cmd) s)
        (resp.accepts cmd _) (λ s1. (ctl.write usb_dev_int_clr ccemty s1.dev, refl))

  pub tn_usb_lpc_cmd_write-Ends :
      (cmd value : ℕ) (s : Usb Dev Chip) → Ends (tn_usb_lpc_cmd_write ctl spin cmd value) s tt
  unfolding tn_usb_lpc_cmd_write
  tn_usb_lpc_cmd_write-Ends cmd value s =
      awaited->> ccemty _ (commanded (cmd_code cmd) s) (resp.accepts cmd _) (λ s1.
        awaited->> ccemty (set_reg ctl usb_dev_int_clr ccemty) (answered (write_code value) s1)
          (resp.takes value _) (λ s2. (ctl.write usb_dev_int_clr ccemty s2.dev, refl)))

  -- A command, and then the rest.
  pub lpc_cmd->> :
      {B : Type 0} (cmd : ℕ) (m : Usb Dev Chip → Option (B × Usb Dev Chip)) (s : Usb Dev Chip)
      {b : B}
      → ((s1 : Usb Dev Chip) → Ends m s1 b)
      → Ends (tn_usb_lpc_cmd ctl spin cmd >> m) s b
  lpc_cmd->> cmd m s k =
      >>=-Ends (tn_usb_lpc_cmd ctl spin cmd) (λ _. m) s (tn_usb_lpc_cmd-Ends cmd s) (λ s1 u l. k s1)

  pub lpc_cmd_write->> :
      {B : Type 0} (cmd value : ℕ) (m : Usb Dev Chip → Option (B × Usb Dev Chip)) (s : Usb Dev Chip)
      {b : B}
      → ((s1 : Usb Dev Chip) → Ends m s1 b)
      → Ends (tn_usb_lpc_cmd_write ctl spin cmd value >> m) s b
  lpc_cmd_write->> cmd value m s k =
      >>=-Ends (tn_usb_lpc_cmd_write ctl spin cmd value) (λ _. m) s
        (tn_usb_lpc_cmd_write-Ends cmd value s) (λ s1 u l. k s1)

  pub tn_usb_set_addr-Ends :
      (addr : ℕ) (s : Usb Dev Chip) → Ends (tn_usb_set_addr ctl spin addr) s tt
  unfolding tn_usb_set_addr
  tn_usb_set_addr-Ends addr s =
      lpc_cmd_write->> 0xd0 (bit_or 0x80 (bit_and addr 0xff))
        (tn_usb_lpc_cmd_write ctl spin 0xf3 0x60) s (tn_usb_lpc_cmd_write-Ends 0xf3 0x60)

  -- On a controller that responds, opening an endpoint comes to an end and changes nothing but the
  -- controller.
  pub tn_usb_config_ep-Ends :
      (ptr : ℕ) (s : Usb Dev Chip) → Ends (tn_usb_config_ep ctl spin ptr) s tt
  unfolding tn_usb_config_ep
  tn_usb_config_ep-Ends ptr s =
      awaited->> ep_rlzed _
        (record s {
          dev = ctl.write usb_max_p_size (load_half s.loader.mem (ptr + 4)) (
              ctl.write usb_ep_ind phys (
                ctl.write usb_re_ep (bit_or (ctl.read usb_re_ep s.dev).0 (2 ^ phys))
                  (ctl.read usb_re_ep s.dev).1));
        })
        (resp.realizes _ _)
        (λ s1.
          lpc_cmd_write->> (bit_or 0x40 phys) 0 _
            (record s1 { dev = ctl.write usb_dev_int_clr ep_rlzed s1.dev })
            (λ s2. lpc_cmd_write->> (bit_or 0x40 phys) 0 _ s2 (λ s3. (
              ctl.write usb_ep_int_en (bit_or (ctl.read usb_ep_int_en s3.dev).0 (2 ^ phys))
                  (ctl.read usb_ep_int_en s3.dev).1,
              refl,
            ))))
    where
      phys : ℕ
      phys = ep_num_lg2ph (bit_and (s.loader.mem (ptr + 2)) 0x8f)

  write_fifo-Ends :
      (n buf : ℕ) (s : Usb Dev Chip) → resp.words s.dev < n → Ends (write_fifo ctl spin n buf) s tt
  unfolding write_fifo
  write_fifo-Ends zero buf s h = absurd (omega arith)
  write_fifo-Ends (suc n) buf s h =
      elim (Bool-cases (bit_and (ctl.read usb_ctrl s.dev).0 wr_en == 0)) [
        | inl closed ↦ ((ctl.read usb_ctrl s.dev).1, rw (closed, write_fifo))
        | inr more ↦
            let d : Dev =
              ctl.write usb_tx_data (load_word s.loader.mem buf) (ctl.read usb_ctrl s.dev).1 in
            let fewer : resp.words d < resp.words s.dev = resp.closes _ s.dev (λ z. ground arith) in
            let (d2, e) = write_fifo-Ends n (buf + 4) (record s { dev = d }) (omega arith) in
            (d2, rw (more, write_fifo) e)
      ]

  -- A packet to the host goes out, and its length is the answer.
  pub tn_usb_ep0_write-Ends :
      (ep buf nbytes : ℕ) (s : Usb Dev Chip)
      → Ends (tn_usb_ep0_write ctl spin ep buf nbytes) s nbytes
  unfolding tn_usb_ep0_write
  tn_usb_ep0_write-Ends ep buf nbytes s =
      >>=-Ends (when (sltb 0 nbytes) (write_fifo ctl spin spin buf)) _ s1 filled (λ s2 u l.
        lpc_cmd->> (bit_or cmd_ep_select (ep_num_lg2ph (bit_and ep 0x8f))) _
          (record s2 { dev = ctl.write usb_ctrl 0 s2.dev })
          (λ s3. lpc_cmd->> cmd_ep_validate_buffer _ s3 (λ s4. (s4.dev, refl))))
    where
      s1 : Usb Dev Chip
      s1 = record s {
        dev =
            ctl.write usb_tx_p_len nbytes
              (ctl.write usb_ctrl (bit_or wr_en (bit_and (bit_and ep 0x8f) 0x0f * 4)) s.dev);
      }

      filled : Ends (when (sltb 0 nbytes) (write_fifo ctl spin spin buf)) s1 tt
      filled = elim (Bool-cases (sltb 0 nbytes)) [
        | inl some_bytes ↦
            rw some_bytes (write_fifo-Ends spin buf s1 (omega (arith, resp.words-le s1.dev)))
        | inr no_bytes ↦ rw no_bytes (s1.dev, refl)
      ]
