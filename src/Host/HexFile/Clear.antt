-- ===== src/Host/HexFile/Clear.antt =====
-- clear_list empties the list.
use usb_fwu.Base.{ℕ, zero, suc, ◌^◌, ◌≤◌, ◌<◌, ◌≡◌, refl, ◌∙◌, arith, Bool-cases, inl, inr, sltb}
use usb_fwu.Host.FwuList.{FwuListinfo}
use usb_fwu.Host.FwuList.Contents.{IsValid, fwu_list_delete_lem}
use usb_fwu.Host.HexFile.{clear_loop, clear_list}

clear_loop-empty :
    (n : ℕ) (l : FwuListinfo)
    → IsValid l
    → l.curr_capacity < 2 ^ 30
    → l.num_elem ≤ n
    → IsValid (clear_loop n l)
      × ((clear_loop n l).num_elem ≡ 0)
      × ((clear_loop n l).curr_capacity ≡ l.curr_capacity)
unfolding clear_loop
clear_loop-empty zero l w small le = (w, omega arith, refl)
clear_loop-empty (suc n) l w small le = elim (Bool-cases (sltb 0 l.num_elem)) [
  | inr none_left ↦ rw none_left (w, ground (arith, w.fits), refl)
  | inl some_left ↦
      let (l', gone, valid, count, same, c) =
        fwu_list_delete_lem l 0 w small (ground (arith, w.fits)) in
      let (v, e, s) = clear_loop-empty n l' valid (omega (arith, same)) (omega (arith, count)) in
      rw (some_left, gone) (v, e, s ∙ same)
]

-- The list is empty after `clear_list`, whatever it held.
pub clear_list-empty :
    (l : FwuListinfo)
    → IsValid l
    → l.curr_capacity < 2 ^ 30
    → IsValid (clear_list l)
      × ((clear_list l).num_elem ≡ 0)
      × ((clear_list l).curr_capacity ≡ l.curr_capacity)
unfolding clear_list
clear_list-empty l w small = clear_loop-empty l.num_elem l w small (omega arith)
