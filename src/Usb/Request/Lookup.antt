-- ===== src/Usb/Request/Lookup.antt =====
-- usb_GET_DESCRIPTOR finds the descriptor that the host asks for, in any table.
use usb_fwu.Base.{
  ℕ, zero, suc, ◌+◌, ◌-◌, ◌/◌, ◌==◌, ==_iff, ◌≤◌, ◌<◌, ◌≡◌, sym, ap, ◌∙◌, arith, bit_and, Option,
  none, some, Bool, Bool-cases, true, false, inl, inr, if◌then◌else◌, List, [], ◌∷◌, length, get_or,
}
use usb_fwu.Memory.{Mem, bytes_at}
use usb_fwu.Usb.{Controller, Usb}
use usb_fwu.Usb.Endpoint.{load_half}
use usb_fwu.Usb.Request.{recipient, w_value, scan_descriptors, usb_get_descriptor}

-- Descriptors stand at an address, each behind the last, and a zero behind them all. A descriptor
-- begins with its length and its type.
abbrev pub IsTable : Mem → ℕ → List (List ℕ) → Type 0
IsTable m base [] = m base ≡ 0
IsTable m base (d ∷ ds) =
    (bytes_at m base (length d) ≡ d)
    × (2 ≤ length d)
    × (get_or d 0 0 ≡ length d)
    × IsTable m (base + length d) ds

-- The addresses of the descriptors of a type, in order.
abbrev pub of_type : ℕ → ℕ → List (List ℕ) → List ℕ
of_type t base [] = []
of_type t base (d ∷ ds) =
    if get_or d 1 0 == t
    then base ∷ of_type t (base + length d) ds
    else of_type t (base + length d) ds

abbrev pub nth : List ℕ → ℕ → Option ℕ
nth [] k = none
nth (x ∷ xs) zero = some x
nth (x ∷ xs) (suc k) = nth xs k

get_or-bytes : (m : Mem) (n a k : ℕ) → k < n → get_or (bytes_at m a n) k 0 ≡ m (a + k)
get_or-bytes m zero a k h = absurd (omega arith)
get_or-bytes m (suc n) a zero h = ap m (omega arith)
get_or-bytes m (suc n) a (suc k) h = get_or-bytes m n (a + 1) k (omega arith) ∙ ap m (omega arith)

pub byte_of :
    (m : Mem) (base k : ℕ) (d : List ℕ)
    → bytes_at m base (length d) ≡ d
    → k < length d
    → m (base + k) ≡ get_or d k 0
byte_of m base k d e h = sym (get_or-bytes m (length d) base k h) ∙ ap (λ l. get_or l k 0) e

-- The scan finds the descriptor of the type that has the index among those of its type, and none
-- exactly if there are not so many.
pub scan_descriptors_lem :
    (n : ℕ) (m : Mem) (t index base ind : ℕ) (ds : List (List ℕ))
    → IsTable m base ds
    → length ds < n
    → ind ≤ index
    → scan_descriptors n m t index base ind ≡ some (nth (of_type t base ds) (index - ind))
unfolding scan_descriptors
scan_descriptors_lem zero m t index base ind ds w h le = absurd (omega arith)
scan_descriptors_lem (suc n) m t index base ind [] w h le = rw w
scan_descriptors_lem (suc n) m t index base ind (d ∷ ds) w h le =
    elim (Bool-cases (m (base + 1) == t)) [
      | inr miss ↦
          rw (present, miss, ← typed, miss, size)
            (scan_descriptors_lem n m t index (base + length d) ind ds rest (omega arith) le)
      | inl hit ↦ elim (Bool-cases (ind == index)) [
        | inl here ↦
            let done : index - ind ≡ 0 = omega (arith, (==_iff ind index).0 here) in
            rw (present, hit, here, ← typed, hit, done)
        | inr later ↦
            let more : index - ind ≡ suc (index - (ind + 1)) = ground arith in
            rw (present, hit, later, ← typed, hit, size, more)
              (scan_descriptors_lem n m t index (base + length d) (ind + 1) ds rest (omega arith)
                (ground arith))
      ]
    ]
  where
    size : m base ≡ length d
    size = ap m (omega arith) ∙ byte_of m base 0 d w.0 (omega (arith, w)) ∙ w.2

    typed : m (base + 1) ≡ get_or d 1 0
    typed = byte_of m base 1 d w.0 (omega (arith, w))

    present : (m base == 0) ≡ false
    present = ground (arith, size, w)

    rest : IsTable m (base + length d) ds
    rest = w.3

module _ (ctl : Controller) (spin : ℕ) {Chip : Type 0} where
  open ctl use {Dev}

  -- The result for a descriptor of the type at an address, or for none.
  abbrev pub answer : ℕ → Usb Dev Chip → Option ℕ → Bool × Usb Dev Chip
  answer t s none = (false, s)
  answer t s (some p) = (
    true,
    record s {
      udi = record s.udi {
        pdata = p;
        nbytes = if t == 2 then load_half s.loader.mem (p + 2) else s.loader.mem p;
      };
    },
  )

  -- In a table of well-formed descriptors with a zero behind them, GET_DESCRIPTOR to the device
  -- answers with the descriptor of the type and the index that the host names, with its whole
  -- length, for a configuration the total one; if there is none it fails and changes nothing. The
  -- scan ends in at most one round more than there are descriptors.
  pub usb_get_descriptor_lem :
      (rounds : ℕ) (s : Usb Dev Chip) (ds : List (List ℕ))
      → IsTable s.loader.mem s.udi.descriptors ds
      → length ds < rounds
      → recipient s.loader.mem s.udi ≡ 0
      → let t = w_value s.loader.mem s.udi / 256 in
        let index = bit_and (w_value s.loader.mem s.udi) 0xff in
        usb_get_descriptor ctl spin rounds s
        ≡ some (answer t s (nth (of_type t s.udi.descriptors ds) index))
  unfolding usb_get_descriptor
  usb_get_descriptor_lem rounds s ds w h device =
      finish (nth (of_type t s.udi.descriptors ds) index) (
        scan_descriptors_lem rounds s.loader.mem t index s.udi.descriptors 0 ds w h (omega arith)
        ∙ ap (λ (k : ℕ). some (nth (of_type t s.udi.descriptors ds) k)) (omega arith))
    where
      t : ℕ
      t = w_value s.loader.mem s.udi / 256

      index : ℕ
      index = bit_and (w_value s.loader.mem s.udi) 0xff

      to_device : (recipient s.loader.mem s.udi == 0) ≡ true
      to_device = ground (arith, device)

      finish :
          (o : Option ℕ)
          → scan_descriptors rounds s.loader.mem t index s.udi.descriptors 0 ≡ some o
          → usb_get_descriptor ctl spin rounds s ≡ some (answer t s o)
      finish none e = rw (to_device, e)
      finish (some p) e = rw (to_device, e)
