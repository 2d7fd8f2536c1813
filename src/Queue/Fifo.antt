-- ===== src/Queue/Fifo.antt =====
-- What the queue promises: a first-in first-out queue of 64-byte packets of bounded size.
use usb_fwu.Base.{
  ℕ, List, [], ◌∷◌, ◌++◌, Option, none, some, length, ltb, Bool, true, false, if◌then◌else◌,
}

-- The 64 bytes of a packet.
abbrev pub Packet : Type 0
Packet = List ℕ

module _ (capacity : ℕ) where
  -- A packet that finds no room is refused.
  unfoldable pub offer : List Packet → Packet → Bool × List Packet
  offer q p = if ltb (length q) capacity then (true, q ++ (p ∷ [])) else (false, q)

unfoldable pub take_first : List Packet → Option Packet × List Packet
take_first [] = (none, [])
take_first (p ∷ q) = (some p, q)
