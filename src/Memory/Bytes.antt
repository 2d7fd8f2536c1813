-- ===== src/Memory/Bytes.antt =====
-- The operations on memory keep every byte below 256.
use usb_fwu.Base.{
  ℕ, zero, suc, ◌+◌, ◌-◌, ◌==◌, ◌<◌, arith, inl, inr, Bool-cases, sub32, bit_and, bit_or, Option,
  none, some, List, get_or,
}
use usb_fwu.Memory.{Mem, store, store_word, store_bytes, move, copy_loop, s_memcpy, s_memset}
use usb_fwu.Memory.Copy.{s_memset_lem}

abbrev pub IsBytes : Mem → Type 0
IsBytes m = (a : ℕ) → m a < 256

pub store-byte : (m : Mem) (p v : ℕ) → v < 256 → IsBytes m → IsBytes (store m p v)
store-byte m p v hv h a = ground (arith, h a)

pub store_word-byte : (m : Mem) (p w : ℕ) → IsBytes m → IsBytes (store_word m p w)
store_word-byte m p w h a = ground (arith, h a)

pub store_bytes-byte :
    (m : Mem) (p : ℕ) (l : List ℕ)
    → ((k : ℕ) → get_or l k 0 < 256)
    → IsBytes m
    → IsBytes (store_bytes m p l)
store_bytes-byte m p l hl h a = ground (arith, h a, hl (a - p))

pub s_memset-byte : (buf n : ℕ) (m : Mem) → IsBytes m → IsBytes (s_memset buf 0 n m)
s_memset-byte buf n m h a = rw (s_memset_lem buf 0 n m) (ground (arith, h a))

pub move-byte : (n dst src : ℕ) (m : Mem) → IsBytes m → IsBytes (move n dst src m)
unfolding move
move-byte n dst src m h a = ground (arith, h a, h (src + (a - dst)))

-- A memory that a copy leaves, if it ends.
abbrev pub LeavesBytes : Option Mem → Type 0
LeavesBytes none = Unit
LeavesBytes (some m) = IsBytes m

copy_loop-byte :
    (w fuel n dst src : ℕ) (m : Mem) → IsBytes m → LeavesBytes (copy_loop w fuel n dst src m)
unfolding copy_loop
copy_loop-byte w zero n dst src m h = tt
copy_loop-byte w (suc fuel) n dst src m h =
    let moved = move-byte w dst src m h in
    elim (Bool-cases (sub32 n w == 0)) [
      | inl over ↦ rw over moved
      | inr more ↦
          rw more (copy_loop-byte w fuel (sub32 n w) (dst + w) (src + w) (move w dst src m) moved)
    ]

pub s_memcpy-byte : (s1 s2 n : ℕ) (m : Mem) → IsBytes m → LeavesBytes (s_memcpy s1 s2 n m)
unfolding s_memcpy
s_memcpy-byte s1 s2 n m h = elim (Bool-cases (n == 0)) [
  | inl empty ↦ rw empty h
  | inr e ↦ rw e (elim (Bool-cases (bit_and (bit_or (bit_or s1 s2) n) 1 == 0)) [
    | inr odd ↦ rw odd (copy_loop-byte 1 n n s1 s2 m h)
    | inl even ↦ rw even (elim (Bool-cases (bit_and (bit_or (bit_or s1 s2) n) 2 == 0)) [
      | inr halves ↦ rw halves (copy_loop-byte 2 n n s1 s2 m h)
      | inl words ↦ rw words (copy_loop-byte 4 n n s1 s2 m h)
    ])
  ])
]
