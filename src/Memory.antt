-- ===== src/Memory.antt =====
-- LPC214X_USB_FWU/usb_fwu/fwu_utils.c: s_memset and s_memcpy over one byte-addressed memory.
pub mod Copy
pub mod Bytes
use usb_fwu.Base.{
  ℕ, zero, suc, ◌+◌, ◌-◌, ◌%◌, ◌==◌, ltb, leb, if◌then◌else◌, ◌&&◌, not, sub32, bit_and, bit_or,
  Option, none, some, List, [], ◌∷◌, length, word_of, word_bytes, get_or,
}

-- The byte at each address: flash from 0 and RAM from 0x40000000.
abbrev pub Mem : Type 0
Mem = ℕ → ℕ

abbrev pub store : Mem → ℕ → ℕ → Mem
store m a v = λ b. if b == a then v else m b

-- A little-endian load of 32 bits, and the store of `n` bytes that stand in a list.
abbrev pub load_word : Mem → ℕ → ℕ
load_word m a = word_of (m a) (m (a + 1)) (m (a + 2)) (m (a + 3))

-- The bytes of a word `w` at `a`, the others as they were.
abbrev pub store_word : Mem → ℕ → ℕ → Mem
store_word m a w = λ b.
    if b == a
    then get_or (word_bytes w) 0 0
    else if b == a + 1
    then get_or (word_bytes w) 1 0
    else if b == a + 2
    then get_or (word_bytes w) 2 0
    else if b == a + 3
    then get_or (word_bytes w) 3 0
    else m b

-- `while(length--) *++ptr = ch;` with `length` rounds left; `ch` is narrowed to a char.
memset_loop : ℕ → ℕ → ℕ → Mem → Mem
memset_loop zero ptr ch m = m
memset_loop (suc n) ptr ch m = memset_loop n (ptr + 1) ch (store m ptr (ch % 256))

-- `void * s_memset(void * dst, int ch, int length)`, for a length that is not negative
unfoldable pub s_memset : ℕ → ℕ → ℕ → Mem → Mem
unfolding memset_loop
s_memset dst ch len m = memset_loop len dst ch m

-- `*dst = *src` on units of `w` bytes: all of them are read before any is written.
unfoldable pub move : ℕ → ℕ → ℕ → Mem → Mem
move w dst src m b = if leb dst b && ltb b (dst + w) then m (src + (b - dst)) else m b

-- `do { *dst++ = *src++; } while (n -= w);` with the 32-bit `n` that wraps below 0. `none` is a
-- loop that has not come to its end within the fuel.
copy_loop : ℕ → ℕ → ℕ → ℕ → ℕ → Mem → Option Mem
copy_loop w zero n dst src m = none
copy_loop w (suc fuel) n dst src m =
    let m' = move w dst src m in
    let n' = sub32 n w in
    let rest = copy_loop w fuel n' (dst + w) (src + w) m' in if n' == 0 then some m' else rest

-- `void * s_memcpy(void * s1, const void *s2, int n)`: bytes, halfwords or words, by the alignment
-- of both pointers and of the length.
unfoldable pub s_memcpy : ℕ → ℕ → ℕ → Mem → Option Mem
unfolding copy_loop move
s_memcpy s1 s2 n m =
    let mask = bit_or (bit_or s1 s2) n in
    if n == 0
    then some m
    else if not (bit_and mask 1 == 0)
    then copy_loop 1 n n s1 s2 m
    else if not (bit_and mask 2 == 0)
    then copy_loop 2 n n s1 s2 m
    else copy_loop 4 n n s1 s2 m

-- A list of bytes stored from an address on.
abbrev pub store_bytes : Mem → ℕ → List ℕ → Mem
store_bytes m p l = λ b. if leb p b && ltb b (p + length l) then get_or l (b - p) 0 else m b

-- The `n` bytes from an address on.
abbrev pub bytes_at : Mem → ℕ → ℕ → List ℕ
bytes_at m a zero = []
bytes_at m a (suc n) = m a ∷ bytes_at m (a + 1) n
