-- ===== src/Crc/Spec.antt =====
-- CRC-32 as it is defined: bit by bit, over the reflected polynomial, with no table.
use usb_fwu.Base.{ℕ, zero, suc, ◌+◌, ◌/◌, ◌%◌, ◌==◌, if◌then◌else◌, bit_xor}
use usb_fwu.Memory.{Mem}

abbrev pub reflected_polynomial : ℕ
reflected_polynomial = 0xedb88320

-- One division step of the shift register.
unfoldable pub crc_bit : ℕ → ℕ
crc_bit r = bit_xor (r / 2) (if r % 2 == 0 then 0 else reflected_polynomial)

unfoldable pub crc_bits : ℕ → ℕ → ℕ
crc_bits zero r = r
crc_bits (suc n) r = crc_bits n (crc_bit r)

-- The register after `n` bytes from `buf` on.
unfoldable pub crc_bytes : Mem → ℕ → ℕ → ℕ → ℕ
crc_bytes m zero buf r = r
crc_bytes m (suc n) buf r = crc_bytes m n (buf + 1) (crc_bits 8 (bit_xor r (m buf)))

unfoldable pub crc32 : Mem → ℕ → ℕ → ℕ
crc32 m buf n = bit_xor (crc_bytes m n buf 0xffffffff) 0xffffffff
