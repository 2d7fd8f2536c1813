-- ===== src/Crc/Table.antt =====
-- What Init_CRC32_Table leaves in crc32_ref_table.
use usb_fwu.Base.{
  ℕ, zero, suc, ◌+◌, ◌≤◌, ◌<◌, ◌≡◌, refl, ◌∙◌, true, inl, inr, Bool-cases, ◌==◌, ==_iff,
  every_below, every_below-true, List, length, get_or, set, length-set, get_or-set_self,
  get_or-set_ne, arith,
}
use usb_fwu.Crc.{table_entry, fill_table, init_crc32_table}
use usb_fwu.Crc.Spec.{crc_bit, crc_bits}

-- Entry `i` is the register `i` after eight division steps.
abbrev pub IsCrcTable : List ℕ → Type 0
IsCrcTable table = (i : ℕ) → i < 256 → get_or table i 0 ≡ crc_bits 8 i

entries : every_below (λ i. table_entry i == crc_bits 8 i) 256 ≡ true
unfolding every_below table_entry crc_bits crc_bit
entries = refl

entry_lem : (i : ℕ) → i < 256 → table_entry i ≡ crc_bits 8 i
entry_lem i h =
    (==_iff (table_entry i) (crc_bits 8 i)).0
      (every_below-true (λ i. table_entry i == crc_bits 8 i) 256 i h entries)

-- A slot behind the loop's index stays, and one ahead of it gets its entry.
fill_table-before :
    (n i j : ℕ) (table : List ℕ) → j < i → get_or (fill_table n i table) j 0 ≡ get_or table j 0
unfolding fill_table
fill_table-before zero i j table h = refl
fill_table-before (suc n) i j table h =
    fill_table-before n (i + 1) j (set table i (table_entry i)) (omega arith)
    ∙ get_or-set_ne table i j (table_entry i) 0 (omega arith)

fill_table-at :
    (n i j : ℕ) (table : List ℕ)
    → i ≤ j
    → j < i + n
    → i + n ≤ length table
    → get_or (fill_table n i table) j 0 ≡ table_entry j
unfolding fill_table
fill_table-at zero i j table h k l = absurd (omega arith)
fill_table-at (suc n) i j table h k l = elim (Bool-cases (i == j)) [
  | inl here ↦
      let e : i ≡ j = (==_iff i j).0 here in
      rw (← e) (
        fill_table-before n (i + 1) i (set table i (table_entry i)) (omega arith)
        ∙ get_or-set_self table i (table_entry i) 0 (omega arith))
  | inr ahead ↦
      fill_table-at n (i + 1) j (set table i (table_entry i)) (ground arith) (omega arith)
        (omega (arith, length-set table i (table_entry i)))
]

-- Whatever the 256 words were, `Init_CRC32_Table` makes them the table of CRC-32.
pub init_crc32_table-IsCrcTable :
    (table : List ℕ) → length table ≡ 256 → IsCrcTable (init_crc32_table table)
unfolding init_crc32_table
init_crc32_table-IsCrcTable table e i h =
    fill_table-at 256 0 i table (omega arith) (omega arith) (omega arith) ∙ entry_lem i h
