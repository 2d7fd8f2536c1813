-- ===== src/Tests/HostFiles.antt =====
-- The host's list and its hex files at concrete inputs.
use Prim.Native.Nat.{compare}
use usb_fwu.Base.{ℕ, ◌+◌, ◌<◌, ◌≡◌, refl, arith, none, some, [], ◌∷◌, get_or}
use usb_fwu.Host.FwuList.{
  FwuListinfo, fwu_list_init, done, fwu_list_insert_by_order, fwu_list_search, search_loop,
  insert_found, fwu_list_insert, make_room, not_insert_dup, fwu_list_exchange,
}
use usb_fwu.Host.FwuList.Contents.{IsValid}
use usb_fwu.Host.FwuList.Search.{by_key}
use usb_fwu.Host.FwuList.Order.{Inserted, fwu_list_insert_by_order_lem}
use usb_fwu.Host.Hex.{ok, err, crc_error, hexchar_to_bin, read_line}
use usb_fwu.Host.Hex.Line.{hex_line, hex_bytes, read_line_corrupt, read_line_stray}
use usb_fwu.Host.HexFile.{HexState, proc_hex_file, make_output_bin_file}
use usb_fwu.Host.HexFile.Print.{image_lines}
use usb_fwu.Host.HexFile.Load.{hex_file_load}

-- Two pointers, of a capacity of four.
abbrev two_items : FwuListinfo
two_items = record { curr_capacity = 4; num_elem = 2; p_list = 3 ∷ 9 ∷ 0 ∷ 0 ∷ [] }

two_items-IsValid : IsValid two_items
two_items-IsValid = record { fits = omega arith; allocated = refl }

two_items_ascend :
    (i j : ℕ) → i < j → j < 2 → get_or two_items.p_list i 0 + 1 < get_or two_items.p_list j 0 + 1
two_items_ascend i j p q =
    let first : i ≡ 0 = omega arith in let last : j ≡ 1 = omega arith in ground arith

fwu_list_insert_by_order_lem_example :
    Inserted
      (λ p. p + 1)
      5
      two_items
      (fwu_list_insert_by_order two_items 5 (by_key (λ p. p + 1)) not_insert_dup)
fwu_list_insert_by_order_lem_example =
    fwu_list_insert_by_order_lem (λ p. p + 1) 5 two_items two_items-IsValid (omega arith)
      two_items_ascend

inserted_between :
    fwu_list_insert_by_order two_items 5 compare not_insert_dup
    ≡ some (
      done,
      record { curr_capacity = 4; num_elem = 3; p_list = 3 ∷ 5 ∷ 9 ∷ 0 ∷ [] },
      not_insert_dup,
    )
unfolding fwu_list_insert_by_order fwu_list_search search_loop insert_found fwu_list_insert
    make_room
inserted_between = refl

-- The second position is not checked against the count: an entry that is not in use is exchanged in.
exchanged_in : (fwu_list_exchange two_items 0 3).1.p_list ≡ 0 ∷ 9 ∷ 0 ∷ 3 ∷ []
unfolding fwu_list_exchange
exchanged_in = refl

hex_file_load_example :
    (s : HexState) × (proc_hex_file fwu_list_init []
        (image_lines 0x2000 ((1 ∷ 2 ∷ []) ∷ (3 ∷ []) ∷ []))
      ≡ ok s)
    × ((make_output_bin_file s).0 ≡ 1 ∷ 2 ∷ 3 ∷ [])
hex_file_load_example =
    hex_file_load fwu_list_init [] 0x2000 (1 ∷ 2 ∷ []) ((3 ∷ []) ∷ [])
      (record { fits = omega arith; allocated = refl }) (omega arith) (omega arith) (omega arith)

read_line_corrupt_example : read_line (hex_line 1 (0 ∷ 0x10 ∷ 0 ∷ 8 ∷ 232 ∷ [])) ≡ err crc_error
read_line_corrupt_example =
    read_line_corrupt 1 (0 ∷ 0x10 ∷ 0 ∷ 7 ∷ 232 ∷ []) 3 8 (omega arith) (omega arith) refl refl
      (omega arith) (omega arith) (λ e. absurd (omega arith))

letter_z : hexchar_to_bin b'Z' ≡ none
unfolding hexchar_to_bin
letter_z = refl

read_line_stray_example :
    read_line
      (b':' ∷ hex_bytes (1 ∷ []) (b'Z' ∷ b'0' ∷ hex_bytes (0x10 ∷ 0 ∷ 7 ∷ 233 ∷ []) (10 ∷ [])))
    ≡ ok (record { line_addr = 0xffffff10; rec_type = 0; bytes = 7 ∷ [] })
read_line_stray_example =
    read_line_stray 1 b'Z' b'0' 0x10 0 (7 ∷ 233 ∷ []) letter_z (omega arith) (omega arith)
      (omega arith) (omega arith) refl refl
