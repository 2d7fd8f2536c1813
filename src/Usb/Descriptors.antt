-- ===== src/Usb/Descriptors.antt =====
-- LPC214X_USB_FWU/usb_fwu/fwu_usb_descr.c: the descriptors of the device, and fwu_usb.h: their types.
use usb_fwu.Base.{ℕ, List, [], ◌∷◌, ◌++◌}

abbrev pub usb_descr_type_device : ℕ
usb_descr_type_device = 1

abbrev pub usb_descr_type_configuration : ℕ
usb_descr_type_configuration = 2

abbrev pub usb_descr_type_string : ℕ
usb_descr_type_string = 3

abbrev pub usb_descr_type_interface : ℕ
usb_descr_type_interface = 4

abbrev pub usb_descr_type_endpoint : ℕ
usb_descr_type_endpoint = 5

abbrev pub device_descriptor : List ℕ
device_descriptor =
    18 ∷ 1 ∷ 0x10 ∷ 0x01 ∷ 0 ∷ 0 ∷ 0 ∷ 64 ∷ 0x37 ∷ 0x12 ∷ 0xcd ∷ 0x1b ∷ 0x00 ∷ 0x01 ∷ 1 ∷ 2 ∷ 3 ∷ 1
    ∷ []

-- `wTotalLength` counts the interface and its two endpoints: 9 + 9 + 2 * 7.
abbrev pub configuration_descriptor : List ℕ
configuration_descriptor = 9 ∷ 2 ∷ 32 ∷ 0 ∷ 1 ∷ 1 ∷ 0 ∷ 0xa0 ∷ 50 ∷ []

abbrev pub interface_descriptor : List ℕ
interface_descriptor = 9 ∷ 4 ∷ 0 ∷ 0 ∷ 2 ∷ 0 ∷ 0 ∷ 0 ∷ 0 ∷ []

abbrev pub ep2_out_descriptor : List ℕ
ep2_out_descriptor = 7 ∷ 5 ∷ 2 ∷ 2 ∷ 64 ∷ 0 ∷ 0 ∷ []

abbrev pub ep2_in_descriptor : List ℕ
ep2_in_descriptor = 7 ∷ 5 ∷ 0x82 ∷ 2 ∷ 64 ∷ 0 ∷ 0 ∷ []

abbrev pub language_descriptor : List ℕ
language_descriptor = 4 ∷ 3 ∷ 0x09 ∷ 0x04 ∷ []

-- the characters of a string descriptor, two bytes each
abbrev pub wide : List ℕ → List ℕ
wide [] = []
wide (c ∷ cs) = c ∷ 0 ∷ wide cs

-- "USB FWU"
abbrev pub manufacturer_descriptor : List ℕ
manufacturer_descriptor = 16 ∷ 3 ∷ wide (85 ∷ 83 ∷ 66 ∷ 32 ∷ 70 ∷ 87 ∷ 85 ∷ [])

-- "USB Firmware Upgrader"
abbrev pub product_descriptor : List ℕ
product_descriptor =
    44
    ∷ 3
    ∷ wide (
        85 ∷ 83 ∷ 66 ∷ 32 ∷ 70 ∷ 105 ∷ 114 ∷ 109 ∷ 119 ∷ 97 ∷ 114 ∷ 101 ∷ 32 ∷ 85 ∷ 112 ∷ 103 ∷ 114
        ∷ 97 ∷ 100 ∷ 101 ∷ 114 ∷ [])

-- "000011"
abbrev pub serial_descriptor : List ℕ
serial_descriptor = 14 ∷ 3 ∷ wide (48 ∷ 48 ∷ 48 ∷ 48 ∷ 49 ∷ 49 ∷ [])

-- the descriptors of the table, in order
abbrev pub descriptor_list : List (List ℕ)
descriptor_list =
    device_descriptor ∷ configuration_descriptor ∷ interface_descriptor ∷ ep2_out_descriptor
    ∷ ep2_in_descriptor ∷ language_descriptor ∷ manufacturer_descriptor ∷ product_descriptor
    ∷ serial_descriptor ∷ []

-- The descriptors in one array, behind them the terminating zero.
abbrev pub join : List (List ℕ) → List ℕ
join [] = 0 ∷ []
join (d ∷ ds) = d ++ join ds

abbrev pub ab_descriptors : List ℕ
ab_descriptors = join descriptor_list
