-- ===== src/Tests/Board.antt =====
-- The test data: a controller of the flash, a USB controller, a memory and a state of the loader.
use usb_fwu.Base.{
  ℕ, ◌+◌, ◌-◌, ◌==◌, if◌then◌else◌, ◌<◌, ◌≡◌, refl, arith, List, replicate, inl, inr, ◌⊎◌, ◌≢◌,
  bit_and, length-replicate, ◌%◌, leb, ltb, not, ◌&&◌, ◌||◌, Bool, Option, none, some, ap, ◌∙◌,
}
use usb_fwu.Flash.Write.Works.{IsAllowed, Works}
use usb_fwu.Memory.{Mem, move}
use usb_fwu.Memory.Copy.{filled}
use usb_fwu.Crc.{init_crc32_table}
use usb_fwu.Crc.Table.{IsCrcTable, init_crc32_table-IsCrcTable}
use usb_fwu.Queue.{FwuDq}
use usb_fwu.Flash.Rom.{Iap, sector_base}
use usb_fwu.Image.{FwInfo}
use usb_fwu.Stream.{Layout, Loader}
use usb_fwu.Stream.Safe.{InRam}
use usb_fwu.Usb.{Controller, Reg, usb_dev_int_st}
use usb_fwu.Usb.Responds.{Responds}

abbrev pub call : ℕ → ℕ → ℕ → ℕ → ℕ → Unit {0} → Mem → ℕ × Unit {0} × Mem
call cmd p0 p1 p2 p3 c m =
    if cmd == 51
    then (0, tt, move p2 p0 p1 m)
    else if cmd == 52
    then (0, tt, filled (sector_base p0) 255 (sector_base (p1 + 1) - sector_base p0) m)
    else (0, tt, m)

pub call-success : (cmd p0 p1 p2 p3 : ℕ) (c : Unit {0}) (m : Mem) → (call cmd p0 p1 p2 p3 c m).0 ≡ 0
call-success cmd p0 p1 p2 p3 c m = ground arith

-- A flash that obeys at once.
abbrev pub ready_flash : Iap
ready_flash = record {
  Chip = Unit {0};
  call = call;
  pending = λ c. 0;
  max_pending = 0;
  pending-le = λ c. omega arith;
  settles =
      λ cmd p0 p1 p2 p3 c m busy. absurd (omega (arith, call-success cmd p0 p1 p2 p3 c m, busy));
  fails = λ cmd p0 p1 p2 p3 c m bad. absurd (bad (call-success cmd p0 p1 p2 p3 c m));
  prepares = λ p0 p1 p2 p3 c m. refl;
  copies = λ p0 p1 p2 p3 c m done. refl;
  erases = λ p0 p1 p2 p3 c m done. refl;
}

abbrev success_or : ℕ → Bool → ℕ
success_or code ok = if ok then 0 else code

-- The routine as the manual tells: the chip remembers the prepared sector. INVALID_SECTOR is 7,
-- DST_ADDR_ERROR 3, COUNT_ERROR 6, SECTOR_NOT_PREPARED 9, SRC_ADDR_ERROR 2.
abbrev pub copy_status : ℕ → ℕ → ℕ → Option ℕ → ℕ
copy_status dst src len none = 9
copy_status dst src len (some n) =
    if not (src % 4 == 0)
    then 2
    else if not (dst % 256 == 0)
    then 3
    else if not (len == 256 || len == 512 || len == 1024 || len == 4096)
    then 6
    else if leb (sector_base n) dst && leb (dst + len) (sector_base (n + 1))
    then 0
    else 9

abbrev pub careful_call : ℕ → ℕ → ℕ → ℕ → ℕ → Option ℕ → Mem → ℕ × Option ℕ × Mem
careful_call cmd p0 p1 p2 p3 c m =
    if cmd == 50
    then (if leb p0 p1 && ltb p1 27 then (0, some p0, m) else (7, none, m))
    else if cmd == 51
    then (let rc = copy_status p0 p1 p2 c in
        if rc == 0 then (0, none, move p2 p0 p1 m) else (rc, c, m))
    else if cmd == 52
    then (0, none, filled (sector_base p0) 255 (sector_base (p1 + 1) - sector_base p0) m)
    else (1, c, m)

pub careful-ready :
    (cmd p0 p1 p2 p3 : ℕ) (c : Option ℕ) (m : Mem) → (careful_call cmd p0 p1 p2 p3 c m).0 ≢ 11
careful-ready cmd p0 p1 p2 p3 none m = λ e. ground (arith, e)
careful-ready cmd p0 p1 p2 p3 (some n) m = λ e. ground (arith, e)

pub careful-fails :
    (cmd p0 p1 p2 p3 : ℕ) (c : Option ℕ) (m : Mem)
    → (careful_call cmd p0 p1 p2 p3 c m).0 ≢ 0
    → (careful_call cmd p0 p1 p2 p3 c m).2 ≡ m
careful-fails cmd p0 p1 p2 p3 c m h = ground (arith, h)

pub careful-copies :
    (p0 p1 p2 p3 : ℕ) (c : Option ℕ) (m : Mem)
    → (careful_call 51 p0 p1 p2 p3 c m).0 ≡ 0
    → (careful_call 51 p0 p1 p2 p3 c m).2 ≡ move p2 p0 p1 m
careful-copies p0 p1 p2 p3 c m h = ground (arith, h)

abbrev pub careful_flash : Iap
careful_flash = record {
  Chip = Option ℕ;
  call = careful_call;
  pending = λ c. 0;
  max_pending = 0;
  pending-le = λ c. omega arith;
  settles = λ cmd p0 p1 p2 p3 c m busy. absurd (careful-ready cmd p0 p1 p2 p3 c m busy);
  fails = careful-fails;
  prepares = λ p0 p1 p2 p3 c m. ground arith;
  copies = careful-copies;
  erases = λ p0 p1 p2 p3 c m done. refl;
}

pub careful-copied :
    (n p0 p1 p2 p3 : ℕ) (c : Option ℕ) (m : Mem)
    → c ≡ some n
    → IsAllowed n p0 p1 p2 m
    → (careful_call 51 p0 p1 p2 p3 c m).0 ≡ 0
careful-copied n p0 p1 p2 p3 c m e a =
    ap (λ (x : Option ℕ). (careful_call 51 p0 p1 p2 p3 x m).0) e
    ∙ ground (arith, a.from, a.to, a.aligned, a.size, a.source.aligned)

abbrev pub careful_flash-Works : Works careful_flash
careful_flash-Works = record {
  Idle = λ c. Unit {0};
  Prepared = λ n c. c ≡ some n;
  prepared = λ n c m few idle. (ground arith, ground arith);
  stays = λ n p0 p1 p2 p3 c m p busy. absurd (careful-ready 51 p0 p1 p2 p3 c m busy);
  copied = λ n p0 p1 p2 p3 c m p a over. (careful-copied n p0 p1 p2 p3 c m p a, tt);
}

-- Every status bit is set, and no FIFO is open.
abbrev pub ready_read : Reg → Unit {0} → ℕ × Unit {0}
ready_read usb_dev_int_st d = (0x130, tt)
ready_read r d = (0, tt)

abbrev pub ready_usb : Controller
ready_usb = record { Dev = Unit {0}; write = λ r v d. tt; read = ready_read }

pub zeros : (a : ℕ) → 0 < 256
zeros a = omega arith

-- The table that the upgrader computes.
abbrev pub table : List ℕ
table = init_crc32_table (replicate 256 0)

pub table-IsCrcTable : IsCrcTable table
table-IsCrcTable = init_crc32_table-IsCrcTable (replicate 256 0) (length-replicate {A = ℕ} 256 0)

abbrev pub board : Layout
board = record { crc32_ref_table = table; g_stream_rx_buf = 0x40001000; cmd_buf = 0x40003000 }

abbrev pub blank_info : FwInfo
blank_info = record { fw_product_id = 0; fw_version = 0; fw_length = 0; fw_crc = 0 }

abbrev pub rx_queue : FwuDq
rx_queue = record { data_fifo = 0x40000400; num_entries = 8; tail_cnt = 0; header_cnt = 0 }

abbrev pub tx_queue : FwuDq
tx_queue = record { data_fifo = 0x40000800; num_entries = 8; tail_cnt = 0; header_cnt = 0 }

abbrev pub loader : Loader (Unit {0})
loader = record {
  mem = λ a. 0;
  chip = tt;
  queue_ep2_rx = rx_queue;
  queue_ep2_tx = tx_queue;
  info = record { fw_product_id = 7; fw_version = 1; fw_length = 100; fw_crc = 0 };
  g_state = 0x10;
  g_full_block = 0;
}

pub loader-InRam : InRam board loader
loader-InRam = record {
  rx = record {
    valid = record { room = omega arith; header_in = omega arith; tail_in = omega arith };
    in_ram = omega arith;
  };
  tx = record {
    valid = record { room = omega arith; header_in = omega arith; tail_in = omega arith };
    in_ram = omega arith;
  };
  stream_in_ram = omega arith;
  cmd_in_ram = omega arith;
  stream_apart = inr (omega arith);
  cmd_apart = inr (omega arith);
}

-- The bits that are waited for.
abbrev pub Awaited : ℕ → Unit {0} → Type 0
Awaited mask d = (mask ≡ 0x10) ⊎ (mask ≡ 0x20) ⊎ (mask ≡ 0x100)

pub never-zero : (mask : ℕ) (d : Unit {0}) → Awaited mask d → bit_and 0x130 mask ≢ 0
never-zero mask d (inl e) = rw e (omega arith)
never-zero mask d (inr (inl e)) = rw e (omega arith)
never-zero mask d (inr (inr e)) = rw e (omega arith)

abbrev pub ready_usb-Responds : Responds ready_usb
ready_usb-Responds = record {
  Awaits = Awaited;
  polls = λ d. 0;
  words = λ d. 0;
  max_polls = 0;
  polls-le = λ d. omega arith;
  words-le = λ d. omega arith;
  accepts = λ cmd d. inl refl;
  takes = λ value d. inl refl;
  answers = λ cmd d. inr (inl refl);
  realizes = λ size d. inr (inr refl);
  settles = λ mask d w e. absurd (never-zero mask d w e);
  closes = λ w d open_fifo. absurd (open_fifo refl);
}
