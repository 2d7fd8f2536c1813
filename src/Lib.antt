-- ===== src/Lib.antt =====
-- The USB firmware upgrader of the LPC214x (LPC214X_USB_FWU/usb_fwu), the program in the first 8 KB of
-- the flash that receives a firmware over USB, writes it behind itself and starts it.
--
-- The program. After a reset `main` starts the firmware at 0x2000 if its header states a valid length
-- and the CRC-32 of its code, unless an application has left a mark in RAM. Else it initialises the
-- hardware and serves two requests in an endless loop: PUT_FW_INFO (erase the flash, receive the
-- firmware, write it in blocks of 4096 bytes, check it, start it) and GET_FW (send the firmware).
-- Requests come over the control endpoint, in interrupts that set `gState` and the description of the
-- firmware; the data comes and goes over a bulk endpoint, through two rings of 64-byte packets. The
-- program of the host reads a hex file into an image, tells the device its description, sends it in
-- blocks of 4096 bytes and waits for two answers; it also reads the firmware back to a file.
--
-- Files and code (paths below LPC214X_USB_FWU/usb_fwu):
--   Memory      s_memset and s_memcpy (fwu_utils.c) on one byte-addressed memory of flash and RAM
--   Crc         Reflect and Init_CRC32_Table (fwu_init.c), calc_crc and make_cmd (fwu_utils.c)
--   Queue       the rings (fwu_queue.c); Queue.Fifo is their abstract specification
--   Flash       get_sector_number, flash_write, flash_erase_sectors (fwu_utils.c); Flash.Rom is the
--               interface of the programming routine in the ROM of the chip
--   Image       do_switch_to_firmware (fwu_utils.c) and the beginning of main (fwu.c)
--   Stream      the globals, send_to_host, stream_rx, stream_tx and the loop of main (fwu.c)
--   Usb         the USB device: Engine and Endpoint (fwu_usb_thumb.c, fwu_usb_hw.c) on registers,
--               Descriptors (fwu_usb_descr.c), Request (fwu_usb_req.c), Vendor (the vendor requests),
--               Control and Bulk (fwu_usb_ep.c), Interrupt (fwu_int.c)
--   Host        the program of the host (paths below fwl_src/usbfwu): FwuList (fwu_list.cpp), Hex and
--               HexFile (fwu_hex_processing.cpp, LoadHexFile of fwu_utils.cpp), Crc and Command
--               (fwu_cmd.cpp, calc_crc, calc_file_crc and IsFWU of fwu_utils.cpp, MakeRxCmd of
--               RxPipe.cpp), Transfer (the preparation and the protocol of an upload in WriteFWDlg.cpp,
--               ProcessBuffer of TxStreamPipe.cpp, ProcessData of RxPipe.cpp, WaitDevResponse and ErrProc
--               of fwu_utils.cpp), Session (what the start buttons of ReadFWDlg.cpp and WriteFWDlg.cpp
--               send and report, wait_for_flag of fwu_utils.cpp)
--   Base        numbers, lists and bits that the other files share
--   Tests       the theorems at concrete inputs
--
-- How the code is read. An unsigned or an int is a natural number below 2^32; a comparison of ints goes
-- by the sign bit (Base.Word), and a difference of them wraps. Memory is a function from addresses to
-- bytes. An `s_memcpy` of four bytes is a load and a store of a word. A loop that counts is recursion
-- on the rounds left; a loop that polls hardware is recursion on fuel, and `none` is a loop that has
-- not ended then. The streams take a list that holds, for each round of their loop, the interrupts of
-- the bulk endpoint that come before it; the theorems on termination bound its length. The fuel of
-- the flash loops has to exceed the bound on BUSY answers (Flash.Rom), that of the USB loops the bound
-- on polls (Usb.Responds). Functions that disable the interrupts are one step.
--
-- The program of the host: memory is a function from addresses to bytes there too, a local array
-- stands at address 0 of a memory of its own, and a file is the list of its bytes. An item that malloc
-- has given is a position in a list of items, and a pointer to it that position counted from 1. The
-- binary search runs on fuel, one more than the entries. A wait is given the events of its rounds.
-- The buffer FWBuf has no end in the memory: what LoadHexFile stores behind its 256 KB, for an image that
-- is larger, is not followed, and the theorems on the image that is sent take one that fits. A line of a
-- hex file is followed by NULs, where the code's line buffer still holds the end of a longer line before
-- it. A length that the code keeps in an int is that of a file below 2 GB.
-- gByteWidth keeps its value of 8; malloc, GlobalAlloc and the opening and writing of files succeed.
--
-- Parameters, with what is relied on as fields of a record: the programming routine in ROM (Iap), which
-- the user manual of the LPC214x documents, and the registers of the USB controller (Controller, and
-- Responds for its behaviour). Iap reads a success as done: the bytes of the source then stand
-- at the destination, whatever stood there. Two things are not in Iap: what programming makes of flash
-- that is not erased, and that the routine uses the 32 bytes at the top of RAM. Where a theorem needs
-- a copy to succeed, Works (Flash.Write.Works) is its hypothesis: an idle routine prepares a sector that
-- there is, and then carries out a copy that the manual allows, which is one into that sector, aligned,
-- of a listed size, from a good source and onto erased flash. The addresses that the linker chooses are
-- in Layout.
--
-- Not modelled: HardwareInit and InitUSB, which only set registers; the assembler files (vectors, the
-- switch of the processor's mode, start_firmware, which is a verdict here); cpu_irq_handler, which jumps
-- through a register; the delay loops; the interleaving of control requests with a stream that
-- runs, so `gState` and the description do not change during one. Of the host's program, the
-- dialogs, its library for the USB driver (USBIOLIB; what is sent over it arrives as a hypothesis that
-- two memories hold the same bytes) and fwu_list_sort, which nothing calls. The demo application
-- (LPC214X_USB_APP) and its copy of the TNKernel library are other programs.
pub mod Base
pub mod Memory
pub mod Crc
pub mod Queue
pub mod Flash
pub mod Image
pub mod Stream
pub mod Usb
pub mod Host
pub mod Tests
