-- ===== src/Tests.antt =====
-- The theorems at concrete inputs: a board with a flash that obeys at once, and a USB controller that
-- is never busy.
pub mod Board
mod Parts
mod Upload
mod Boots
mod Requests
mod HostFiles
mod HostTransfers
mod Images
mod Downloads
