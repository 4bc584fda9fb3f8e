-- ===== src/Vfs/Protocol.antt =====
-- vfs/protocol.rs: the wire protocol of the kernel module, a byte codec over one page.
pub mod Words
pub mod Encode
pub mod Decode
pub mod Layout
pub mod RoundTrip
pub mod Listing
pub mod Paginate
pub mod Batches
