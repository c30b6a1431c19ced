-- ===== src/InboundForm.antt =====
-- frontend/src/lib/xray/inbound-form-adapter.ts: a stored inbound row to what the inbound form holds
-- (`Stored`), and what the form holds to what is sent (`Prune` and `Sent`).
pub mod Prune
mod Stored
mod Sent
pub mod Certificates
pub mod Normal
pub mod Masks
mod Tests
unfoldable pub use Prune.*
unfoldable pub use Stored.*
unfoldable pub use Sent.*
