-- ===== src/Client.antt =====
-- src/client.rs: the boundary where exchange responses become trusted values.
pub mod Status
pub mod Fill
pub mod Book
