-- ===== src/Tasso.antt =====
-- The signals of a second channel on Binance (src/tasso): a new signal, a revision of the stop, and the
-- notice that a stop was hit.
pub mod Models
pub mod Orders
pub mod Revisions
pub mod Closing
pub mod Dispatch
pub mod Effects
pub mod Admission
pub mod Brackets
