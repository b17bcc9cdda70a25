-- ===== src/Message/RoundTrip.antt =====
-- What a peer that runs the same code reads from each message.
pub mod Channel
pub mod Global
pub mod Opening
pub mod Asking
