-- ===== src/Kex.antt =====
-- lib/protocol/kex.js: the offer of algorithms, KEXINIT written and read, the negotiation, and the
-- packets let through while a key exchange runs. The exchanges themselves (Diffie-Hellman, signatures,
-- key derivation) call Node's crypto and are not modelled; the packets handed to them are.
pub mod Offer
pub mod Payload
pub mod Negotiate
pub mod Choose
pub mod Agreement
pub mod Gate
mod Tests
