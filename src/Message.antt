-- ===== src/Message.antt =====
-- lib/protocol/Protocol.js and lib/protocol/handlers.misc.js: the messages of the connection protocol,
-- as they are written and as they are read. A method of `Protocol` gives the packet that it hands to
-- `sendPacket`, before encryption: the size that it allocates, and its payload, the fields in the order
-- of the writes, each of which starts where the one before it ends. `wantReply` is already a Boolean.
pub mod Outbound
pub mod Terminal
pub mod Inbound
pub mod Request
pub mod RoundTrip
pub mod Exchange
pub mod Delivery
mod Tests
