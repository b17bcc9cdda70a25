-- ===== src/Lib.antt =====
-- The connection layer of an SSH library: channels with flow control over a packet protocol whose
-- algorithms both sides negotiate. Bytes from the socket pass the decipher and reach a handler by their
-- type; handlers read the fields with a buffer parser and call the client or the server, which keeps its
-- channels in a manager; a channel answers through the methods of the protocol, which write packets.
--
-- - Common: names of the libraries, texts, lists, tests and integers that the other files share.
-- - Wire: lib/protocol/utils.js, the numbers and the parser; Wire/Bounds where the parser may stand,
--   Wire/Encode what it reads of an encoded field, Wire/Text texts written with their length in
--   UTF-16 units (Node's utf8Write is an argument).
-- - Message: lib/protocol/Protocol.js (Message/Outbound, one definition for each method), the handlers of
--   lib/protocol/handlers.misc.js (Message/Inbound, Message/Request for CHANNEL_REQUEST), terminal modes
--   (Message/Terminal), and both sides of every message (Message/Exchange), joined in Message/Delivery by
--   the lemmas of Message/RoundTrip.
-- - Channel: lib/Channel.js and the handlers of lib/client.js and lib/server.js that act on a channel;
--   Model has the state, Writing and Control the operations; Send, Written and Resume are about data going
--   out, Flow about data coming in, Operations has all operations together, Returning, Phase and Lifecycle are
--   about that they return and about the order of messages, Stale about a chunk that is kept too long.
-- - Manager: ChannelManager of lib/utils.js.
-- - Kex: lib/protocol/kex.js; Offer writes and reads KEXINIT, Payload follows its stores, Negotiate is handleKexInit, Choose and
--   Agreement are its theorems, Gate is onKEXPayload.
-- - Session: the methods of lib/protocol/Protocol.js for a session and for the channels that a server
--   opens (Session/Outbound), read back in Session/Requests and Session/Openings, joined in
--   Session/Exchange.
-- - Auth: ssh-userauth with `_authsQueue`; Outbound has the methods of lib/protocol/Protocol.js, Inbound
--   the handlers of lib/protocol/handlers.misc.js, Signature the conversions of lib/protocol/utils.js, for
--   which Numbers has the lemmas. Dialogue is a client and a server in conversation, for which Requests,
--   Signed and Answers have the lemmas and InStep the theorems; Blob is about what is signed, Lengths
--   about the buffers, Malformed about packets that are cut short.
-- - Algorithms: generateAlgorithmList of lib/utils.js; Entries and Editing are the lemmas on its lists and
--   edits, Sound has the theorems.
-- - Cipher: allocPacket of every cipher of lib/protocol/crypto.js.
-- - Sftp: the framing in push of lib/protocol/SFTP.js; Bytewise is its description one byte at a time,
--   Pushing and Cut show that they agree, and Stream is about whole packets. Attrs and AttrsBack are the
--   attributes of files. Asking has the requests of the client, Serving the handlers of the server;
--   Exchange pairs them by the lemmas of Asked, Arrival, Sizes and EndToEnd follow a request to the
--   event. Answering has the answers of the server, Hearing the handlers of the client, Ids the numbers
--   of requests and their table; Answered and Callbacks follow an answer to its callback. Window has
--   sendOrBuffer and drainBuffer, whose loop over a packet is that of Channel._write; Trying, Keeping and
--   InOrder follow the packets through it.
--
-- A buffer is the list of its bytes, a text its UTF-8 bytes, a uint32 a number below 2 ^ 32, and the
-- incoming window an integer. The loops of `_write` and of SFTP's `push` run on fuel, one round for each
-- byte and one more, which is enough because a round takes a byte at least (in `_write`, if the packet
-- size is positive). The loop of `add` has its MAX_CHANNEL rounds.
--
-- Not modelled: sockets, timers and the stream library of Node (what a stream answers to `push` is an
-- argument), encryption, signatures and compression (Node's crypto and zlib; `inflate` is an argument in
-- Kex.Gate), the BER integers of the asn1 package (arguments in Auth.Signature), which method a client
-- tries next, the transfers and streams of SFTP, agents and key files.
pub mod Common
pub mod Channel
pub mod Wire
pub mod Message
pub mod Kex
pub mod Manager
pub mod Cipher
pub mod Sftp
pub mod Session
pub mod Algorithms
pub mod Auth
