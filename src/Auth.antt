-- ===== src/Auth.antt =====
-- Authentication: the requests and answers of ssh-userauth and the queue `_authsQueue` of what is asked.
pub mod Signature
pub mod Numbers
pub mod Outbound
pub mod Inbound
pub mod Requests
pub mod Answers
pub mod Signed
pub mod Dialogue
pub mod InStep
pub mod Blob
pub mod Malformed
pub mod Lengths
mod Tests
