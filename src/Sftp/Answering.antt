-- ===== src/Sftp/Answering.antt =====
-- The answers of a server in lib/protocol/SFTP.js. The first argument is `server`; `none` is an exception.
use ssh.Common.{
  ℕ, ◌+◌, ◌-◌, Bool, Option, none, List, [], ◌∷◌, ◌++◌, length, leb, if◌then◌else◌, Bytes,
}
use ssh.Wire.{u32}
use ssh.Wire.Encode.{str}
use ssh.Message.Outbound.{Packet, packet, server_only}
use ssh.Sftp.Attrs.{Attrs, attrs_bytes}
use ssh.Sftp.AttrsBack.{attrs_field}

abbrev answer : ℕ → ℕ → ℕ → Bytes → Packet
answer id n type fields = packet n (u32 (n - 4) ++ (type ∷ (u32 id ++ fields)))

abbrev sent_if : Bool → Option Packet → Option Packet
sent_if ok p = if ok then p else none

unfoldable pub handle : Bool → ℕ → Bytes → Option Packet
handle server id h =
    sent_if (leb (length h) 256)
      (server_only server (answer id (4 + 1 + 4 + 4 + length h) 102 (str h ++ [])))

-- `VALID_STATUS_CODES`.
abbrev pub is_status : ℕ → Bool
is_status code = leb code 8

-- No message is an empty one.
unfoldable pub status : Bool → ℕ → ℕ → Bytes → Option Packet
status server id code message = sent_if (is_status code) (
    server_only server (
      answer id (4 + 1 + 4 + 4 + 4 + length message + 4) 101
        (u32 code ++ (str message ++ (str [] ++ [])))))

-- A text is its bytes in its encoding.
unfoldable pub data' : Bool → ℕ → Bytes → Option Packet
data' server id b = server_only server (answer id (4 + 1 + 4 + 4 + length b) 103 (str b ++ []))

-- A name without attributes has empty ones, and a missing name is empty.
pub record Name : Type 0 where
  pub filename : Bytes
  pub longname : Bytes
  pub attrs : Attrs

abbrev pub names_length : List Name → ℕ
names_length [] = 0
names_length (n ∷ ns) =
    4
    + length (n.filename)
    + (4 + length (n.longname))
    + (4 + length (attrs_bytes (n.attrs)))
    + names_length ns

abbrev pub names_fields : List Name → Bytes
names_fields [] = []
names_fields (n ∷ ns) =
    str (n.filename) ++ (str (n.longname) ++ (attrs_field (n.attrs) ++ names_fields ns))

unfoldable pub name : Bool → ℕ → List Name → Option Packet
name server id names =
    server_only server (
      answer id (4 + 1 + 4 + 4 + names_length names) 104 (u32 (length names) ++ names_fields names))

unfoldable pub attrs : Bool → ℕ → Attrs → Option Packet
attrs server id a =
    server_only server
      (answer id (4 + 1 + 4 + 4 + length (attrs_bytes a)) 105 (attrs_field a ++ []))
