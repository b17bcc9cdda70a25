-- ===== src/Sftp/Asking.antt =====
-- The requests of a client in lib/protocol/SFTP.js. The first argument is `server`, the second
-- `_writeReqid`. A number or a buffer is of its type already; the callback is kept by Ids.issue.
use ssh.Common.{
  ℕ, ◌+◌, ◌-◌, Bool, false, Option, none, some, [], ◌∷◌, ◌++◌, length, take, drop, min, codes,
  contains, ltb, leb, ◌==◌, if◌then◌else◌, Bytes,
}
use ssh.Common.Int.{ℤ}
use ssh.Wire.{u32, u64}
use ssh.Wire.Encode.{str}
use ssh.Message.Outbound.{Packet, packet}
use ssh.Message.Inbound.{is}
use ssh.Sftp.Attrs.{Attrs, attrs_bytes}
use ssh.Sftp.AttrsBack.{attrs_field}
use ssh.Sftp.Ids.{next_id, wire_id}

-- An exception, nothing to do, or a packet and the number of its request.
pub data Asked : Type 0 where
  throws done : Asked
  asks : ℤ → Packet → Asked

-- The length, the type and the number; `n` is the size of the buffer.
abbrev pub request : Bool → ℤ → ℕ → ℕ → Bytes → Asked
request server last n type fields =
    if server
    then throws
    else asks (next_id last)
        (packet n (u32 (n - 4) ++ (type ∷ (u32 (wire_id (next_id last)) ++ fields))))

unfoldable pub open' : Bool → ℤ → Bytes → ℕ → Attrs → Asked
open' server last path flags attrs =
    request server last (4 + 1 + 4 + 4 + length path + 4 + 4 + length (attrs_bytes attrs)) 3
      (str path ++ (u32 flags ++ (attrs_field attrs ++ [])))

unfoldable pub close : Bool → ℤ → Bytes → Asked
close server last handle = request server last (4 + 1 + 4 + 4 + length handle) 4 (str handle ++ [])

unfoldable pub lstat : Bool → ℤ → Bytes → Asked
lstat server last path = request server last (4 + 1 + 4 + 4 + length path) 7 (str path ++ [])

unfoldable pub fstat : Bool → ℤ → Bytes → Asked
fstat server last handle = request server last (4 + 1 + 4 + 4 + length handle) 8 (str handle ++ [])

unfoldable pub setstat : Bool → ℤ → Bytes → Attrs → Asked
setstat server last path attrs =
    request server last (4 + 1 + 4 + 4 + length path + 4 + length (attrs_bytes attrs)) 9
      (str path ++ (attrs_field attrs ++ []))

unfoldable pub fsetstat : Bool → ℤ → Bytes → Attrs → Asked
fsetstat server last handle attrs =
    request server last (4 + 1 + 4 + 4 + length handle + 4 + length (attrs_bytes attrs)) 10
      (str handle ++ (attrs_field attrs ++ []))

unfoldable pub opendir : Bool → ℤ → Bytes → Asked
opendir server last path = request server last (4 + 1 + 4 + 4 + length path) 11 (str path ++ [])

unfoldable pub readdir : Bool → ℤ → Bytes → Asked
readdir server last handle =
    request server last (4 + 1 + 4 + 4 + length handle) 12 (str handle ++ [])

unfoldable pub remove : Bool → ℤ → Bytes → Asked
remove server last path = request server last (4 + 1 + 4 + 4 + length path) 13 (str path ++ [])

unfoldable pub mkdir : Bool → ℤ → Bytes → Attrs → Asked
mkdir server last path attrs =
    request server last (4 + 1 + 4 + 4 + length path + 4 + length (attrs_bytes attrs)) 14
      (str path ++ (attrs_field attrs ++ []))

unfoldable pub rmdir : Bool → ℤ → Bytes → Asked
rmdir server last path = request server last (4 + 1 + 4 + 4 + length path) 15 (str path ++ [])

unfoldable pub realpath : Bool → ℤ → Bytes → Asked
realpath server last path = request server last (4 + 1 + 4 + 4 + length path) 16 (str path ++ [])

unfoldable pub stat : Bool → ℤ → Bytes → Asked
stat server last path = request server last (4 + 1 + 4 + 4 + length path) 17 (str path ++ [])

unfoldable pub rename : Bool → ℤ → Bytes → Bytes → Asked
rename server last old_path new_path =
    request server last (4 + 1 + 4 + 4 + length old_path + 4 + length new_path) 18
      (str old_path ++ (str new_path ++ []))

unfoldable pub readlink : Bool → ℤ → Bytes → Asked
readlink server last path = request server last (4 + 1 + 4 + 4 + length path) 19 (str path ++ [])

-- `PKT_RW_OVERHEAD`.
abbrev pub overhead : ℕ
overhead = 2048

-- `read`, which checks, and `read_`: the part that one packet holds. `max_pkt` is `_maxPktLen`; `buf_len`, `off` and `len` are where the
-- data goes.
unfoldable pub read : Bool → ℤ → (max_pkt : ℕ) → Bytes → (buf_len off len position : ℕ) → Asked
read server last max_pkt handle buf_len off len position =
    if leb buf_len off
    then throws
    else if ltb buf_len (off + len)
    then throws
    else request server last (4 + 1 + 4 + 4 + length handle + 8 + 4) 5
        (str handle ++ (u64 position ++ (u32 (min len (max_pkt - overhead)) ++ [])))

-- No length is no request, and the callback is called.
unfoldable pub write :
    Bool → ℤ → (max_pkt : ℕ) → Bytes → (buf : Bytes) → (off len position : ℕ) → Asked
write server last max_pkt handle buf off len position =
    let n = min len (max_pkt - overhead) in
    if server
    then throws
    else if ltb (length buf) off
    then throws
    else if ltb (length buf) (off + len)
    then throws
    else if len == 0
    then done
    else request server last (4 + 1 + 4 + 4 + length handle + 8 + 4 + n) 6
        (str handle ++ (u64 position ++ (u32 n ++ (take n (drop off buf) ++ []))))

-- OpenSSH takes the target first.
unfoldable pub symlink : Bool → ℤ → (open_ssh : Bool) → (target link : Bytes) → Asked
symlink server last open_ssh target link =
    let fields =
      if open_ssh then str target ++ (str link ++ []) else str link ++ (str target ++ []) in
    request server last (4 + 1 + 4 + 4 + length link + 4 + length target) 20 fields

-- The extensions that the server announced, by name.
abbrev pub Extensions : Type 0
Extensions = Bytes → Option Bytes

abbrev pub announces : Option Bytes → Bytes → Bool
announces none version = false
announces (some v) version = contains v version

-- Of an extension that has to be announced with a version.
abbrev pub extended : Bool → ℤ → Bool → ℕ → Bytes → Asked
extended server last supported n fields =
    if supported then request server last n 200 fields else throws

unfoldable pub ext_rename : Bool → ℤ → Extensions → Bytes → Bytes → Asked
ext_rename server last extensions old_path new_path =
    extended server last (is (extensions (codes "posix-rename@openssh.com")) (codes "1"))
      (4 + 1 + 4 + 4 + 24 + 4 + length old_path + 4 + length new_path)
      (str (codes "posix-rename@openssh.com") ++ (str old_path ++ (str new_path ++ [])))

unfoldable pub ext_statvfs : Bool → ℤ → Extensions → Bytes → Asked
ext_statvfs server last extensions path =
    extended server last (is (extensions (codes "statvfs@openssh.com")) (codes "2"))
      (4 + 1 + 4 + 4 + 19 + 4 + length path) (str (codes "statvfs@openssh.com") ++ (str path ++ []))

unfoldable pub ext_fstatvfs : Bool → ℤ → Extensions → Bytes → Asked
ext_fstatvfs server last extensions handle =
    extended server last (is (extensions (codes "fstatvfs@openssh.com")) (codes "2"))
      (4 + 1 + 4 + 4 + 20 + 4 + length handle)
      (str (codes "fstatvfs@openssh.com") ++ (str handle ++ []))

unfoldable pub ext_hardlink : Bool → ℤ → Extensions → Bytes → Bytes → Asked
ext_hardlink server last extensions old_path new_path =
    extended server last (announces (extensions (codes "hardlink@openssh.com")) (codes "1"))
      (4 + 1 + 4 + 4 + 20 + 4 + length old_path + 4 + length new_path)
      (str (codes "hardlink@openssh.com") ++ (str old_path ++ (str new_path ++ [])))

unfoldable pub ext_fsync : Bool → ℤ → Extensions → Bytes → Asked
ext_fsync server last extensions handle =
    extended server last (announces (extensions (codes "fsync@openssh.com")) (codes "1"))
      (4 + 1 + 4 + 4 + 17 + 4 + length handle)
      (str (codes "fsync@openssh.com") ++ (str handle ++ []))
