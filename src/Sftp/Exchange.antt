-- ===== src/Sftp/Exchange.antt =====
-- Every request of SFTP: written by the client, and what the server emits for it.
use ssh.Common.{
  ℕ, ◌+◌, ◌-◌, ◌<◌, ◌≤◌, ◌^◌, ◌≡◌, Bool, true, false, Option, none, some, [], ◌++◌, length, take,
  drop, min, codes, Bytes, IsU32,
}
use ssh.Common.Int.{ℤ}
use ssh.Wire.Encode.{str}
use ssh.Message.Inbound.{is}
use ssh.Sftp.Attrs.{Attrs}
use ssh.Sftp.AttrsBack.{FitsAttrs, kept}
use ssh.Sftp.Asking
use ssh.Sftp.Asking.{Asked, Extensions, announces, overhead}
use ssh.Sftp.Serving
use ssh.Sftp.Serving.{Served, SftpCall, serve}

pub data SftpRequest : Type 0 where
  open' : Bytes → ℕ → Attrs → SftpRequest
  close : Bytes → SftpRequest
  lstat : Bytes → SftpRequest
  fstat : Bytes → SftpRequest
  setstat : Bytes → Attrs → SftpRequest
  fsetstat : Bytes → Attrs → SftpRequest
  opendir : Bytes → SftpRequest
  readdir : Bytes → SftpRequest
  remove : Bytes → SftpRequest
  mkdir : Bytes → Attrs → SftpRequest
  rmdir : Bytes → SftpRequest
  realpath : Bytes → SftpRequest
  stat : Bytes → SftpRequest
  rename : Bytes → Bytes → SftpRequest
  readlink : Bytes → SftpRequest
  read : Bytes → (buf_len off len position : ℕ) → SftpRequest
  write : Bytes → Bytes → (off len position : ℕ) → SftpRequest
  symlink : (target link : Bytes) → SftpRequest
  ext_rename : Bytes → Bytes → SftpRequest
  ext_statvfs : Bytes → SftpRequest
  ext_fstatvfs : Bytes → SftpRequest
  ext_hardlink : Bytes → Bytes → SftpRequest
  ext_fsync : Bytes → SftpRequest

-- The two sides agree on `_isOpenSSH`; `max_pkt` is the client's `_maxPktLen`.
module _ (open_ssh : Bool) (max_pkt : ℕ) (extensions : Extensions) where
  unfoldable pub asked : ℤ → SftpRequest → Asked
  asked last (open' path flags attrs) = Asking.open' false last path flags attrs
  asked last (close handle) = Asking.close false last handle
  asked last (lstat path) = Asking.lstat false last path
  asked last (fstat handle) = Asking.fstat false last handle
  asked last (setstat path attrs) = Asking.setstat false last path attrs
  asked last (fsetstat handle attrs) = Asking.fsetstat false last handle attrs
  asked last (opendir path) = Asking.opendir false last path
  asked last (readdir handle) = Asking.readdir false last handle
  asked last (remove path) = Asking.remove false last path
  asked last (mkdir path attrs) = Asking.mkdir false last path attrs
  asked last (rmdir path) = Asking.rmdir false last path
  asked last (realpath path) = Asking.realpath false last path
  asked last (stat path) = Asking.stat false last path
  asked last (rename old_path new_path) = Asking.rename false last old_path new_path
  asked last (readlink path) = Asking.readlink false last path
  asked last (read handle buf_len off len position) =
      Asking.read false last max_pkt handle buf_len off len position
  asked last (write handle buf off len position) =
      Asking.write false last max_pkt handle buf off len position
  asked last (symlink target link) = Asking.symlink false last open_ssh target link
  asked last (ext_rename old_path new_path) =
      Asking.ext_rename false last extensions old_path new_path
  asked last (ext_statvfs path) = Asking.ext_statvfs false last extensions path
  asked last (ext_fstatvfs handle) = Asking.ext_fstatvfs false last extensions handle
  asked last (ext_hardlink old_path new_path) =
      Asking.ext_hardlink false last extensions old_path new_path
  asked last (ext_fsync handle) = Asking.ext_fsync false last extensions handle

  -- What the server emits.
  unfoldable pub told : SftpRequest → SftpCall
  told (open' path flags attrs) = Serving.open' (some path) (some flags) (kept attrs)
  told (close handle) = Serving.close handle
  told (lstat path) = Serving.lstat path
  told (fstat handle) = Serving.fstat handle
  told (setstat path attrs) = Serving.setstat (some path) (kept attrs)
  told (fsetstat handle attrs) = Serving.fsetstat handle (kept attrs)
  told (opendir path) = Serving.opendir path
  told (readdir handle) = Serving.readdir handle
  told (remove path) = Serving.remove path
  told (mkdir path attrs) = Serving.mkdir (some path) (kept attrs)
  told (rmdir path) = Serving.rmdir path
  told (realpath path) = Serving.realpath path
  told (stat path) = Serving.stat path
  told (rename old_path new_path) = Serving.rename (some old_path) new_path
  told (readlink path) = Serving.readlink path
  told (read handle buf_len off len position) =
      Serving.read handle (some position) (min len (max_pkt - overhead))
  told (write handle buf off len position) =
      Serving.write handle (some position) (take (min len (max_pkt - overhead)) (drop off buf))
  told (symlink target link) = Serving.symlink (some link) (some target)
  told (ext_rename old_path new_path) =
      Serving.extended (codes "posix-rename@openssh.com")
        (some (str old_path ++ (str new_path ++ [])))
  told (ext_statvfs path) = Serving.extended (codes "statvfs@openssh.com") (some (str path ++ []))
  told (ext_fstatvfs handle) =
      Serving.extended (codes "fstatvfs@openssh.com") (some (str handle ++ []))
  told (ext_hardlink old_path new_path) =
      Serving.extended (codes "hardlink@openssh.com") (some (str old_path ++ (str new_path ++ [])))
  told (ext_fsync handle) = Serving.extended (codes "fsync@openssh.com") (some (str handle ++ []))

  -- Numbers and lengths fit their fields, a handle has 256 bytes at most, a buffer holds what is asked of
  -- it, a write has data, and an extension is announced.
  unfoldable pub FitsRequest : SftpRequest → Type 0
  FitsRequest (open' path flags attrs) = (IsU32 (length path)) × (IsU32 flags) × (FitsAttrs attrs)
  FitsRequest (close handle) = (length handle ≤ 256)
  FitsRequest (lstat path) = (IsU32 (length path))
  FitsRequest (fstat handle) = (length handle ≤ 256)
  FitsRequest (setstat path attrs) = (IsU32 (length path)) × (FitsAttrs attrs)
  FitsRequest (fsetstat handle attrs) = (length handle ≤ 256) × (FitsAttrs attrs)
  FitsRequest (opendir path) = (IsU32 (length path))
  FitsRequest (readdir handle) = (length handle ≤ 256)
  FitsRequest (remove path) = (IsU32 (length path))
  FitsRequest (mkdir path attrs) = (IsU32 (length path)) × (FitsAttrs attrs)
  FitsRequest (rmdir path) = (IsU32 (length path))
  FitsRequest (realpath path) = (IsU32 (length path))
  FitsRequest (stat path) = (IsU32 (length path))
  FitsRequest (rename old_path new_path) = (IsU32 (length old_path)) × (IsU32 (length new_path))
  FitsRequest (readlink path) = (IsU32 (length path))
  FitsRequest (read handle buf_len off len position) =
      (length handle ≤ 256)
      × (position < 2 ^ 64)
      × (IsU32 len)
      × (off < buf_len)
      × (off + len ≤ buf_len)
  FitsRequest (write handle buf off len position) =
      (length handle ≤ 256)
      × (position < 2 ^ 64)
      × (IsU32 len)
      × (0 < len)
      × (off + len ≤ length buf)
  FitsRequest (symlink target link) = (IsU32 (length target)) × (IsU32 (length link))
  FitsRequest (ext_rename old_path new_path) =
      (is (extensions (codes "posix-rename@openssh.com")) (codes "1") ≡ true)
      × IsU32 (length old_path)
      × IsU32 (length new_path)
  FitsRequest (ext_statvfs path) =
      (is (extensions (codes "statvfs@openssh.com")) (codes "2") ≡ true) × IsU32 (length path)
  FitsRequest (ext_fstatvfs handle) =
      (is (extensions (codes "fstatvfs@openssh.com")) (codes "2") ≡ true) × IsU32 (length handle)
  FitsRequest (ext_hardlink old_path new_path) =
      (announces (extensions (codes "hardlink@openssh.com")) (codes "1") ≡ true)
      × IsU32 (length old_path)
      × IsU32 (length new_path)
  FitsRequest (ext_fsync handle) =
      (announces (extensions (codes "fsync@openssh.com")) (codes "1") ≡ true)
      × IsU32 (length handle)

-- What the server makes of what the client asks, behind the length.
abbrev pub served : Bool → Asked → Option Served
served open_ssh (Asked.asks i p) = serve open_ssh (drop 4 (p.payload))
served open_ssh _ = none
