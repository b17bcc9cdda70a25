-- ===== src/Sftp/Sizes.antt =====
-- Every packet of SFTP has its length in front and fills its buffer.
use ssh.Common.{
  ℕ, ◌+◌, ◌-◌, ◌≤◌, ◌≡◌, ap, arith, Bool, true, false, [], ◌∷◌, ◌++◌, length, length-append,
  length-take, length-drop, take, drop, min, codes, leb, ltb, Bytes, ◌==◌, Bool-cases, inl, inr,
  if◌then◌else◌,
}
use ssh.Common.Int.{ℤ}
use ssh.Wire.{u32, u64}
use ssh.Wire.Encode.{str}
use ssh.Message.Outbound.{Packet}
use ssh.Message.Inbound.{is}
use ssh.Sftp.Ids.{next_id, wire_id}
use ssh.Sftp.Asking
use ssh.Sftp.Asking.{Asked, Extensions, announces, overhead}
use ssh.Sftp.Exchange.{
  SftpRequest, open', close, lstat, fstat, setstat, fsetstat, opendir, readdir, remove, mkdir,
  rmdir, realpath, stat, rename, readlink, read, write, symlink, ext_rename, ext_statvfs,
  ext_fstatvfs, ext_hardlink, ext_fsync, asked,
}
use ssh.Sftp.Stream.{framed}

-- The buffer is filled, and begins with the length of what follows.
abbrev pub IsWhole : Packet → Type 0
IsWhole p = (p.size ≡ length p.payload) × (p.payload ≡ framed (drop 4 (p.payload)))

abbrev pub IsWholeAsked : Asked → Type 0
IsWholeAsked (Asked.asks i p) = IsWhole p
IsWholeAsked _ = Unit

-- Of a packet, the size counts its type, its number and its fields.
request-IsWhole :
    (last : ℤ) (n type : ℕ) (fields : Bytes)
    → n ≡ 9 + length fields
    → IsWholeAsked (Asking.request false last n type fields)
request-IsWhole last n type fields h =
    let size : n - 4 ≡ length (type ∷ (u32 (wire_id (next_id last)) ++ fields)) = omega arith in
    (omega arith, ap (λ k. u32 k ++ (type ∷ (u32 (wire_id (next_id last)) ++ fields))) size)

if-IsWhole :
    (b : Bool) (x y : Asked) → IsWholeAsked x → IsWholeAsked y → IsWholeAsked (if b then x else y)
if-IsWhole true x y hx hy = hx
if-IsWhole false x y hx hy = hy

extended-IsWhole :
    (last : ℤ) (supported : Bool) (n : ℕ) (fields : Bytes)
    → n ≡ 9 + length fields
    → IsWholeAsked (Asking.extended false last supported n fields)
extended-IsWhole last supported n fields h =
    if-IsWhole supported (Asking.request false last n 200 fields) Asked.throws
      (request-IsWhole last n 200 fields h) tt

link_size :
    (b : Bool) (target link : Bytes)
    → 4 + 1 + 4 + 4 + length link + 4 + length target
      ≡ 9 + length (if b then str target ++ (str link ++ []) else str link ++ (str target ++ []))
link_size true target link = grind (arith, length-append)
link_size false target link = grind (arith, length-append)

module _ (open_ssh : Bool) (max_pkt : ℕ) (extensions : Extensions) where
  -- Every request that is sent fills the buffer allocated for it and begins with the length of what
  -- follows; the others are an exception, or a write of nothing.
  pub asked-IsWhole :
      (last : ℤ) (r : SftpRequest) → IsWholeAsked (asked open_ssh max_pkt extensions last r)
  unfolding asked Asking.open' Asking.close Asking.lstat Asking.fstat Asking.setstat Asking.fsetstat
      Asking.opendir Asking.readdir Asking.remove Asking.mkdir Asking.rmdir Asking.realpath
      Asking.stat Asking.rename Asking.readlink Asking.read Asking.write Asking.symlink
      Asking.ext_rename Asking.ext_statvfs Asking.ext_fstatvfs Asking.ext_hardlink Asking.ext_fsync
  asked-IsWhole last (open' path flags attrs) =
      request-IsWhole last _ 3 _ (grind (arith, length-append))
  asked-IsWhole last (close handle) = request-IsWhole last _ 4 _ (grind (arith, length-append))
  asked-IsWhole last (lstat path) = request-IsWhole last _ 7 _ (grind (arith, length-append))
  asked-IsWhole last (fstat handle) = request-IsWhole last _ 8 _ (grind (arith, length-append))
  asked-IsWhole last (setstat path attrs) =
      request-IsWhole last _ 9 _ (grind (arith, length-append))
  asked-IsWhole last (fsetstat handle attrs) =
      request-IsWhole last _ 10 _ (grind (arith, length-append))
  asked-IsWhole last (opendir path) = request-IsWhole last _ 11 _ (grind (arith, length-append))
  asked-IsWhole last (readdir handle) = request-IsWhole last _ 12 _ (grind (arith, length-append))
  asked-IsWhole last (remove path) = request-IsWhole last _ 13 _ (grind (arith, length-append))
  asked-IsWhole last (mkdir path attrs) = request-IsWhole last _ 14 _ (grind (arith, length-append))
  asked-IsWhole last (rmdir path) = request-IsWhole last _ 15 _ (grind (arith, length-append))
  asked-IsWhole last (realpath path) = request-IsWhole last _ 16 _ (grind (arith, length-append))
  asked-IsWhole last (stat path) = request-IsWhole last _ 17 _ (grind (arith, length-append))
  asked-IsWhole last (rename old_path new_path) =
      request-IsWhole last _ 18 _ (grind (arith, length-append))
  asked-IsWhole last (readlink path) = request-IsWhole last _ 19 _ (grind (arith, length-append))
  asked-IsWhole last (read handle buf_len off len position) =
      let sent =
        Asking.request false last (4 + 1 + 4 + 4 + length handle + 8 + 4) 5
          (str handle ++ (u64 position ++ (u32 (min len (max_pkt - overhead)) ++ []))) in
      if-IsWhole (leb buf_len off) Asked.throws
        (if ltb buf_len (off + len) then Asked.throws else sent) tt
        (if-IsWhole (ltb buf_len (off + len)) Asked.throws sent tt (
          request-IsWhole last (4 + 1 + 4 + 4 + length handle + 8 + 4) 5 _
            (grind (arith, length-append))))
  asked-IsWhole last (write handle buf off len position) =
      elim (Bool-cases (ltb (length buf) (off + len))) [
        | inl e ↦ rw e (if-IsWhole (ltb (length buf) off) Asked.throws Asked.throws tt tt)
        | inr e ↦
            let n = min len (max_pkt - overhead) in
            let here : n ≤ length (drop off buf) = ground (arith, length-drop off buf) in
            let fields = str handle ++ (u64 position ++ (u32 n ++ (take n (drop off buf) ++ []))) in
            let sent =
              Asking.request false last (4 + 1 + 4 + 4 + length handle + 8 + 4 + n) 6 fields in
            rw e (
              if-IsWhole (ltb (length buf) off) Asked.throws (if len == 0 then Asked.done else sent)
                tt
                (if-IsWhole (len == 0) Asked.done sent tt (
                  request-IsWhole last (4 + 1 + 4 + 4 + length handle + 8 + 4 + n) 6 fields
                    (grind (arith, length-append, length-take)))))
      ]
  asked-IsWhole last (symlink target link) =
      request-IsWhole last (4 + 1 + 4 + 4 + length link + 4 + length target) 20
        (if open_ssh then str target ++ (str link ++ []) else str link ++ (str target ++ []))
        (link_size open_ssh target link)
  asked-IsWhole last (ext_rename old_path new_path) =
      extended-IsWhole last (is (extensions (codes "posix-rename@openssh.com")) (codes "1"))
        (4 + 1 + 4 + 4 + 24 + 4 + length old_path + 4 + length new_path)
        (str (codes "posix-rename@openssh.com") ++ (str old_path ++ (str new_path ++ [])))
        (grind (arith, length-append))
  asked-IsWhole last (ext_statvfs path) =
      extended-IsWhole last (is (extensions (codes "statvfs@openssh.com")) (codes "2"))
        (4 + 1 + 4 + 4 + 19 + 4 + length path)
        (str (codes "statvfs@openssh.com") ++ (str path ++ [])) (grind (arith, length-append))
  asked-IsWhole last (ext_fstatvfs handle) =
      extended-IsWhole last (is (extensions (codes "fstatvfs@openssh.com")) (codes "2"))
        (4 + 1 + 4 + 4 + 20 + 4 + length handle)
        (str (codes "fstatvfs@openssh.com") ++ (str handle ++ [])) (grind (arith, length-append))
  asked-IsWhole last (ext_hardlink old_path new_path) =
      extended-IsWhole last (announces (extensions (codes "hardlink@openssh.com")) (codes "1"))
        (4 + 1 + 4 + 4 + 20 + 4 + length old_path + 4 + length new_path)
        (str (codes "hardlink@openssh.com") ++ (str old_path ++ (str new_path ++ [])))
        (grind (arith, length-append))
  asked-IsWhole last (ext_fsync handle) =
      extended-IsWhole last (announces (extensions (codes "fsync@openssh.com")) (codes "1"))
        (4 + 1 + 4 + 4 + 17 + 4 + length handle)
        (str (codes "fsync@openssh.com") ++ (str handle ++ [])) (grind (arith, length-append))
