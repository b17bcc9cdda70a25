-- ===== src/Sftp/Arrival.antt =====
-- A request of SFTP arrives as it was asked.
use ssh.Common.{
  ℕ, ◌+◌, ◌-◌, ◌≤◌, ◌≡◌, sym, ap, arith, ◌==◌, Bool, true, false, some, [], ◌++◌, length,
  length-take, length-drop, take, drop, min, codes, ltb, leb, ge→ltb_false, Bytes, IsU32,
}
use ssh.Common.Int.{ℤ}
use ssh.Wire.{u32}
use ssh.Wire.Encode.{str}
use ssh.Sftp.Ids.{next_id, wire_id, wire_id-IsU32}
use ssh.Sftp.Asking
use ssh.Sftp.Asking.{Asked, Extensions, overhead}
use ssh.Sftp.Serving
use ssh.Sftp.Serving.{serve}
use ssh.Sftp.Asked
use ssh.Sftp.Exchange.{
  SftpRequest, open', close, lstat, fstat, setstat, fsetstat, opendir, readdir, remove, mkdir,
  rmdir, realpath, stat, rename, readlink, read, write, symlink, ext_rename, ext_statvfs,
  ext_fstatvfs, ext_hardlink, ext_fsync, asked, told, FitsRequest, served,
}

-- The length in front of a piece of a buffer.
piece_lem :
    (buf : Bytes) (off n : ℕ)
    → off + n ≤ length buf
    → u32 n ++ (take n (drop off buf) ++ []) ≡ str (take n (drop off buf)) ++ []
piece_lem buf off n h =
    let size : length (take n (drop off buf)) ≡ n =
      omega (arith, length-take n (drop off buf), length-drop off buf) in
    ap (λ k. u32 k ++ (take n (drop off buf) ++ [])) (sym size)

symlink_lem :
    (open_ssh : Bool) (last : ℤ) (target link : Bytes)
    → IsU32 (length target)
    → IsU32 (length link)
    → served open_ssh (Asking.symlink false last open_ssh target link)
      ≡ some (
          Serving.emits (some (wire_id (next_id last))) (Serving.symlink (some link) (some target)))
unfolding serve Asking.symlink
symlink_lem true last target link h_target h_link = ap some (
    Asked.symlink_open_ssh_round (wire_id (next_id last)) (wire_id-IsU32 (next_id last)) target link
      h_target h_link)
symlink_lem false last target link h_target h_link = ap some (
    Asked.symlink_round (wire_id (next_id last)) (wire_id-IsU32 (next_id last)) link target h_link
      h_target)

module _ (open_ssh : Bool) (max_pkt : ℕ) (extensions : Extensions) where
  -- A request whose numbers and lengths fit, that asks its buffer for no more than it holds and whose
  -- extension was announced is sent, and the server's handler emits it with the number it was sent
  -- under and the fields that were asked, a read or a write cut to what one packet holds, if
  -- both sides know of OpenSSH or neither does.
  pub serve-asked :
      (last : ℤ) (r : SftpRequest)
      → FitsRequest open_ssh max_pkt extensions r
      → served open_ssh (asked open_ssh max_pkt extensions last r)
        ≡ some (Serving.emits (some (wire_id (next_id last))) (told open_ssh max_pkt extensions r))
  unfolding asked told FitsRequest serve Asking.open' Asking.close Asking.lstat Asking.fstat
      Asking.setstat Asking.fsetstat Asking.opendir Asking.readdir Asking.remove Asking.mkdir
      Asking.rmdir Asking.realpath Asking.stat Asking.rename Asking.readlink Asking.read
      Asking.write Asking.symlink Asking.ext_rename Asking.ext_statvfs Asking.ext_fstatvfs
      Asking.ext_hardlink Asking.ext_fsync
  serve-asked last (open' path flags attrs) (h_path, h_flags, h_attrs) = ap some (
      Asked.open_round (wire_id (next_id last)) (wire_id-IsU32 (next_id last)) path flags attrs
        h_path h_flags h_attrs)
  serve-asked last (close handle) small =
      ap some
        (Asked.close_round (wire_id (next_id last)) (wire_id-IsU32 (next_id last)) handle small)
  serve-asked last (lstat path) h_path =
      ap some
        (Asked.lstat_round (wire_id (next_id last)) (wire_id-IsU32 (next_id last)) path h_path)
  serve-asked last (fstat handle) small =
      ap some
        (Asked.fstat_round (wire_id (next_id last)) (wire_id-IsU32 (next_id last)) handle small)
  serve-asked last (setstat path attrs) (h_path, h_attrs) = ap some (
      Asked.setstat_round (wire_id (next_id last)) (wire_id-IsU32 (next_id last)) path attrs h_path
        h_attrs)
  serve-asked last (fsetstat handle attrs) (small, h_attrs) = ap some (
      Asked.fsetstat_round (wire_id (next_id last)) (wire_id-IsU32 (next_id last)) handle attrs
        small h_attrs)
  serve-asked last (opendir path) h_path =
      ap some
        (Asked.opendir_round (wire_id (next_id last)) (wire_id-IsU32 (next_id last)) path h_path)
  serve-asked last (readdir handle) small =
      ap some
        (Asked.readdir_round (wire_id (next_id last)) (wire_id-IsU32 (next_id last)) handle small)
  serve-asked last (remove path) h_path =
      ap some
        (Asked.remove_round (wire_id (next_id last)) (wire_id-IsU32 (next_id last)) path h_path)
  serve-asked last (mkdir path attrs) (h_path, h_attrs) = ap some (
      Asked.mkdir_round (wire_id (next_id last)) (wire_id-IsU32 (next_id last)) path attrs h_path
        h_attrs)
  serve-asked last (rmdir path) h_path =
      ap some
        (Asked.rmdir_round (wire_id (next_id last)) (wire_id-IsU32 (next_id last)) path h_path)
  serve-asked last (realpath path) h_path =
      ap some
        (Asked.realpath_round (wire_id (next_id last)) (wire_id-IsU32 (next_id last)) path h_path)
  serve-asked last (stat path) h_path =
      ap some (Asked.stat_round (wire_id (next_id last)) (wire_id-IsU32 (next_id last)) path h_path)
  serve-asked last (rename old_path new_path) (h_old_path, h_new_path) = ap some (
      Asked.rename_round (wire_id (next_id last)) (wire_id-IsU32 (next_id last)) old_path new_path
        h_old_path h_new_path)
  serve-asked last (readlink path) h_path =
      ap some
        (Asked.readlink_round (wire_id (next_id last)) (wire_id-IsU32 (next_id last)) path h_path)
  serve-asked last (read handle buf_len off len position) (small, h_position, h_len, inside, room) =
      let n = min len (max_pkt - overhead) in
      let h₁ : leb buf_len off ≡ false = ground arith in
      let h₂ : ltb buf_len (off + len) ≡ false = ge→ltb_false buf_len (off + len) room in
      rw (h₁, h₂)
        (ap some (
          Asked.read_round (wire_id (next_id last)) (wire_id-IsU32 (next_id last)) handle position n
            small h_position (omega arith)))
  serve-asked last (write handle buf off len position) (small, h_position, h_len, some_data, room) =
      let n = min len (max_pkt - overhead) in
      let h₁ : ltb (length buf) off ≡ false = ge→ltb_false (length buf) off (omega arith) in
      let h₂ : ltb (length buf) (off + len) ≡ false = ge→ltb_false (length buf) (off + len) room in
      let h₃ : (len == 0) ≡ false = ground arith in
      let h₄ : IsU32 (length (take n (drop off buf))) =
        omega (arith, length-take n (drop off buf)) in
      rw (h₁, h₂, h₃, piece_lem buf off n (omega arith))
        (ap some (
          Asked.write_round (wire_id (next_id last)) (wire_id-IsU32 (next_id last)) handle position
            (take n (drop off buf)) small h_position h₄))
  serve-asked last (symlink target link) (h_target, h_link) =
      symlink_lem open_ssh last target link h_target h_link
  serve-asked last (ext_rename old_path new_path) (there, h_old_path, h_new_path) = rw there (
      ap some (
        Asked.extended_round (wire_id (next_id last)) (wire_id-IsU32 (next_id last))
          (codes "posix-rename@openssh.com") (str old_path ++ (str new_path ++ [])) (omega arith)
          (ground arith)))
  serve-asked last (ext_statvfs path) (there, h_path) = rw there (
      ap some (
        Asked.extended_round (wire_id (next_id last)) (wire_id-IsU32 (next_id last))
          (codes "statvfs@openssh.com") (str path ++ []) (omega arith) (ground arith)))
  serve-asked last (ext_fstatvfs handle) (there, h_handle) = rw there (
      ap some (
        Asked.extended_round (wire_id (next_id last)) (wire_id-IsU32 (next_id last))
          (codes "fstatvfs@openssh.com") (str handle ++ []) (omega arith) (ground arith)))
  serve-asked last (ext_hardlink old_path new_path) (there, h_old_path, h_new_path) = rw there (
      ap some (
        Asked.extended_round (wire_id (next_id last)) (wire_id-IsU32 (next_id last))
          (codes "hardlink@openssh.com") (str old_path ++ (str new_path ++ [])) (omega arith)
          (ground arith)))
  serve-asked last (ext_fsync handle) (there, h_handle) = rw there (
      ap some (
        Asked.extended_round (wire_id (next_id last)) (wire_id-IsU32 (next_id last))
          (codes "fsync@openssh.com") (str handle ++ []) (omega arith) (ground arith)))
