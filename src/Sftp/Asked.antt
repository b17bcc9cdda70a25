-- ===== src/Sftp/Asked.antt =====
-- The requests of a client, as the server's handlers read them.
use ssh.Common.{
  ℕ, ◌<◌, ◌≤◌, ◌^◌, ◌≡◌, ap, ◌∙◌, arith, ◌==◌, true, false, none, some, [], ◌∷◌, ◌++◌, length,
  ge→ltb_false, Bytes, IsU32,
}
use ssh.Wire.{u32, u64, read_string}
use ssh.Wire.Encode.{str, read_u32-u32, read_u64-u64, read_string-str}
use ssh.Message.Inbound.{rest_if_any-rest}
use ssh.Sftp.Attrs.{Attrs}
use ssh.Sftp.AttrsBack.{FitsAttrs, kept, attrs_field, read_attrs-attrs_field}
use ssh.Sftp.Serving

module _ (id : ℕ) (h_id : IsU32 id) where
  pub open_round :
      (path : Bytes) (flags : ℕ) (attrs : Attrs)
      → IsU32 (length path)
      → IsU32 flags
      → FitsAttrs attrs
      → Serving.on_open (3 ∷ (u32 id ++ (str path ++ (u32 flags ++ (attrs_field attrs ++ [])))))
        ≡ Serving.emits (some id) (Serving.open' (some path) (some flags) (kept attrs))
  unfolding Serving.on_open
  open_round path flags attrs h_path h_flags h_attrs = simp (
    read_u32-u32 (3 ∷ []) _ id h_id,
    read_string-str ((3 ∷ []) ++ u32 id) _ path h_path,
    read_u32-u32 (((3 ∷ []) ++ u32 id) ++ str path) _ flags h_flags,
    read_attrs-attrs_field ((((3 ∷ []) ++ u32 id) ++ str path) ++ u32 flags) _ attrs h_attrs,
  )

  pub close_round :
      (handle : Bytes)
      → length handle ≤ 256
      → Serving.on_close (4 ∷ (u32 id ++ (str handle ++ [])))
        ≡ Serving.emits (some id) (Serving.close handle)
  unfolding Serving.on_close
  close_round handle small = simp (
    read_u32-u32 (4 ∷ []) _ id h_id,
    read_string-str ((4 ∷ []) ++ u32 id) _ handle (omega arith),
    ge→ltb_false 256 (length handle) small,
  )

  pub read_round :
      (handle : Bytes) (position : ℕ) (len : ℕ)
      → length handle ≤ 256
      → position < 2 ^ 64
      → IsU32 len
      → Serving.on_read (5 ∷ (u32 id ++ (str handle ++ (u64 position ++ (u32 len ++ [])))))
        ≡ Serving.emits (some id) (Serving.read handle (some position) len)
  unfolding Serving.on_read
  read_round handle position len small h_position h_len = simp (
    read_u32-u32 (5 ∷ []) _ id h_id,
    read_string-str ((5 ∷ []) ++ u32 id) _ handle (omega arith),
    read_u64-u64 (((5 ∷ []) ++ u32 id) ++ str handle) _ position h_position,
    read_u32-u32 ((((5 ∷ []) ++ u32 id) ++ str handle) ++ u64 position) _ len h_len,
    ge→ltb_false 256 (length handle) small,
  )

  pub write_round :
      (handle : Bytes) (position : ℕ) (data' : Bytes)
      → length handle ≤ 256
      → position < 2 ^ 64
      → IsU32 (length data')
      → Serving.on_write (6 ∷ (u32 id ++ (str handle ++ (u64 position ++ (str data' ++ [])))))
        ≡ Serving.emits (some id) (Serving.write handle (some position) data')
  unfolding Serving.on_write
  write_round handle position data' small h_position h_data = simp (
    read_u32-u32 (6 ∷ []) _ id h_id,
    read_string-str ((6 ∷ []) ++ u32 id) _ handle (omega arith),
    read_u64-u64 (((6 ∷ []) ++ u32 id) ++ str handle) _ position h_position,
    read_string-str ((((6 ∷ []) ++ u32 id) ++ str handle) ++ u64 position) _ data' h_data,
    ge→ltb_false 256 (length handle) small,
  )

  pub lstat_round :
      (path : Bytes)
      → IsU32 (length path)
      → Serving.on_lstat (7 ∷ (u32 id ++ (str path ++ [])))
        ≡ Serving.emits (some id) (Serving.lstat path)
  unfolding Serving.on_lstat
  lstat_round path h_path =
      simp (read_u32-u32 (7 ∷ []) _ id h_id, read_string-str ((7 ∷ []) ++ u32 id) _ path h_path)

  pub fstat_round :
      (handle : Bytes)
      → length handle ≤ 256
      → Serving.on_fstat (8 ∷ (u32 id ++ (str handle ++ [])))
        ≡ Serving.emits (some id) (Serving.fstat handle)
  unfolding Serving.on_fstat
  fstat_round handle small = simp (
    read_u32-u32 (8 ∷ []) _ id h_id,
    read_string-str ((8 ∷ []) ++ u32 id) _ handle (omega arith),
    ge→ltb_false 256 (length handle) small,
  )

  pub setstat_round :
      (path : Bytes) (attrs : Attrs)
      → IsU32 (length path)
      → FitsAttrs attrs
      → Serving.on_setstat (9 ∷ (u32 id ++ (str path ++ (attrs_field attrs ++ []))))
        ≡ Serving.emits (some id) (Serving.setstat (some path) (kept attrs))
  unfolding Serving.on_setstat
  setstat_round path attrs h_path h_attrs = simp (
    read_u32-u32 (9 ∷ []) _ id h_id,
    read_string-str ((9 ∷ []) ++ u32 id) _ path h_path,
    read_attrs-attrs_field (((9 ∷ []) ++ u32 id) ++ str path) _ attrs h_attrs,
  )

  pub fsetstat_round :
      (handle : Bytes) (attrs : Attrs)
      → length handle ≤ 256
      → FitsAttrs attrs
      → Serving.on_fsetstat (10 ∷ (u32 id ++ (str handle ++ (attrs_field attrs ++ []))))
        ≡ Serving.emits (some id) (Serving.fsetstat handle (kept attrs))
  unfolding Serving.on_fsetstat
  fsetstat_round handle attrs small h_attrs = simp (
    read_u32-u32 (10 ∷ []) _ id h_id,
    read_string-str ((10 ∷ []) ++ u32 id) _ handle (omega arith),
    read_attrs-attrs_field (((10 ∷ []) ++ u32 id) ++ str handle) _ attrs h_attrs,
    ge→ltb_false 256 (length handle) small,
  )

  pub opendir_round :
      (path : Bytes)
      → IsU32 (length path)
      → Serving.on_opendir (11 ∷ (u32 id ++ (str path ++ [])))
        ≡ Serving.emits (some id) (Serving.opendir path)
  unfolding Serving.on_opendir
  opendir_round path h_path =
      simp (read_u32-u32 (11 ∷ []) _ id h_id, read_string-str ((11 ∷ []) ++ u32 id) _ path h_path)

  pub readdir_round :
      (handle : Bytes)
      → length handle ≤ 256
      → Serving.on_readdir (12 ∷ (u32 id ++ (str handle ++ [])))
        ≡ Serving.emits (some id) (Serving.readdir handle)
  unfolding Serving.on_readdir
  readdir_round handle small = simp (
    read_u32-u32 (12 ∷ []) _ id h_id,
    read_string-str ((12 ∷ []) ++ u32 id) _ handle (omega arith),
    ge→ltb_false 256 (length handle) small,
  )

  pub remove_round :
      (path : Bytes)
      → IsU32 (length path)
      → Serving.on_remove (13 ∷ (u32 id ++ (str path ++ [])))
        ≡ Serving.emits (some id) (Serving.remove path)
  unfolding Serving.on_remove
  remove_round path h_path =
      simp (read_u32-u32 (13 ∷ []) _ id h_id, read_string-str ((13 ∷ []) ++ u32 id) _ path h_path)

  pub mkdir_round :
      (path : Bytes) (attrs : Attrs)
      → IsU32 (length path)
      → FitsAttrs attrs
      → Serving.on_mkdir (14 ∷ (u32 id ++ (str path ++ (attrs_field attrs ++ []))))
        ≡ Serving.emits (some id) (Serving.mkdir (some path) (kept attrs))
  unfolding Serving.on_mkdir
  mkdir_round path attrs h_path h_attrs = simp (
    read_u32-u32 (14 ∷ []) _ id h_id,
    read_string-str ((14 ∷ []) ++ u32 id) _ path h_path,
    read_attrs-attrs_field (((14 ∷ []) ++ u32 id) ++ str path) _ attrs h_attrs,
  )

  pub rmdir_round :
      (path : Bytes)
      → IsU32 (length path)
      → Serving.on_rmdir (15 ∷ (u32 id ++ (str path ++ [])))
        ≡ Serving.emits (some id) (Serving.rmdir path)
  unfolding Serving.on_rmdir
  rmdir_round path h_path =
      simp (read_u32-u32 (15 ∷ []) _ id h_id, read_string-str ((15 ∷ []) ++ u32 id) _ path h_path)

  pub realpath_round :
      (path : Bytes)
      → IsU32 (length path)
      → Serving.on_realpath (16 ∷ (u32 id ++ (str path ++ [])))
        ≡ Serving.emits (some id) (Serving.realpath path)
  unfolding Serving.on_realpath
  realpath_round path h_path =
      simp (read_u32-u32 (16 ∷ []) _ id h_id, read_string-str ((16 ∷ []) ++ u32 id) _ path h_path)

  pub stat_round :
      (path : Bytes)
      → IsU32 (length path)
      → Serving.on_stat (17 ∷ (u32 id ++ (str path ++ [])))
        ≡ Serving.emits (some id) (Serving.stat path)
  unfolding Serving.on_stat
  stat_round path h_path =
      simp (read_u32-u32 (17 ∷ []) _ id h_id, read_string-str ((17 ∷ []) ++ u32 id) _ path h_path)

  pub rename_round :
      (old_path : Bytes) (new_path : Bytes)
      → IsU32 (length old_path)
      → IsU32 (length new_path)
      → Serving.on_rename (18 ∷ (u32 id ++ (str old_path ++ (str new_path ++ []))))
        ≡ Serving.emits (some id) (Serving.rename (some old_path) new_path)
  unfolding Serving.on_rename
  rename_round old_path new_path h_old_path h_new_path = simp (
    read_u32-u32 (18 ∷ []) _ id h_id,
    read_string-str ((18 ∷ []) ++ u32 id) _ old_path h_old_path,
    read_string-str (((18 ∷ []) ++ u32 id) ++ str old_path) _ new_path h_new_path,
  )

  pub readlink_round :
      (path : Bytes)
      → IsU32 (length path)
      → Serving.on_readlink (19 ∷ (u32 id ++ (str path ++ [])))
        ≡ Serving.emits (some id) (Serving.readlink path)
  unfolding Serving.on_readlink
  readlink_round path h_path =
      simp (read_u32-u32 (19 ∷ []) _ id h_id, read_string-str ((19 ∷ []) ++ u32 id) _ path h_path)

  pub symlink_round :
      (link : Bytes) (target : Bytes)
      → IsU32 (length link)
      → IsU32 (length target)
      → Serving.on_symlink false (20 ∷ (u32 id ++ (str link ++ (str target ++ []))))
        ≡ Serving.emits (some id) (Serving.symlink (some link) (some target))
  unfolding Serving.on_symlink
  symlink_round link target h_link h_target = simp (
    read_u32-u32 (20 ∷ []) _ id h_id,
    read_string-str ((20 ∷ []) ++ u32 id) _ link h_link,
    read_string-str (((20 ∷ []) ++ u32 id) ++ str link) _ target h_target,
  )

  pub symlink_open_ssh_round :
      (target : Bytes) (link : Bytes)
      → IsU32 (length target)
      → IsU32 (length link)
      → Serving.on_symlink true (20 ∷ (u32 id ++ (str target ++ (str link ++ []))))
        ≡ Serving.emits (some id) (Serving.symlink (some link) (some target))
  unfolding Serving.on_symlink
  symlink_open_ssh_round target link h_target h_link = simp (
    read_u32-u32 (20 ∷ []) _ id h_id,
    read_string-str ((20 ∷ []) ++ u32 id) _ target h_target,
    read_string-str (((20 ∷ []) ++ u32 id) ++ str target) _ link h_link,
  )

  pub extended_round :
      (name b : Bytes)
      → IsU32 (length name)
      → (length b == 0) ≡ false
      → Serving.on_extended (200 ∷ (u32 id ++ (str name ++ b)))
        ≡ Serving.emits (some id) (Serving.extended name (some b))
  unfolding Serving.on_extended
  extended_round name b h_name more =
      ap (λ r. (Serving.extended_by r.0 (read_string none r.1)).0)
        (read_u32-u32 (200 ∷ []) (str name ++ b) id h_id)
      ∙ ap (λ r. (Serving.extended_by (some id) r).0)
          (read_string-str ((200 ∷ []) ++ u32 id) b name h_name)
      ∙ ap (λ r. Serving.emits (some id) (Serving.extended name r.0))
          (rest_if_any-rest (((200 ∷ []) ++ u32 id) ++ str name) b more)
