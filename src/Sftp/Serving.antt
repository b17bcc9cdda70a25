-- ===== src/Sftp/Serving.antt =====
-- SERVER_HANDLERS of lib/protocol/SFTP.js: the event that a request emits. That a request nobody listens
-- to is answered by OP_UNSUPPORTED is left out, and INIT.
use ssh.Common.{
  ℕ, Bool, true, false, Option, none, some, [], ◌∷◌, length, ltb, ◌==◌, if◌then◌else◌, Bytes,
}
use ssh.Wire.{Parser, Reading, pure, ◌>>=◌, init, read_u32, read_u64, read_string}
use ssh.Message.Inbound.{rest_if_any}
use ssh.Sftp.Attrs.{Attrs, read_attrs}

pub data SftpCall : Type 0 where
  open' : Option Bytes → Option ℕ → Attrs → SftpCall
  close : Bytes → SftpCall
  read : Bytes → Option ℕ → ℕ → SftpCall
  write : Bytes → Option ℕ → Bytes → SftpCall
  lstat : Bytes → SftpCall
  fstat : Bytes → SftpCall
  setstat : Option Bytes → Attrs → SftpCall
  fsetstat : Bytes → Attrs → SftpCall
  opendir : Bytes → SftpCall
  readdir : Bytes → SftpCall
  remove : Bytes → SftpCall
  mkdir : Option Bytes → Attrs → SftpCall
  rmdir : Bytes → SftpCall
  realpath : Bytes → SftpCall
  stat : Bytes → SftpCall
  rename : Option Bytes → Bytes → SftpCall
  readlink : Bytes → SftpCall
  symlink : (link target : Option Bytes) → SftpCall
  extended : Bytes → Option Bytes → SftpCall

-- `malformed` is `doFatalSFTPError`, `throws` an exception; a request is emitted with its number.
pub data Served : Type 0 where
  malformed throws : Served
  emits : Option ℕ → SftpCall → Served

abbrev run : Reading Served → Bytes → Served
run m payload = (m (init payload 1)).0

-- The last field, and the call.
abbrev pub checked : {A : Type 0} → Option ℕ → Option A → (A → SftpCall) → Served
checked id none f = malformed
checked id (some a) f = emits id (f a)

-- `handle.length > 256`, which throws where `handle` is undefined.
abbrev pub with_handle : Option Bytes → (Bytes → Served) → Served
with_handle none f = throws
with_handle (some h) f = if ltb 256 (length h) then malformed else f h

-- A request of a handle alone, and one of a handle and what stands behind it.
abbrev pub handle_alone : Option ℕ → Option Bytes → (Bytes → SftpCall) → Served
handle_alone id none f = malformed
handle_alone id (some h) f = if ltb 256 (length h) then malformed else emits id (f h)

abbrev pub handle_and :
    {A : Type 0} → Option ℕ → Option Bytes → Option A → (Bytes → A → SftpCall) → Served
handle_and id handle none f = malformed
handle_and id handle (some a) f = with_handle handle (λ h. emits id (f h a))

abbrev of_path : (Bytes → SftpCall) → Reading Served
of_path f = do id ← read_u32; path ← read_string none; pure (checked id path f)

abbrev of_handle : (Bytes → SftpCall) → Reading Served
of_handle f = do id ← read_u32; handle ← read_string none; pure (handle_alone id handle f)

unfoldable pub on_open : Bytes → Served
on_open = run (do
  id ← read_u32
  filename ← read_string none
  pflags ← read_u32
  attrs ← read_attrs
  pure (checked id attrs (open' filename pflags)))

unfoldable pub on_read : Bytes → Served
on_read = run (do
  id ← read_u32
  handle ← read_string none
  offset ← read_u64
  len ← read_u32
  pure (handle_and id handle len (λ h n. read h offset n)))

unfoldable pub on_write : Bytes → Served
on_write = run (do
  id ← read_u32
  handle ← read_string none
  offset ← read_u64
  data' ← read_string none
  pure (handle_and id handle data' (λ h d. write h offset d)))

unfoldable pub on_setstat : Bytes → Served
on_setstat = run (do
  id ← read_u32
  path ← read_string none
  attrs ← read_attrs
  pure (checked id attrs (setstat path)))

unfoldable pub on_fsetstat : Bytes → Served
on_fsetstat = run (do
  id ← read_u32
  handle ← read_string none
  attrs ← read_attrs
  pure (handle_and id handle attrs fsetstat))

unfoldable pub on_mkdir : Bytes → Served
on_mkdir = run (do
  id ← read_u32
  path ← read_string none
  attrs ← read_attrs
  pure (checked id attrs (mkdir path)))

unfoldable pub on_rename : Bytes → Served
on_rename = run (do
  id ← read_u32
  old_path ← read_string none
  new_path ← read_string none
  pure (checked id new_path (rename old_path)))

unfoldable pub on_close : Bytes → Served
on_close = run (of_handle close)

unfoldable pub on_lstat : Bytes → Served
on_lstat = run (of_path lstat)

unfoldable pub on_fstat : Bytes → Served
on_fstat = run (of_handle fstat)

unfoldable pub on_opendir : Bytes → Served
on_opendir = run (of_path opendir)

unfoldable pub on_readdir : Bytes → Served
on_readdir = run (of_handle readdir)

unfoldable pub on_remove : Bytes → Served
on_remove = run (of_path remove)

unfoldable pub on_rmdir : Bytes → Served
on_rmdir = run (of_path rmdir)

unfoldable pub on_realpath : Bytes → Served
on_realpath = run (of_path realpath)

unfoldable pub on_stat : Bytes → Served
on_stat = run (of_path stat)

unfoldable pub on_readlink : Bytes → Served
on_readlink = run (of_path readlink)

-- The flag is `_isOpenSSH`.
abbrev linked : Bool → Option ℕ → Option Bytes → Option Bytes → Served
linked open_ssh id link none = malformed
linked true id link (some target) = emits id (symlink (some target) link)
linked false id link (some target) = emits id (symlink link (some target))

unfoldable pub on_symlink : Bool → Bytes → Served
on_symlink open_ssh = run (do
  id ← read_u32
  link ← read_string none
  target ← read_string none
  pure (linked open_ssh id link target))

abbrev pub extended_by : Option ℕ → Option Bytes × Parser → Served × Parser
extended_by id (none, p) = (malformed, p)
extended_by id (some name, p) = (do data' ← rest_if_any; pure (emits id (extended name data'))) p

unfoldable pub on_extended : Bytes → Served
on_extended = run (do id ← read_u32; λ p. extended_by id (read_string none p))

-- By the type of the packet; `none` where there is no handler here.
unfoldable pub serve : Bool → Bytes → Option Served
serve open_ssh [] = none
serve open_ssh (t ∷ ts) =
    if t == 200
    then some (on_extended (t ∷ ts))
    else if t == 3
    then some (on_open (t ∷ ts))
    else if t == 4
    then some (on_close (t ∷ ts))
    else if t == 5
    then some (on_read (t ∷ ts))
    else if t == 6
    then some (on_write (t ∷ ts))
    else if t == 7
    then some (on_lstat (t ∷ ts))
    else if t == 8
    then some (on_fstat (t ∷ ts))
    else if t == 9
    then some (on_setstat (t ∷ ts))
    else if t == 10
    then some (on_fsetstat (t ∷ ts))
    else if t == 11
    then some (on_opendir (t ∷ ts))
    else if t == 12
    then some (on_readdir (t ∷ ts))
    else if t == 13
    then some (on_remove (t ∷ ts))
    else if t == 14
    then some (on_mkdir (t ∷ ts))
    else if t == 15
    then some (on_rmdir (t ∷ ts))
    else if t == 16
    then some (on_realpath (t ∷ ts))
    else if t == 17
    then some (on_stat (t ∷ ts))
    else if t == 18
    then some (on_rename (t ∷ ts))
    else if t == 19
    then some (on_readlink (t ∷ ts))
    else if t == 20
    then some (on_symlink open_ssh (t ∷ ts))
    else none
