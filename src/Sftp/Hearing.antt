-- ===== src/Sftp/Hearing.antt =====
-- CLIENT_HANDLERS of lib/protocol/SFTP.js, but VERSION, with `_requests`.
use ssh.Common.{
  ℕ, zero, suc, Option, none, some, List, [], ◌∷◌, map, take, codes, ◌||◌, ◌==◌, if◌then◌else◌,
  Bytes,
}
use ssh.Wire.{Parser, Reading, pure, ◌>>=◌, init, read_u32, read_u64, read_string, skip_string}
use ssh.Message.Inbound.{map_option, is}
use ssh.Sftp.Attrs.{Attrs, read_attrs}
use ssh.Sftp.Ids.{Asker, take_request}

-- What a callback is called with; `filled` is what a buffer given beforehand holds then. A message is
-- the server's: where it is empty, the source takes the name of the code.
pub data Reply : Type 0 where
  ok : Reply
  failed : Option ℕ → Option Bytes → Reply
  handle data' filled : Bytes → Reply
  names : List (Option Bytes × Option Bytes × Attrs) → Reply
  attrs : Attrs → Reply
  stats : List (Option ℕ) → Reply
  unknown : Reply

-- The one request that is called, or all that are left, by `doFatalSFTPError`.
pub data Heard (R : Type 0) : Type 0 where
  nobody : Heard R
  calls : R → Reply → Heard R
  breaks : List R → Heard R

abbrev pub names_with :
    Option Bytes
    → Option Bytes
    → Option Attrs × Parser
    → Reading (Option (List (Option Bytes × Option Bytes × Attrs)))
    → Option (List (Option Bytes × Option Bytes × Attrs)) × Parser
names_with filename longname (none, p) more = (none, p)
names_with filename longname (some a, p) more =
    (do rest ← more; pure (map_option (λ l. (filename, longname, a) ∷ l) rest)) p

unfoldable pub read_names : ℕ → Reading (Option (List (Option Bytes × Option Bytes × Attrs)))
read_names zero p = (some [], p)
read_names (suc n) p =
    (do
      filename ← read_string none
      longname ← read_string none
      λ q. names_with filename longname (read_attrs q) (read_names n))
      p

abbrev pub counted :
    Option ℕ × Parser → Option (List (Option Bytes × Option Bytes × Attrs)) × Parser
counted (none, p) = (none, p)
counted (some n, p) = read_names n p

module _ {R : Type 0} (buffer_of : R → Option ℕ) (extended_of : R → Option Bytes) where
  -- `delete _requests[id]`, if there is an id.
  abbrev dropped : Option ℕ → Asker R → Asker R
  dropped none s = s
  dropped (some id) s = (take_request id s).1

  -- `doFatalSFTPError`: every request that is left is called with an error.
  abbrev broken : Asker R → Heard R × Asker R
  broken s = (breaks (map (λ e. e.1) (s.requests)), record { last = s.last; requests = [] })

  abbrev pub called : Option R × Asker R → (R → Reply) → Heard R × Asker R
  called (none, s) f = (nobody, s)
  called (some r, s) f = (calls r (f r), s)

  -- A response that could be read.
  abbrev pub settled : Option ℕ → (R → Reply) → Asker R → Heard R × Asker R
  settled none f s = (nobody, s)
  settled (some id) f s = called (take_request id s) f

  -- The last field that is looked at, read or not.
  abbrev pub answered :
      {A : Type 0} → Option ℕ → Option A → (A → R → Reply) → Asker R → Heard R × Asker R
  answered id none f s = broken (dropped id s)
  answered id (some a) f s = settled id (f a) s

  abbrev status_of : Option ℕ → Option Bytes → Reply
  status_of (some zero) msg = ok
  status_of code msg = failed code msg

  unfoldable pub on_status : Bytes → Asker R → Heard R × Asker R
  on_status payload s =
      ((do
        id ← read_u32
        code ← read_u32
        msg ← read_string none
        lang ← skip_string
        pure (answered id lang (λ _ r. status_of code msg) s))
        (init payload 1)).0

  unfoldable pub on_handle : Bytes → Asker R → Heard R × Asker R
  on_handle payload s =
      ((do id ← read_u32; h ← read_string none; pure (answered id h (λ b r. handle b) s))
        (init payload 1)).0

  -- Into the buffer of the request, as far as it reaches.
  abbrev pub data_for : Bytes → R → Reply
  data_for b r = elim (buffer_of r) [ none ↦ data' b | some n ↦ filled (take n b) ]

  -- Without a request the data is only skipped, which reads the same length.
  unfoldable pub on_data : Bytes → Asker R → Heard R × Asker R
  on_data payload s =
      ((do id ← read_u32; b ← read_string none; pure (answered id b data_for s)) (init payload 1)).0

  unfoldable pub on_name : Bytes → Asker R → Heard R × Asker R
  on_name payload s =
      ((do
        id ← read_u32
        ns ← (λ p. counted (read_u32 p))
        pure (answered id ns (λ l r. names l) s))
        (init payload 1)).0

  unfoldable pub on_attrs : Bytes → Asker R → Heard R × Asker R
  on_attrs payload s =
      ((do id ← read_u32; a ← read_attrs; pure (answered id a (λ x r. attrs x) s))
        (init payload 1)).0

  read_u64s : ℕ → Reading (List (Option ℕ))
  read_u64s zero p = ([], p)
  read_u64s (suc n) p = (do v ← read_u64; vs ← read_u64s n; pure (v ∷ vs)) p

  abbrev last_of : List (Option ℕ) → Option ℕ
  last_of [] = none
  last_of (v ∷ []) = v
  last_of (v ∷ (w ∷ vs)) = last_of (w ∷ vs)

  abbrev told_stats : R → List (Option ℕ) → Option ℕ → Asker R → Heard R × Asker R
  told_stats r vs none s = broken s
  told_stats r vs (some v) s = (calls r (stats vs), s)

  -- The eleven numbers of a file system, the last of which is looked at.
  abbrev extended_for : Parser → Option R × Asker R → Heard R × Asker R
  extended_for p (none, s) = (nobody, s)
  extended_for p (some r, s) =
      let vs = (read_u64s 11 p).0 in
      if is (extended_of r) (codes "statvfs@openssh.com")
        || is (extended_of r) (codes "fstatvfs@openssh.com")
      then told_stats r vs (last_of vs) s
      else (calls r unknown, s)

  abbrev extended_by : Option ℕ × Parser → Asker R → Heard R × Asker R
  extended_by (none, p) s = broken s
  extended_by (some id, p) s = extended_for p (take_request id s)

  unfoldable pub on_extended : Bytes → Asker R → Heard R × Asker R
  unfolding read_u64s
  on_extended payload s = extended_by (read_u32 (init payload 1)) s

  -- By the type of the packet; `none` where there is no handler here.
  unfoldable pub hear : Bytes → Asker R → Option (Heard R × Asker R)
  hear [] s = none
  hear (t ∷ ts) s =
      if t == 101
      then some (on_status (t ∷ ts) s)
      else if t == 102
      then some (on_handle (t ∷ ts) s)
      else if t == 103
      then some (on_data (t ∷ ts) s)
      else if t == 104
      then some (on_name (t ∷ ts) s)
      else if t == 105
      then some (on_attrs (t ∷ ts) s)
      else if t == 201
      then some (on_extended (t ∷ ts) s)
      else none
