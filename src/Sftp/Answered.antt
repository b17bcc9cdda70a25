-- ===== src/Sftp/Answered.antt =====
-- The answers of a server, as the client's handlers read them.
use ssh.Common.{
  ℕ, zero, suc, ◌≤◌, ◌≡◌, refl, ap, ◌∙◌, arith, true, Option, none, some, List, [], ◌∷◌, ◌++◌, map,
  length, take, drop, le→leb, Bytes, IsU32, All,
}
use ssh.Wire.{u32, read_u32, read_string}
use ssh.Wire.Encode.{str, at, read_u32-u32, read_string-str, skip_string-str}
use ssh.Message.Outbound.{Packet}
use ssh.Message.Inbound.{map_option}
use ssh.Sftp.Attrs.{Attrs, read_attrs}
use ssh.Sftp.AttrsBack.{FitsAttrs, kept, attrs_field, read_attrs-attrs_field}
use ssh.Sftp.Ids.{Asker}
use ssh.Sftp.Answering
use ssh.Sftp.Answering.{Name, is_status, names_fields}
use ssh.Sftp.Hearing
use ssh.Sftp.Hearing.{Heard, Reply, settled, data_for, hear, read_names, names_with}

pub data Answer : Type 0 where
  handle : Bytes → Answer
  status : ℕ → Bytes → Answer
  data' : Bytes → Answer
  name : List Name → Answer
  attrs : Attrs → Answer

-- The answer to the request `id`.
unfoldable pub answer : ℕ → Answer → Option Packet
answer id (handle h) = Answering.handle true id h
answer id (status code message) = Answering.status true id code message
answer id (data' b) = Answering.data' true id b
answer id (name ns) = Answering.name true id ns
answer id (attrs a) = Answering.attrs true id a

abbrev FitsName : Name → Type 0
FitsName n = IsU32 (length (n.filename)) × IsU32 (length (n.longname)) × FitsAttrs (n.attrs)

-- Numbers and lengths fit, a handle has 256 bytes at most, and a code is one of the source's.
unfoldable pub FitsAnswer : Answer → Type 0
FitsAnswer (handle h) = length h ≤ 256
FitsAnswer (status code message) = (code ≤ 8) × IsU32 (length message)
FitsAnswer (data' b) = IsU32 (length b)
FitsAnswer (name ns) = IsU32 (length ns) × All FitsName ns
FitsAnswer (attrs a) = FitsAttrs a

abbrev heard_name : Name → Option Bytes × Option Bytes × Attrs
heard_name n = (some (n.filename), some (n.longname), kept (n.attrs))

-- What a request is told, whose callback may have a buffer of `n` bytes.
unfoldable pub reply_to : Option ℕ → Answer → Reply
reply_to buffer (handle h) = Reply.handle h
reply_to buffer (status zero message) = Reply.ok
reply_to buffer (status (suc n) message) = Reply.failed (some (suc n)) (some message)
reply_to none (data' b) = Reply.data' b
reply_to (some n) (data' b) = Reply.filled (take n b)
reply_to buffer (name ns) = Reply.names (map heard_name ns)
reply_to buffer (attrs a) = Reply.attrs (kept a)

read_names-names_fields :
    (pre : Bytes) (ns : List Name)
    → All FitsName ns
    → (read_names (length ns) (at pre (names_fields ns))).0 ≡ some (map heard_name ns)
unfolding read_names
read_names-names_fields pre [] h = refl
read_names-names_fields pre (n ∷ ns) ((h_file, h_long, h_attrs), hs) =
    let p₁ = pre ++ str (n.filename) in
    let p₂ = p₁ ++ str (n.longname) in
    let p₃ = p₂ ++ attrs_field (n.attrs) in
    let tail = names_fields ns in
    ap
      (λ r.
        (names_with r.0 (read_string none r.1).0 (read_attrs (read_string none r.1).1)
          (read_names (length ns))).0)
      (read_string-str pre (str (n.longname) ++ (attrs_field (n.attrs) ++ tail)) (n.filename)
        h_file)
    ∙ ap (λ r. (names_with (some (n.filename)) r.0 (read_attrs r.1) (read_names (length ns))).0)
        (read_string-str p₁ (attrs_field (n.attrs) ++ tail) (n.longname) h_long)
    ∙ ap (λ r. (names_with (some (n.filename)) (some (n.longname)) r (read_names (length ns))).0)
        (read_attrs-attrs_field p₂ tail (n.attrs) h_attrs)
    ∙ ap (map_option (λ l. heard_name n ∷ l)) (read_names-names_fields p₃ ns hs)

data_lem :
    (b : Bytes) (o : Option ℕ)
    → (elim o [ none ↦ Reply.data' b | some n ↦ Reply.filled (take n b) ]) ≡ reply_to o (data' b)
unfolding reply_to
data_lem b none = refl
data_lem b (some n) = refl

-- What the client makes of an answer, behind the length.
abbrev pub heard_of :
    {R : Type 0}
    → (R → Option ℕ)
    → (R → Option Bytes)
    → Asker R
    → Option Packet
    → Option (Heard R × Asker R)
heard_of buffer_of extended_of s none = none
heard_of buffer_of extended_of s (some p) = hear buffer_of extended_of (drop 4 (p.payload)) s

module _ {R : Type 0} (buffer_of : R → Option ℕ) (extended_of : R → Option Bytes) (s : Asker R)
    (id : ℕ) (h_id : IsU32 id) where
  -- An answer to the request `id`, its numbers and lengths fitting and its code known, is sent and takes
  -- the request that is stored under `id`, which is called with what was answered; nobody is
  -- called if none is stored.
  pub hear-answer :
      (a : Answer)
      → FitsAnswer a
      → heard_of buffer_of extended_of s (answer id a)
        ≡ some (settled buffer_of extended_of (some id) (λ r. reply_to (buffer_of r) a) s)
  unfolding answer FitsAnswer hear reply_to Answering.handle Answering.status Answering.data'
      Answering.name Answering.attrs Hearing.on_status Hearing.on_handle Hearing.on_data
      Hearing.on_name Hearing.on_attrs
  hear-answer (handle h) small = simp (
    le→leb (length h) 256 small,
    read_u32-u32 (102 ∷ []) _ id h_id,
    read_string-str ((102 ∷ []) ++ u32 id) _ h (omega arith),
  )
  hear-answer (status zero message) (known, h) = simp (
    read_u32-u32 (101 ∷ []) _ id h_id,
    read_u32-u32 ((101 ∷ []) ++ u32 id) _ 0 (omega arith),
    read_string-str (((101 ∷ []) ++ u32 id) ++ u32 0) _ message h,
    skip_string-str ((((101 ∷ []) ++ u32 id) ++ u32 0) ++ str message) _ [] (omega arith),
  )
  hear-answer (status (suc n) message) (known, h) = simp (
    le→leb (suc n) 8 known,
    read_u32-u32 (101 ∷ []) _ id h_id,
    read_u32-u32 ((101 ∷ []) ++ u32 id) _ (suc n) (omega arith),
    read_string-str (((101 ∷ []) ++ u32 id) ++ u32 (suc n)) _ message h,
    skip_string-str ((((101 ∷ []) ++ u32 id) ++ u32 (suc n)) ++ str message) _ [] (omega arith),
  )
  hear-answer (data' b) h =
      let same_reply : (λ r. data_for buffer_of extended_of b r)
          ≡ (λ r. reply_to (buffer_of r) (data' b)) =
        λ i r. data_lem b (buffer_of r) i in
      simp (read_u32-u32 (103 ∷ []) _ id h_id, read_string-str ((103 ∷ []) ++ u32 id) _ b h)
        (ap (λ f. some (settled buffer_of extended_of (some id) f s)) same_reply)
  hear-answer (name ns) (h_count, h) =
      let to : Option ℕ
          → Option (List (Option Bytes × Option Bytes × Attrs))
          → Option (Heard R × Asker R) =
        λ o l. some (Hearing.answered buffer_of extended_of o l (λ l r. Reply.names l) s) in
      ap (λ r. to r.0 (Hearing.counted (read_u32 r.1)).0)
        (read_u32-u32 (104 ∷ []) (u32 (length ns) ++ names_fields ns) id h_id)
      ∙ ap (λ r. to (some id) (Hearing.counted r).0)
          (read_u32-u32 ((104 ∷ []) ++ u32 id) (names_fields ns) (length ns) h_count)
      ∙ ap (to (some id)) (read_names-names_fields (((104 ∷ []) ++ u32 id) ++ u32 (length ns)) ns h)
  hear-answer (attrs a) h =
      simp (read_u32-u32 (105 ∷ []) _ id h_id, read_attrs-attrs_field ((105 ∷ []) ++ u32 id) _ a h)
