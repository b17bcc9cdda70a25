-- ===== src/Wire/Encode.antt =====
-- The parser on what was written for it: each read at the front of an encoded field returns the field
-- and leaves the parser behind it.
use ssh.Common.{
  ℕ, ◌+◌, ◌-◌, ◌*◌, ◌/◌, ◌%◌, ◌^◌, ◌≤◌, ◌<◌, ◌≡◌, refl, sym, ap, ◌∙◌, arith, true, false, not, none,
  some, List, [], ◌∷◌, ◌++◌, append_assoc, append-nil, length, length-append, drop, get_or,
  get_or-append, take-append, drop-append, leb, ltb, ge→ltb_false, le→leb, lt→ltb, ◌==◌, Bytes,
  IsU32, All,
}
use ssh.Wire.{
  avail, u32, u64, read_u64, u32_at, Parser, moved, read_u32, read_byte, read_bool, take_string,
  read_string, then_read, read_raw, skip_bytes, skip_string, comma, split_from, split_list,
  read_list,
}

-- The parser behind `pre`, in front of `rest`.
abbrev pub at : Bytes → Bytes → Parser
at pre rest = record { buffer = some (pre ++ rest); pos = length pre }

-- A string field.
abbrev pub str : Bytes → Bytes
str s = u32 (length s) ++ s

moved-at :
    (pre field rest : Bytes)
    → moved (length field) (at pre (field ++ rest)) ≡ at (pre ++ field) rest
moved-at pre field rest = λ i. record {
  buffer = some (sym (append_assoc pre field rest) i);
  pos = sym (length-append pre field) i;
}

u32_at-append : (pre rest : Bytes) → u32_at (pre ++ rest) (length pre) ≡ u32_at rest 0
u32_at-append pre rest =
    let start : length pre ≡ length pre + 0 = omega arith in
    omega (
      arith,
      ap (λ k. get_or (pre ++ rest) k 0) start,
      get_or-append pre rest 0 0,
      get_or-append pre rest 1 0,
      get_or-append pre rest 2 0,
      get_or-append pre rest 3 0,
    )

not_short :
    (pre field rest : Bytes)
    → 4 ≤ length field
    → leb (length (pre ++ (field ++ rest))) (length pre + 3) ≡ false
not_short pre field rest h =
    ground (arith, length-append pre (field ++ rest), length-append field rest)

u32_value : (v : ℕ) (rest : Bytes) → IsU32 v → u32_at (u32 v ++ rest) 0 ≡ v
u32_value v rest h = omega arith

pub read_u32-u32 :
    (pre rest : Bytes) (v : ℕ)
    → IsU32 v
    → read_u32 (at pre (u32 v ++ rest)) ≡ (some v, at (pre ++ u32 v) rest)
unfolding read_u32
read_u32-u32 pre rest v h =
    rw
      (
        not_short pre (u32 v) rest (omega arith),
        u32_at-append pre (u32 v ++ rest),
        u32_value v rest h,
      )
      (rw (moved-at pre (u32 v) rest))

not_short_8 :
    (pre field rest : Bytes)
    → 8 ≤ length field
    → leb (length (pre ++ (field ++ rest))) (length pre + 7) ≡ false
not_short_8 pre field rest h =
    ground (arith, length-append pre (field ++ rest), length-append field rest)

u32_at-second :
    (pre : Bytes) (hi lo : ℕ) (rest : Bytes)
    → u32_at (pre ++ (u32 hi ++ (u32 lo ++ rest))) (length pre + 4) ≡ u32_at (u32 lo ++ rest) 0
u32_at-second pre hi lo rest =
    let at_second : length pre + 4 ≡ length (pre ++ u32 hi) =
      omega (arith, length-append pre (u32 hi)) in
    ap (u32_at (pre ++ (u32 hi ++ (u32 lo ++ rest)))) at_second
    ∙ ap (λ b. u32_at b (length (pre ++ u32 hi))) (sym (append_assoc pre (u32 hi) (u32 lo ++ rest)))
    ∙ u32_at-append (pre ++ u32 hi) (u32 lo ++ rest)

low_half : (v : ℕ) (rest : Bytes) → u32_at (u32 v ++ rest) 0 ≡ v % 4294967296
low_half v rest = omega arith

pub read_u64-u64 :
    (pre rest : Bytes) (v : ℕ)
    → v < 2 ^ 64
    → read_u64 (at pre (u64 v ++ rest)) ≡ (some v, at (pre ++ u64 v) rest)
unfolding read_u64
read_u64-u64 pre rest v h =
    let value : u32_at (u32 (v / 4294967296) ++ (u32 v ++ rest)) 0 * 4294967296 + v % 4294967296
        ≡ v =
      omega (arith, u32_value (v / 4294967296) (u32 v ++ rest) (omega arith)) in
    rw
      (
        not_short_8 pre (u64 v) rest (omega arith),
        u32_at-append pre (u64 v ++ rest),
        u32_at-second pre (v / 4294967296) v rest,
        low_half v rest,
        value,
      )
      (rw (moved-at pre (u64 v) rest))

get_or-here : (pre rest : Bytes) (b : ℕ) → get_or (pre ++ b ∷ rest) (length pre) 0 ≡ b
get_or-here [] rest b = refl
get_or-here (x ∷ pre) rest b = get_or-here pre rest b

has_more : (pre rest : Bytes) (b : ℕ) → ltb (length pre) (length (pre ++ b ∷ rest)) ≡ true
has_more pre rest b = ground (arith, length-append pre (b ∷ rest))

pub read_byte-cons :
    (pre rest : Bytes) (b : ℕ) → read_byte (at pre (b ∷ rest)) ≡ (some b, at (pre ++ b ∷ []) rest)
unfolding read_byte
read_byte-cons pre rest b =
    rw (has_more pre rest b, get_or-here pre rest b) (rw (moved-at pre (b ∷ []) rest))

pub read_bool-cons :
    (pre rest : Bytes) (b : ℕ)
    → read_bool (at pre (b ∷ rest)) ≡ (some (not (b == 0)), at (pre ++ b ∷ []) rest)
unfolding read_bool
read_bool-cons pre rest b =
    rw (has_more pre rest b, get_or-here pre rest b) (rw (moved-at pre (b ∷ []) rest))

take_string-append :
    (pre s rest : Bytes)
    → take_string none (length s) (at pre (s ++ rest)) ≡ (some s, at (pre ++ s) rest)
unfolding take_string
take_string-append pre s rest =
    let fits : ltb (length (pre ++ (s ++ rest)) - length pre) (length s) ≡ false =
      ground (arith, length-append pre (s ++ rest), length-append s rest) in
    rw (fits, drop-append pre (s ++ rest), take-append s rest) (rw (moved-at pre s rest))

pub read_string-str :
    (pre rest s : Bytes)
    → IsU32 (length s)
    → read_string none (at pre (str s ++ rest)) ≡ (some s, at (pre ++ str s) rest)
unfolding read_string
read_string-str pre rest s h =
    rw (read_u32-u32 pre (s ++ rest) (length s) h)
      (take_string-append (pre ++ u32 (length s)) s rest ∙ rw (append_assoc pre (u32 (length s)) s))

-- A length that passes the end is read, and nothing behind it.
pub read_string-short :
    (pre rest : Bytes) (n : ℕ)
    → IsU32 n
    → length rest < n
    → read_string none (at pre (u32 n ++ rest)) ≡ (none, at (pre ++ u32 n) rest)
unfolding read_string take_string
read_string-short pre rest n h over =
    let none_left : ltb (length ((pre ++ u32 n) ++ rest) - length (pre ++ u32 n)) n ≡ true =
      lt→ltb _ _ (omega (arith, length-append (pre ++ u32 n) rest)) in
    rw (read_u32-u32 pre rest n h, none_left) refl

-- What stands behind the parser.
abbrev behind : Parser → Bytes
behind p = elim (p.buffer) [ none ↦ [] | some b ↦ drop p.pos b ]

-- Strings are read in one way only.
pub str-injective :
    (a b x y : Bytes)
    → IsU32 (length a)
    → IsU32 (length b)
    → str a ++ x ≡ str b ++ y
    → (a ≡ b) × (x ≡ y)
str-injective a b x y ha hb e =
    let whole : (some a, at (str a) x) ≡ (some b, at (str b) y) =
      sym (read_string-str [] x a ha)
      ∙ ap (λ l. read_string none (at [] l)) e
      ∙ read_string-str [] y b hb in
    (
      ap (λ r. elim (r.0) [ none ↦ a | some c ↦ c ]) whole,
      sym (drop-append (str a) x) ∙ ap (λ r. behind r.1) whole ∙ drop-append (str b) y,
    )

-- A string that is skipped is only measured.
pub skip_string-str :
    (pre rest s : Bytes)
    → IsU32 (length s)
    → skip_string (at pre (str s ++ rest)) ≡ (some (length s), at (pre ++ str s) rest)
unfolding skip_string skip_bytes
skip_string-str pre rest s h =
    let fits : leb (length (pre ++ u32 (length s)) + length s)
          (length ((pre ++ u32 (length s)) ++ (s ++ rest)))
        ≡ true =
      le→leb _ _
        (omega (arith, length-append (pre ++ u32 (length s)) (s ++ rest), length-append s rest)) in
    rw (read_u32-u32 pre (s ++ rest) (length s) h, fits)
      (rw (moved-at (pre ++ u32 (length s)) s rest, append_assoc pre (u32 (length s)) s) refl)

-- A name list without commas or empty names, joined.
abbrev pub joined : List Bytes → Bytes
joined [] = []
joined (n ∷ []) = n
joined (n ∷ (m ∷ ns)) = n ++ comma ∷ joined (m ∷ ns)

abbrev pub HasNoComma : Bytes → Type 0
HasNoComma = All (λ c. (c == comma) ≡ false)

-- A name that a list may hold.
abbrev pub IsName : Bytes → Type 0
IsName n = HasNoComma n × (0 < length n)

split_from-name : (piece n : Bytes) → HasNoComma n → split_from piece n ≡ (piece ++ n) ∷ []
unfolding split_from
split_from-name piece [] h = rw append-nil
split_from-name piece (c ∷ cs) (h, hs) =
    rw h (split_from-name (piece ++ c ∷ []) cs hs ∙ rw (append_assoc piece (c ∷ []) cs))

split_from-comma :
    (piece n rest : Bytes)
    → HasNoComma n
    → split_from piece (n ++ comma ∷ rest) ≡ (piece ++ n) ∷ split_from [] rest
unfolding split_from
split_from-comma piece [] rest h = rw append-nil
split_from-comma piece (c ∷ cs) rest (h, hs) =
    rw h (split_from-comma (piece ++ c ∷ []) cs rest hs ∙ rw (append_assoc piece (c ∷ []) cs))

split_from-joined :
    (n : Bytes) (ns : List Bytes) → All IsName (n ∷ ns) → split_from [] (joined (n ∷ ns)) ≡ n ∷ ns
split_from-joined n [] ((h, _), _) = split_from-name [] n h
split_from-joined n (m ∷ ns) ((h, _), hs) =
    split_from-comma [] n (joined (m ∷ ns)) h ∙ ap (◌∷◌ n) (split_from-joined m ns hs)

-- Splitting undoes joining.
pub split_list-joined : (ns : List Bytes) → All IsName ns → split_list (joined ns) ≡ ns
split_list-joined [] h = refl
split_list-joined ([] ∷ ns) h = absurd (omega arith)
split_list-joined ((c ∷ cs) ∷ []) h = split_from-joined (c ∷ cs) [] h
split_list-joined ((c ∷ cs) ∷ (m ∷ ns)) h = split_from-joined (c ∷ cs) (m ∷ ns) h

-- A joined list of names, none of them empty or with a comma, whose length fits a uint32, is read back
-- where it stands, and the parser moves behind it.
pub read_list-joined :
    (pre rest : Bytes) (ns : List Bytes)
    → All IsName ns
    → IsU32 (length (joined ns))
    → read_list (at pre (str (joined ns) ++ rest)) ≡ (some ns, at (pre ++ str (joined ns)) rest)
unfolding read_list
read_list-joined pre rest ns h fits =
    rw (read_string-str pre rest (joined ns) fits) (rw (split_list-joined ns h))

-- Nothing is left at the end.
pub avail-end : (pre : Bytes) → avail (at pre []) ≡ 0
unfolding avail
avail-end pre = rw append-nil (rw (ge→ltb_false (length pre) (length pre) (omega arith)))

pub read_bool-end : (pre : Bytes) → read_bool (at pre []) ≡ (none, at pre [])
unfolding read_bool
read_bool-end pre = rw append-nil (rw (ge→ltb_false (length pre) (length pre) (omega arith)) refl)

pub read_u32-end : (pre : Bytes) → read_u32 (at pre []) ≡ (none, at pre [])
unfolding read_u32
read_u32-end pre =
    let short : leb (length (pre ++ [])) (length pre + 3) ≡ true =
      le→leb _ _ (omega (arith, length-append pre [])) in
    rw short refl

pub skip_string-end : (pre : Bytes) → skip_string (at pre []) ≡ (none, at pre [])
unfolding skip_string
skip_string-end pre = ap (λ r. then_read r skip_bytes) (read_u32-end pre)

pub read_string-end : (pre : Bytes) → read_string none (at pre []) ≡ (none, at pre [])
unfolding read_string read_u32
read_string-end pre =
    let short : leb (length (pre ++ [])) (length pre + 3) ≡ true =
      le→leb _ _ (omega (arith, length-append pre [])) in
    rw short refl

pub avail-rest : (pre rest : Bytes) → avail (at pre rest) ≡ length rest
unfolding avail
avail-rest pre rest = ground (arith, length-append pre rest)

-- All that is left, as `readRaw()` takes it.
pub read_raw-rest :
    (pre rest : Bytes) → read_raw none (at pre rest) ≡ (some rest, at (pre ++ rest) [])
unfolding read_raw
read_raw-rest pre rest =
    let size : length (pre ++ rest) - length pre ≡ length rest =
      omega (arith, length-append pre rest) in
    let whole : at (pre ++ rest) [] ≡ moved (length rest) (at pre rest) =
      sym (moved-at pre rest []) ∙ ap (λ x. moved (length rest) (at pre x)) (append-nil rest) in
    rw (drop-append pre rest, size) (ap (λ p. (some rest, p)) (sym whole))
