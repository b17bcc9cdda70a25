-- ===== src/Sftp/AttrsBack.antt =====
-- Attributes are read back as they were written.
use ssh.Common.{
  ℕ, ◌+◌, ◌^◌, ◌<◌, ◌≡◌, refl, ap, ◌∙◌, arith, Bool, true, false, Option, none, some, [], ◌++◌,
  append-nil, append_assoc, Bytes, IsU32,
}
use ssh.Wire.{Parser, Reading, u32, read_u32, read_u64}
use ssh.Wire.Encode.{at, read_u32-end, read_u32-u32, read_u64-u64}
use ssh.Sftp.Attrs.{
  Attrs, set_if, both, size_field, number_field, pair_field, attrs_flags, attrs_bytes, has_bit,
  part, continued, read_pair, read_parts, read_attrs, read_extended, assembled,
}

-- Whether a part is written.
abbrev present : {A : Type 0} → Option A → Bool
present none = false
present (some a) = true

abbrev spread : Option (ℕ × ℕ) → Option (Option ℕ × ℕ)
spread none = none
spread (some (a, b)) = some (some a, b)

abbrev pub IsFor : (ℕ → Type 0) → Option ℕ → Type 0
IsFor P none = Unit
IsFor P (some v) = P v

abbrev pub IsForBoth : Option (ℕ × ℕ) → Type 0
IsForBoth none = Unit
IsForBoth (some (a, b)) = IsU32 a × IsU32 b

read_pair-pair :
    (pre rest : Bytes) (a b : ℕ)
    → IsU32 a
    → IsU32 b
    → read_pair (at pre ((u32 a ++ u32 b) ++ rest))
      ≡ (some (some a, b), at (pre ++ (u32 a ++ u32 b)) rest)
unfolding read_pair
read_pair-pair pre rest a b ha hb =
    rw
      (
        read_u32-u32 pre (u32 b ++ rest) a ha,
        read_u32-u32 (pre ++ u32 a) rest b hb,
        append_assoc pre (u32 a) (u32 b),
      )
      refl

part_absent :
    {A B : Type 0} (read : Reading (Option A)) (k : Option A → Reading (Option B)) (p : Parser)
    → part false read k p ≡ k none p
unfolding part
part_absent read k p = refl

module _ {B : Type 0} (pre rest : Bytes) where
  part-size :
      (o : Option ℕ) (k : Option ℕ → Reading (Option B))
      → IsFor (λ v. v < 2 ^ 64) o
      → part (present o) read_u64 k (at pre (size_field o ++ rest))
        ≡ k o (at (pre ++ size_field o) rest)
  unfolding part
  part-size none k h = rw append-nil refl
  part-size (some v) k h = ap (λ r. continued r k) (read_u64-u64 pre rest v h)

  part-number :
      (o : Option ℕ) (k : Option ℕ → Reading (Option B))
      → IsFor IsU32 o
      → part (present o) read_u32 k (at pre (number_field o ++ rest))
        ≡ k o (at (pre ++ number_field o) rest)
  unfolding part
  part-number none k h = rw append-nil refl
  part-number (some v) k h = ap (λ r. continued r k) (read_u32-u32 pre rest v h)

  part-pair :
      (o : Option (ℕ × ℕ)) (k : Option (Option ℕ × ℕ) → Reading (Option B))
      → IsForBoth o
      → part (present o) read_pair k (at pre (pair_field o ++ rest))
        ≡ k (spread o) (at (pre ++ pair_field o) rest)
  unfolding part
  part-pair none k h = rw append-nil refl
  part-pair (some (a, b)) k (ha, hb) = ap (λ r. continued r k) (read_pair-pair pre rest a b ha hb)

-- The flags tell which parts there are.
has_bit-attrs_flags :
    (a : Attrs)
    → (has_bit (attrs_flags a) 1 ≡ present (a.size))
      × (has_bit (attrs_flags a) 2 ≡ present (both a.uid a.gid))
      × (has_bit (attrs_flags a) 4 ≡ present (a.mode))
      × (has_bit (attrs_flags a) 8 ≡ present (both a.atime a.mtime))
      × (has_bit (attrs_flags a) 2147483648 ≡ false)
      × (attrs_flags a < 16)
unfolding attrs_flags
has_bit-attrs_flags a = go (a.size) (both a.uid a.gid) (a.mode) (both a.atime a.mtime)
  where
    go :
        (s : Option ℕ) (i : Option (ℕ × ℕ)) (m : Option ℕ) (t : Option (ℕ × ℕ))
        → let f = set_if s 1 + (set_if i 2 + (set_if m 4 + set_if t 8)) in
          (has_bit f 1 ≡ present s)
          × (has_bit f 2 ≡ present i)
          × (has_bit f 4 ≡ present m)
          × (has_bit f 8 ≡ present t)
          × (has_bit f 2147483648 ≡ false)
          × (f < 16)
    go none none none none = (refl, refl, refl, refl, refl, omega arith)
    go none none none (some t) = (refl, refl, refl, refl, refl, omega arith)
    go none none (some m) none = (refl, refl, refl, refl, refl, omega arith)
    go none none (some m) (some t) = (refl, refl, refl, refl, refl, omega arith)
    go none (some i) none none = (refl, refl, refl, refl, refl, omega arith)
    go none (some i) none (some t) = (refl, refl, refl, refl, refl, omega arith)
    go none (some i) (some m) none = (refl, refl, refl, refl, refl, omega arith)
    go none (some i) (some m) (some t) = (refl, refl, refl, refl, refl, omega arith)
    go (some s) none none none = (refl, refl, refl, refl, refl, omega arith)
    go (some s) none none (some t) = (refl, refl, refl, refl, refl, omega arith)
    go (some s) none (some m) none = (refl, refl, refl, refl, refl, omega arith)
    go (some s) none (some m) (some t) = (refl, refl, refl, refl, refl, omega arith)
    go (some s) (some i) none none = (refl, refl, refl, refl, refl, omega arith)
    go (some s) (some i) none (some t) = (refl, refl, refl, refl, refl, omega arith)
    go (some s) (some i) (some m) none = (refl, refl, refl, refl, refl, omega arith)
    go (some s) (some i) (some m) (some t) = (refl, refl, refl, refl, refl, omega arith)

-- What is written of attributes: ids and times only in pairs, nothing extended.
abbrev pub kept : Attrs → Attrs
kept a =
    assembled (a.size) (spread (both a.uid a.gid)) (a.mode) (spread (both a.atime a.mtime)) none

-- Numbers fit their fields.
abbrev pub FitsAttrs : Attrs → Type 0
FitsAttrs a =
    IsFor (λ v. v < 2 ^ 64) (a.size)
    × IsForBoth (both a.uid a.gid)
    × IsFor IsU32 (a.mode)
    × IsForBoth (both a.atime a.mtime)

abbrev pub attrs_field : Attrs → Bytes
attrs_field a = u32 (attrs_flags a) ++ attrs_bytes a

-- Attributes whose size fits 64 bits and whose other numbers fit 32, written anywhere and before any
-- bytes, are read back, but for a user, a group or a time that stands without its
-- other half, and for the extended ones; the parser moves behind them.
pub read_attrs-attrs_field :
    (pre rest : Bytes) (a : Attrs)
    → FitsAttrs a
    → read_attrs (at pre (attrs_field a ++ rest)) ≡ (some (kept a), at (pre ++ attrs_field a) rest)
unfolding read_attrs read_parts attrs_bytes
read_attrs-attrs_field pre rest a (h_size, h_ids, h_mode, h_times) =
    let (e₁, e₂, e₄, e₈, e_extended, small) = has_bit-attrs_flags a in
    let s = size_field (a.size) in
    let i = pair_field (both a.uid a.gid) in
    let m = number_field (a.mode) in
    let t = pair_field (both a.atime a.mtime) in
    let r₀ = pre ++ u32 (attrs_flags a) in
    let there : attrs_field a ++ rest ≡ u32 (attrs_flags a) ++ (s ++ (i ++ (m ++ (t ++ rest)))) =
      simp (append_assoc) in
    let back : (((r₀ ++ s) ++ i) ++ m) ++ t ≡ pre ++ attrs_field a = simp (append_assoc) in
    let reading : read_attrs (at pre (u32 (attrs_flags a) ++ (s ++ (i ++ (m ++ (t ++ rest))))))
        ≡ (some (kept a), at ((((r₀ ++ s) ++ i) ++ m) ++ t) rest) =
      simp (
        read_u32-u32 pre (s ++ (i ++ (m ++ (t ++ rest)))) (attrs_flags a) (omega (arith, small)),
        e₁,
        part-size r₀ (i ++ (m ++ (t ++ rest))) (a.size) _ h_size,
        e₂,
        part-pair (r₀ ++ s) (m ++ (t ++ rest)) (both a.uid a.gid) _ h_ids,
        e₄,
        part-number ((r₀ ++ s) ++ i) (t ++ rest) (a.mode) _ h_mode,
        e₈,
        part-pair (((r₀ ++ s) ++ i) ++ m) rest (both a.atime a.mtime) _ h_times,
        e_extended,
        part_absent read_extended,
      ) in
    ap (λ x. read_attrs (at pre x)) there ∙ reading ∙ ap (λ x. (some (kept a), at x rest)) back

pub read_attrs-end : (pre : Bytes) → read_attrs (at pre []) ≡ (none, at pre [])
unfolding read_attrs
read_attrs-end pre = rw (read_u32-end pre) refl
