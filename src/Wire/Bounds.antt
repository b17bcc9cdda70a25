-- ===== src/Wire/Bounds.antt =====
-- Where the parser may stand, and what a write of a number changes.
use ssh.Common.{
  false, ℕ, zero, suc, ◌+◌, ◌/◌, ◌%◌, ◌≤◌, ◌<◌, ◌≡◌, ◌≢◌, refl, ap, ◌∙◌, arith, Option, none, some,
  List, [], ◌∷◌, ◌⊎◌, length, length-set, set, get_or, Bytes, IsU32,
}
use ssh.Wire.{
  u32_at, write_u32_be, Parser, then_read, read_u32, read_u64, read_byte, read_bool, take_string,
  read_string, split_list, read_list, read_raw, read_raw_throws,
}

-- A method of the parser that reads a value, which is dropped; `skip` and `skipString` are not among them.
pub data Read : Type 0 where
  u32_read u64_read byte_read bool_read list_read : Read
  string_read : Option ℕ → Read
  raw_read : Option ℕ → Read

abbrev pub after_read : Read → Parser → Parser
after_read u32_read p = (read_u32 p).1
after_read u64_read p = (read_u64 p).1
after_read byte_read p = (read_byte p).1
after_read bool_read p = (read_bool p).1
after_read list_read p = (read_list p).1
after_read (string_read m) p = (read_string m p).1
after_read (raw_read m) p = (read_raw m p).1

abbrev pub after_reads : List Read → Parser → Parser
after_reads [] p = p
after_reads (r ∷ rs) p = after_reads rs (after_read r p)

-- The parser stands in `b`, no earlier than `start` and no later than its end.
pub record IsWithin (b : Bytes) (start : ℕ) (p : Parser) : Type 0 where
  pub same : p.buffer ≡ some b
  pub after : start ≤ p.pos
  pub before : p.pos ≤ length b

module _ (b : Bytes) (start : ℕ) where
  read_u32-IsWithin : (p : Parser) → IsWithin b start p → IsWithin b start (read_u32 p).1
  unfolding read_u32
  read_u32-IsWithin p h = ground arith

  take_string-IsWithin :
      (m : Option ℕ) (n : ℕ) (p : Parser)
      → IsWithin b start p
      → IsWithin b start (take_string m n p).1
  unfolding take_string
  take_string-IsWithin m n p h = ground arith

  read_string-IsWithin :
      (m : Option ℕ) (p : Parser) → IsWithin b start p → IsWithin b start (read_string m p).1
  unfolding read_string
  read_string-IsWithin m p h = go (read_u32 p) (read_u32-IsWithin p h)
    where
      go :
          (r : Option ℕ × Parser)
          → IsWithin b start r.1
          → IsWithin b start (then_read r (take_string m)).1
      go (none, q) k = k
      go (some n, q) k = take_string-IsWithin m n q k

  read_list-IsWithin : (p : Parser) → IsWithin b start p → IsWithin b start (read_list p).1
  unfolding read_list
  read_list-IsWithin p h = go (read_string none p) (read_string-IsWithin none p h)
    where
      go :
          (r : Option Bytes × Parser)
          → IsWithin b start r.1
          → IsWithin b start (then_read r (λ s q. (some (split_list s), q))).1
      go (none, q) k = k
      go (some n, q) k = k

  after_read-IsWithin :
      (r : Read) (p : Parser) → IsWithin b start p → IsWithin b start (after_read r p)
  unfolding read_u64 read_byte read_bool read_raw
  after_read-IsWithin u32_read p h = read_u32-IsWithin p h
  after_read-IsWithin u64_read p h = ground arith
  after_read-IsWithin byte_read p h = ground arith
  after_read-IsWithin bool_read p h = ground arith
  after_read-IsWithin list_read p h = read_list-IsWithin p h
  after_read-IsWithin (string_read m) p h = read_string-IsWithin m p h
  after_read-IsWithin (raw_read none) p h = ground arith
  after_read-IsWithin (raw_read (some n)) p h = ground arith

  -- Whatever the bytes are and whatever is read, by any sequence of the methods that read a value (all but
  -- `skip` and `skipString`), a parser that stands in its packet keeps its buffer, never goes back and never
  -- passes the end, and `readRaw()` does not throw there.
  pub after_reads-IsWithin :
      (rs : List Read) (p : Parser)
      → IsWithin b start p
      → IsWithin b start (after_reads rs p) × (read_raw_throws (after_reads rs p) ≡ false)
  unfolding read_raw_throws
  after_reads-IsWithin [] p h = (h, ground arith)
  after_reads-IsWithin (r ∷ rs) p h =
      after_reads-IsWithin rs (after_read r p) (after_read-IsWithin r p h)

get_or-set_self : (xs : Bytes) (i v : ℕ) → i < length xs → get_or (set xs i v) i 0 ≡ v
get_or-set_self [] i v h = absurd (omega arith)
get_or-set_self (x ∷ xs) zero v h = refl
get_or-set_self (x ∷ xs) (suc i) v h = get_or-set_self xs i v (omega arith)

get_or-set_ne : (xs : Bytes) (i j v : ℕ) → i ≢ j → get_or (set xs i v) j 0 ≡ get_or xs j 0
get_or-set_ne [] i j v h = refl
get_or-set_ne (x ∷ xs) zero zero v h = absurd (h refl)
get_or-set_ne (x ∷ xs) zero (suc j) v h = refl
get_or-set_ne (x ∷ xs) (suc i) zero v h = refl
get_or-set_ne (x ∷ xs) (suc i) (suc j) v h = get_or-set_ne xs i j v (λ e. h (ap suc e))

-- Four bytes stored one after the other.
module _ (buf : Bytes) (offset a b c d : ℕ) (room : offset + 4 ≤ length buf) where
  abbrev b₁ : Bytes
  b₁ = set buf offset a

  abbrev b₂ : Bytes
  b₂ = set b₁ (offset + 1) b

  abbrev b₃ : Bytes
  b₃ = set b₂ (offset + 2) c

  abbrev b₄ : Bytes
  b₄ = set b₃ (offset + 3) d

  length-b₃ : (length b₁ ≡ length buf) × (length b₂ ≡ length buf) × (length b₃ ≡ length buf)
  length-b₃ =
      omega
        (arith, length-set buf offset a, length-set b₁ (offset + 1) b, length-set b₂ (offset + 2) c)

  length-b₄ : length b₄ ≡ length buf
  length-b₄ = omega (arith, length-b₃.2, length-set b₃ (offset + 3) d)

  get_or-b₄ :
      (get_or b₄ offset 0 ≡ a)
      × (get_or b₄ (offset + 1) 0 ≡ b)
      × (get_or b₄ (offset + 2) 0 ≡ c)
      × (get_or b₄ (offset + 3) 0 ≡ d)
  get_or-b₄ = (
    get_or-set_ne b₃ (offset + 3) offset d (omega arith)
        ∙ get_or-set_ne b₂ (offset + 2) offset c (omega arith)
        ∙ get_or-set_ne b₁ (offset + 1) offset b (omega arith)
        ∙ get_or-set_self buf offset a (omega arith),
    get_or-set_ne b₃ (offset + 3) (offset + 1) d (omega arith)
        ∙ get_or-set_ne b₂ (offset + 2) (offset + 1) c (omega arith)
        ∙ get_or-set_self b₁ (offset + 1) b (omega (arith, length-b₃.0)),
    get_or-set_ne b₃ (offset + 3) (offset + 2) d (omega arith)
        ∙ get_or-set_self b₂ (offset + 2) c (omega (arith, length-b₃.1)),
    get_or-set_self b₃ (offset + 3) d (omega (arith, length-b₃.2)),
  )

  others-b₄ : (j : ℕ) → (j < offset) ⊎ (offset + 4 ≤ j) → get_or b₄ j 0 ≡ get_or buf j 0
  others-b₄ j h =
      get_or-set_ne b₃ (offset + 3) j d (omega arith)
      ∙ get_or-set_ne b₂ (offset + 2) j c (omega arith)
      ∙ get_or-set_ne b₁ (offset + 1) j b (omega arith)
      ∙ get_or-set_ne buf offset j a (omega arith)

-- A number written where there is room for it reads back, the length stays, and no other byte changes.
write_u32_be_lem :
    (buf : Bytes) (v offset : ℕ)
    → IsU32 v
    → offset + 4 ≤ length buf
    → (u32_at (write_u32_be buf v offset).0 offset ≡ v)
      × (length (write_u32_be buf v offset).0 ≡ length buf)
      × ((j : ℕ)
          → (j < offset) ⊎ (offset + 4 ≤ j)
          → get_or (write_u32_be buf v offset).0 j 0 ≡ get_or buf j 0)
unfolding write_u32_be
write_u32_be_lem buf v offset hv room =
    let a = v / 16777216 % 256 in
    let b = v / 65536 % 256 in
    let c = v / 256 % 256 in
    let (ea, eb, ec, ed) = get_or-b₄ buf offset a b c (v % 256) room in
    (
      omega (arith, ea, eb, ec, ed),
      length-b₄ buf offset a b c (v % 256) room,
      others-b₄ buf offset a b c (v % 256) room,
    )
