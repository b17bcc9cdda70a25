-- ===== src/Wire.antt =====
-- lib/protocol/utils.js: numbers and strings on the wire, and the buffer parser.
-- A buffer is the list of its bytes, and a text is its UTF-8 bytes, so `utf8Slice` and `bufferSlice` give
-- the same list. `undefined` is `none`. A method of the parser takes its state and returns the result
-- with the new state.
pub mod Encode
pub mod Bounds
pub mod Text
mod Tests
use ssh.Common.{
  ℕ, ◌+◌, ◌-◌, ◌*◌, ◌/◌, ◌%◌, Bool, true, false, not, ◌&&◌, ◌||◌, Option, none, some, List, [], ◌∷◌,
  ◌++◌, min, length, take, drop, set, get_or, leb, ltb, ◌==◌, if◌then◌else◌, Bytes,
}

-- The four bytes that `writeUInt32BE` stores: a typed array keeps the low eight bits.
abbrev pub u32 : ℕ → Bytes
u32 v = (v / 16777216 % 256) ∷ (v / 65536 % 256) ∷ (v / 256 % 256) ∷ (v % 256) ∷ []

-- `writeUInt32BE` and `writeUInt32LE`, with the offset that they return. A typed array ignores a write
-- out of range.
pub write_u32_be : Bytes → ℕ → ℕ → Bytes × ℕ
write_u32_be buf value offset =
    let b₁ = set buf offset (value / 16777216 % 256) in
    let b₂ = set b₁ (offset + 1) (value / 65536 % 256) in
    let b₃ = set b₂ (offset + 2) (value / 256 % 256) in
    (set b₃ (offset + 3) (value % 256), offset + 4)

pub write_u32_le : Bytes → ℕ → ℕ → Bytes × ℕ
write_u32_le buf value offset =
    let b₁ = set buf offset (value % 256) in
    let b₂ = set b₁ (offset + 1) (value / 256 % 256) in
    let b₃ = set b₂ (offset + 2) (value / 65536 % 256) in
    (set b₃ (offset + 3) (value / 16777216 % 256), offset + 4)

-- `readUInt32BE(buf, offset)`; its callers check the range.
abbrev pub u32_at : Bytes → ℕ → ℕ
u32_at buf i =
    get_or buf i 0 * 16777216
    + get_or buf (i + 1) 0 * 65536
    + get_or buf (i + 2) 0 * 256
    + get_or buf (i + 3) 0

-- `bufferCopy`: the new contents of `dest`, and the number of bytes copied.
pub buffer_copy : Bytes → Bytes → ℕ → ℕ → ℕ → Bytes × ℕ
buffer_copy src dest src_start src_end dest_start =
    let stop = if ltb (length src) src_end then length src else src_end in
    let wanted = stop - src_start in
    let left = length dest - dest_start in
    let nb = if ltb left wanted then left else wanted in
    (take dest_start dest ++ (take nb (drop src_start src) ++ drop (dest_start + nb) dest), nb)

pub record Parser : Type 0 where
  pub buffer : Option Bytes
  pub pos : ℕ

abbrev pub init : Bytes → ℕ → Parser
init buf start = record { buffer = some buf; pos = start }

pub clear : Parser → Parser
clear p = record p { buffer = none }

pub avail : Parser → ℕ
avail p = elim (p.buffer) [
  | none ↦ 0
  | some b ↦ if ltb p.pos (length b) then length b - p.pos else 0
]

abbrev pub moved : ℕ → Parser → Parser
moved n p = record { buffer = p.buffer; pos = p.pos + n }

pub read_u32 : Parser → Option ℕ × Parser
read_u32 p = elim (p.buffer) [
  | none ↦ (none, p)
  | some b ↦ if leb (length b) (p.pos + 3) then (none, p) else (some (u32_at b p.pos), moved 4 p)
]

-- `readUInt64BE`: exact, as its BigInt branches are; the sum of doubles that the others return is
-- exact below 2 ^ 53.
pub read_u64 : Parser → Option ℕ × Parser
read_u64 p = elim (p.buffer) [
  | none ↦ (none, p)
  | some b ↦
      if leb (length b) (p.pos + 7)
      then (none, p)
      else (some (u32_at b p.pos * 4294967296 + u32_at b (p.pos + 4)), moved 8 p)
]

abbrev pub u64 : ℕ → Bytes
u64 v = u32 (v / 4294967296) ++ u32 v

-- A read that goes on only if the one before it returned a value.
abbrev pub then_read :
    {A B : Type 0} → Option A × Parser → (A → Parser → Option B × Parser) → Option B × Parser
then_read (none, p) f = (none, p)
then_read (some a, p) f = f a p

-- A chain of reads as the handlers write it: each read is made, whatever the one before it returned.
abbrev pub Reading : Type 0 → Type 0
Reading A = Parser → A × Parser

abbrev pub pure : {A : Type 0} → A → Reading A
pure a p = (a, p)

infixl 5 ◌>>=◌ ◌>>◌
abbrev pub ◌>>=◌ : {A B : Type 0} → Reading A → (A → Reading B) → Reading B
◌>>=◌ m f p = f (m p).0 (m p).1

abbrev pub ◌>>◌ : {A B : Type 0} → Reading A → Reading B → Reading B
◌>>◌ m k p = k (m p).1

pub skip : ℕ → Parser → Parser
skip n p = elim (p.buffer) [ none ↦ p | some b ↦ if ltb 0 n then moved n p else p ]

-- The position moves on even if the string does not fit.
pub skip_bytes : ℕ → Parser → Option ℕ × Parser
skip_bytes n p = elim (p.buffer) [
  | none ↦ (none, p)
  | some b ↦ if leb (p.pos + n) (length b) then (some n, moved n p) else (none, moved n p)
]

pub skip_string : Parser → Option ℕ × Parser
unfolding skip_bytes
skip_string p = then_read (read_u32 p) skip_bytes

pub read_byte : Parser → Option ℕ × Parser
read_byte p = elim (p.buffer) [
  | none ↦ (none, p)
  | some b ↦ if ltb p.pos (length b) then (some (get_or b p.pos 0), moved 1 p) else (none, p)
]

pub read_bool : Parser → Option Bool × Parser
read_bool p = elim (p.buffer) [
  | none ↦ (none, p)
  | some b ↦
      if ltb p.pos (length b) then (some (not (get_or b p.pos 0 == 0)), moved 1 p) else (none, p)
]

-- Whether a length exceeds the optional maximum.
abbrev exceeds : ℕ → Option ℕ → Bool
exceeds n none = false
exceeds n (some m) = ltb m n

-- What `readString` does once the length is read.
pub take_string : Option ℕ → ℕ → Parser → Option Bytes × Parser
take_string max_len n p = elim (p.buffer) [
  | none ↦ (none, p)
  | some b ↦
      if ltb (length b - p.pos) n || exceeds n max_len
      then (none, p)
      else (some (take n (drop p.pos b)), moved n p)
]

pub read_string : Option ℕ → Parser → Option Bytes × Parser
read_string max_len p = then_read (read_u32 p) (take_string max_len)

-- `list.split(',')` on a non-empty text: the piece being read, and those after it.
abbrev pub comma : ℕ
comma = b','

pub split_from : Bytes → Bytes → List Bytes
split_from piece [] = piece ∷ []
split_from piece (c ∷ cs) =
    let here = split_from [] cs in
    let on = split_from (piece ++ c ∷ []) cs in if c == comma then piece ∷ here else on

abbrev pub split_list : Bytes → List Bytes
split_list [] = []
split_list (c ∷ cs) = split_from [] (c ∷ cs)

pub read_list : Parser → Option (List Bytes) × Parser
read_list p = then_read (read_string none p) (λ b p'. (some (split_list b), p'))

-- `readRaw()` behind the end, where only `skip` and `skipString` lead: `bufferSlice` is given a negative
-- length and throws.
pub read_raw_throws : Parser → Bool
read_raw_throws p = elim (p.buffer) [ none ↦ false | some b ↦ ltb (length b) p.pos ]

-- `readRaw()` where it does not throw (no handler calls it behind `skipString`), and `readRaw(len)`.
pub read_raw : Option ℕ → Parser → Option Bytes × Parser
read_raw none p = elim (p.buffer) [
  | none ↦ (none, p)
  | some b ↦ (some (drop p.pos b), moved (length b - p.pos) p)
]
read_raw (some n) p = elim (p.buffer) [
  | none ↦ (none, p)
  | some b ↦
      if leb (p.pos + n) (length b) then (some (take n (drop p.pos b)), moved n p) else (none, p)
]

-- The `readString` function, outside the parser: the string, and `buffer._pos`.
pub read_string_at : Bytes → ℕ → Option ℕ → Option (Bytes × ℕ)
read_string_at buf start max_len =
    let left = length buf - start in
    let n = u32_at buf start in
    if leb (length buf) start || ltb left 4
    then none
    else if ltb left (4 + n) || exceeds n max_len
    then none
    else some (take n (drop (start + 4) buf), start + 4 + n)
