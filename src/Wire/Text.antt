-- ===== src/Wire/Text.antt =====
-- Texts whose length is taken as `text.length`, and what `buffer.utf8Write(text, p, text.length)` leaves: the methods
-- pty and authFailure of lib/protocol/Protocol.js. A text is its UTF-8 bytes, as everywhere.
use ssh.Common.{
  ℕ, ◌+◌, ◌≡◌, ap, ◌∙◌, arith, ◌&&◌, [], ◌∷◌, ◌++◌, length, length-append, take, replicate,
  take-append, length-take, length-replicate, leb, ltb, if◌then◌else◌, Bytes,
}
use ssh.Wire.{u32}
use ssh.Wire.Encode.{str}

-- `text.length` in UTF-16 units: none for a byte that continues a character, two for the first of four bytes.
abbrev pub utf16_length : Bytes → ℕ
utf16_length [] = 0
utf16_length (b ∷ bs) =
    let rest = utf16_length bs in
    if leb 128 b && ltb b 192 then rest else if leb 240 b then 2 + rest else 1 + rest

-- `utf8Write` of Node's Buffer with a length: the bytes that stand there behind it. A text that needs no more is
-- written whole; where it needs more, the last bytes may be what they were before.
pub record Utf8Write : Type 0 where
  pub write : Bytes → ℕ → Bytes
  pub whole : (text : Bytes) → write text (length text) ≡ text
  pub sized : (text : Bytes) (n : ℕ) → length (write text n) ≡ n

unfoldable pub text_field : Utf8Write → Bytes → Bytes
text_field u text = u32 (utf16_length text) ++ u.write text (utf16_length text)

-- A text of ASCII, for one.
abbrev pub IsPlain : Bytes → Type 0
IsPlain text = utf16_length text ≡ length text

pub text_field-plain : (u : Utf8Write) (text : Bytes) → IsPlain text → text_field u text ≡ str text
unfolding text_field
text_field-plain u text h =
    ap (λ n. u32 n ++ u.write text n) h ∙ ap (λ b. u32 (length text) ++ b) (u.whole text)

-- One such writer: it cuts a text that is too long at any byte.
abbrev pub fitted : Bytes → ℕ → Bytes
fitted text n = take n (text ++ replicate n 0)

pub fitted_whole : (text : Bytes) → fitted text (length text) ≡ text
fitted_whole text = take-append text (replicate (length text) 0)

pub fitted_sized : (text : Bytes) (n : ℕ) → length (fitted text n) ≡ n
fitted_sized text n = omega (
  arith,
  length-take n (text ++ replicate n 0),
  length-append text (replicate n 0),
  length-replicate {A = ℕ} n 0,
)

pub fitting : Utf8Write
fitting = record { write = fitted; whole = fitted_whole; sized = fitted_sized }
