-- ===== src/Message/Terminal.antt =====
-- The encoded terminal modes of 'pty-req': `modesToBytes` of lib/protocol/Protocol.js, and the loop of
-- lib/protocol/handlers.misc.js that reads them. A mode is known by its number (TERMINAL_MODE of
-- lib/protocol/constants.js); the numbers have one name each.
use ssh.Common.{
  ℕ, ◌+◌, ◌*◌, Bool, not, ◌&&◌, ◌||◌, Option, none, some, List, [], ◌∷◌, ◌++◌, drop, leb, ◌==◌,
  if◌then◌else◌, Bytes,
}
use ssh.Wire.{u32}

abbrev within : ℕ → ℕ → ℕ → Bool
within lo hi n = leb lo n && leb n hi

-- `TERMINAL_MODE_BY_VALUE[opcode] !== undefined`.
unfoldable pub is_mode : ℕ → Bool
is_mode n =
    within 0 18 n
    || within 30 41 n
    || within 50 62 n
    || within 70 75 n
    || within 90 93 n
    || within 128 129 n

-- The `modes` object: numbers of modes with their values, one entry to a mode.
abbrev pub Modes : Type 0
Modes = List (ℕ × ℕ)

unfoldable pub put_mode : ℕ → ℕ → Modes → Modes
put_mode op v [] = (op, v) ∷ []
put_mode op v ((o, w) ∷ ms) = if o == op then (o, v) ∷ ms else (o, w) ∷ put_mode op v ms

-- `modesToBytes`, whose last byte is TTY_OP_END.
unfoldable pub modes_to_bytes : Modes → Bytes
unfolding is_mode
modes_to_bytes [] = 0 ∷ []
modes_to_bytes ((op, v) ∷ ms) =
    let rest = modes_to_bytes ms in
    if op == 0 || not (is_mode op) then rest else op ∷ (u32 v ++ rest)

-- `while (bufferParser.avail())`, on the bytes still to be read; `none` is `modes = undefined`.
unfoldable pub read_modes_loop : Bytes → Modes → Option Modes
unfolding is_mode put_mode
read_modes_loop [] modes = some modes
read_modes_loop (op ∷ (a ∷ (b ∷ (c ∷ (d ∷ rest))))) modes =
    let value = a * 16777216 + b * 65536 + c * 256 + d in
    let more = read_modes_loop rest (put_mode op value modes) in
    if op == 0 then some modes else if is_mode op then more else none
read_modes_loop (op ∷ _) modes = if op == 0 then some modes else none

-- `bufferParser.init(modesBinary, 1)`: the reading starts behind the first byte.
unfoldable pub read_modes : Bytes → Option Modes
read_modes binary = read_modes_loop (drop 1 binary) []
