-- ===== src/Sftp.antt =====
-- lib/protocol/SFTP.js: `push`, which cuts the data of a channel into packets.
-- `accept` stands for what follows a whole packet, the lookup of its handler and the version check
-- included: it goes on, or stops (a fatal error, or a handler that returns false) and drops
-- the rest of that call's data. A call of `push` that comes behind a stop or an error is not modelled.
pub mod Bytewise
pub mod Pushing
pub mod Cut
pub mod Attrs
pub mod AttrsBack
pub mod Ids
pub mod Asking
pub mod Serving
pub mod Asked
pub mod Exchange
pub mod Arrival
pub mod Answering
pub mod Hearing
pub mod Answered
pub mod Callbacks
pub mod Stream
pub mod Sizes
pub mod EndToEnd
pub mod Window
pub mod Trying
pub mod Keeping
pub mod InOrder
mod Tests
mod RequestTests
use ssh.Common.{
  ℕ, zero, suc, ◌+◌, ◌-◌, ◌*◌, Bool, true, false, Option, none, some, List, [], ◌∷◌, ◌++◌, length,
  take, drop, min, ltb, ◌==◌, if◌then◌else◌, Bytes,
}
use ssh.Common.Int.{ℤ, pos, pos_part, negsuc, ◌+ℤ◌, ltb_ℤ, to_int32}

-- `_pktLen`, `_pktLenBytes`, and the first `_pktPos` bytes of `_pkt`, which holds no other data yet.
pub record Framing : Type 0 where
  pub len : ℤ
  pub len_bytes : ℕ
  pub stored : Bytes

abbrev pub frame : ℤ → ℕ → Bytes → Framing
frame len len_bytes stored = record { len = len; len_bytes = len_bytes; stored = stored }

abbrev pub between : Framing
between = frame (pos 0) 0 []

pub data Verdict (S : Type 0) : Type 0 where
  go_on stop : S → Verdict S

pub data Pushed (S : Type 0) : Type 0 where
  waiting : Framing → S → Pushed S
  stopped : S → Pushed S
  invalid_length : S → Pushed S
  too_long : ℤ → S → Pushed S
  type_error : S → Pushed S

-- `(len << 8) + byte`.
abbrev pub shift_in : ℤ → ℕ → ℤ
shift_in (pos n) b = to_int32 (n * 256) +ℤ pos b
shift_in (negsuc n) b = to_int32 ((4294967295 - n) * 256) +ℤ pos b

-- `while (nb--)`.
abbrev pub shift_all : ℤ → Bytes → ℤ
shift_all len [] = len
shift_all len (b ∷ bs) = shift_all (shift_in len b) bs

abbrev pub is_zero_ℤ : ℤ → Bool
is_zero_ℤ (pos n) = n == 0
is_zero_ℤ (negsuc n) = false

module _ {S : Type 0} (max_len : ℕ) (accept : S → Bytes → Verdict S) where
  abbrev pub decided :
      (Framing → S → Bytes → Option (Pushed S)) → Verdict S → Bytes → Option (Pushed S)
  decided loop (go_on s) rest = loop between s rest
  decided loop (stop s) rest = some (stopped s)

  -- `this._pkt[0]` of a packet without a byte is read of `undefined`.
  abbrev pub deliver :
      (Framing → S → Bytes → Option (Pushed S)) → S → Bytes → Bytes → Option (Pushed S)
  deliver loop s [] rest = some (type_error s)
  deliver loop s (b ∷ bs) rest = decided loop (accept s (b ∷ bs)) rest

  -- `if (this._pktPos < this._pktLen)`, and what follows.
  abbrev pub fill :
      (Framing → S → Bytes → Option (Pushed S)) → Framing → S → Bytes → Option (Pushed S)
  fill loop f s rest =
      let nb = min (pos_part f.len - length f.stored) (length rest) in
      let stored' = f.stored ++ take nb rest in
      if ltb_ℤ (pos (length f.stored)) f.len
      then if ltb_ℤ (pos (length stored')) f.len
        then some (waiting (frame f.len f.len_bytes stored') s)
        else deliver loop s stored' (drop nb rest)
      else deliver loop s f.stored rest

  -- The checks once four bytes are in.
  abbrev pub checked : Framing → S → Pushed S
  checked f s =
      if is_zero_ℤ f.len
      then invalid_length s
      else if ltb_ℤ (pos max_len) f.len
      then too_long f.len s
      else waiting f s

  abbrev pub go : Pushed S → Bytes → (Framing → S → Bytes → Option (Pushed S)) → Option (Pushed S)
  go (waiting f s) [] next = some (waiting f s)
  go (waiting f s) (b ∷ bs) next = next f s (b ∷ bs)
  go p rest next = some p

  -- `while (p < data.length)`, on the bytes from `p` on; `none` means that the fuel ran out.
  unfoldable pub push_loop : ℕ → Framing → S → Bytes → Option (Pushed S)
  push_loop zero f s rest = none
  push_loop (suc fuel) f s [] = some (waiting f s)
  push_loop (suc fuel) f s (b ∷ bs) =
      let rest = b ∷ bs in
      let nb = min (4 - f.len_bytes) (length rest) in
      let f' = frame (shift_all f.len (take nb rest)) (f.len_bytes + nb) f.stored in
      if ltb f.len_bytes 4
      then if ltb f'.len_bytes 4
        then some (waiting f' s)
        else go (checked f' s) (drop nb rest) (fill (push_loop fuel))
      else fill (push_loop fuel) f s rest

  unfoldable pub push : Framing → S → Bytes → Option (Pushed S)
  push f s data' = push_loop (suc (length data')) f s data'
