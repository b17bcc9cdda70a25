-- ===== src/Sftp/Window.antt =====
-- How the packets of lib/protocol/SFTP.js wait for the window: `sendOrBuffer`, `tryWritePayload`,
-- `drainBuffer`, and what CHANNEL_WINDOW_ADJUST of lib/client.js and lib/server.js does to an SFTP channel.
use ssh.Common.{
  ℕ, ◌+◌, Bool, true, false, not, Option, none, some, List, [], ◌∷◌, ◌++◌, length, ltb, ◌==◌,
  if◌then◌else◌, Bytes,
}
use mathlib.Core.Option
use ssh.Channel.Writing.{Sending, send_slices, rounds}

-- `outgoing`, `_waitWindow`, whether `_chunkcb` is `drainBuffer`, `_buffer`, and what was sent.
pub record Sender : Type 0 where
  pub is_open : Bool
  pub window : ℕ
  pub packet_size : ℕ
  pub wait_window : Bool
  pub draining : Bool
  pub buffer : List Bytes
  pub sent : List Bytes

-- After the loop, which sets the flags where it uses up the window: what is left, if anything is.
abbrev pub after_try : Sending → Sender → Option Bytes × Sender
after_try r s = (
  if ltb 0 (length (r.left)) then some (r.left) else none,
  record s {
    window = r.window;
    wait_window = if r.window == 0 then true else s.wait_window;
    draining = if r.window == 0 then true else s.draining;
    sent = s.sent ++ r.slices;
  },
)

-- `none` means that the loop does not end.
unfoldable pub try_write : Sender → Bytes → Option (Option Bytes × Sender)
try_write s payload =
    if not (s.is_open)
    then some (none, s)
    else if s.window == 0
    then some (some payload, record s { wait_window = true })
    else Option.map (λ r. after_try r s)
        (send_slices (rounds payload) (s.packet_size) (s.window) payload)

abbrev pub kept : Option Bytes × Sender → Bool × Sender
kept (none, s) = (true, s)
kept (some b, s) = (false, record s { buffer = s.buffer ++ b ∷ [] })

unfoldable pub send_or_buffer : Sender → Bytes → Option (Bool × Sender)
send_or_buffer s payload = Option.map kept (try_write s payload)

abbrev pub drained :
    List Bytes → Option (Option Bytes × Sender) → (Sender → Option Sender) → Option Sender
drained bs none next = none
drained bs (some (none, s)) next = next s
drained bs (some (some b, s)) next = some (record s { buffer = b ∷ bs })

unfoldable pub drain_loop : List Bytes → Sender → Option Sender
drain_loop [] s = some (record s { buffer = [] })
drain_loop (b ∷ bs) s = drained bs (try_write s b) (drain_loop bs)

unfoldable pub drain_buffer : Sender → Option Sender
drain_buffer s = drain_loop (s.buffer) (record s { draining = false })

-- `_chunk` and those of stderr are never set on an SFTP channel.
unfoldable pub adjust : ℕ → Sender → Option Sender
adjust n s =
    let more = record s { window = s.window + n } in
    let woken = record more { wait_window = false } in
    if s.wait_window then if s.draining then drain_buffer woken else some woken else some more
