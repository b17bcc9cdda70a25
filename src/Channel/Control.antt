-- ===== src/Channel/Control.antt =====
-- Data coming in, and the end of a channel: the rest of lib/Channel.js and of the handlers.
use ssh.Common.{
  ℕ, Bool, true, false, not, ◌&&◌, ◌||◌, [], ◌∷◌, map, length, ◌==◌, if◌then◌else◌, Bytes,
}
use ssh.Common.Int.{ℤ, pos, negsuc, ◌+ℤ◌, ◌-ℤ◌, leb_ℤ, pos_part}
use Prim.Native.String.{String}
use text.Mathlib.Text.{◌==◌ as str_eq}
use ssh.Channel.Model.{
  max_window, window_threshold, State, is_open, Event, Channel, emit, emit_all, channel_eof,
  channel_close, channel_window_adjust, window_change, signal_sent, exit_status, exit_signal,
  replied, pushed, pushed_stderr,
}

-- `windowAdjust`.
unfoldable pub window_adjust : Channel → Channel
window_adjust c =
    let amt = pos max_window -ℤ c.incoming.window in
    elim (c.outgoing.state) [
      | State.closed ↦ c
      | _ ↦
          if leb_ℤ amt (pos 0)
          then c
          else emit (channel_window_adjust c.outgoing.id (pos_part amt)) (record c {
            incoming = record { window = c.incoming.window +ℤ amt; state = c.incoming.state };
          })
    ]

-- `_read` of the channel, and of `ClientStderr`.
unfoldable pub read : Channel → Channel
unfolding window_adjust
read c =
    let c' = record c { wait_chan_drain = false } in
    if c.wait_chan_drain
    then if leb_ℤ c.incoming.window (pos window_threshold) then window_adjust c' else c'
    else c

abbrev is_zero_ℤ : ℤ → Bool
is_zero_ℤ (pos n) = n == 0
is_zero_ℤ (negsuc n) = false

-- CHANNEL_DATA of the client. The flag is what `channel.push(data)` returns.
unfoldable pub on_data : Channel → Bytes → Bool → Channel
unfolding window_adjust
on_data c data' taken =
    let c' = emit (pushed data') (record c {
      incoming = record {
        window = c.incoming.window -ℤ pos (length data');
        state = c.incoming.state;
      };
    }) in
    if is_zero_ℤ c.incoming.window
    then c
    else if not taken
    then record c' { wait_chan_drain = true }
    else if leb_ℤ c'.incoming.window (pos window_threshold)
    then window_adjust c'
    else c'

-- CHANNEL_EXTENDED_DATA of the client; 1 is STDERR.
unfoldable pub on_ext_data : Channel → Bytes → ℕ → Bool → Channel
unfolding window_adjust
on_ext_data c data' kind taken =
    let c' = emit (pushed_stderr data') (record c {
      incoming = record {
        window = c.incoming.window -ℤ pos (length data');
        state = c.incoming.state;
      };
    }) in
    if not (kind == 1)
    then c
    else if is_zero_ℤ c.incoming.window
    then c
    else if not taken
    then record c' { wait_chan_drain = true }
    else if leb_ℤ c'.incoming.window (pos window_threshold)
    then window_adjust c'
    else c'

abbrev pub set_out_state : State → Channel → Channel
set_out_state s c = record c {
  outgoing = record {
    id = c.outgoing.id;
    window = c.outgoing.window;
    packet_size = c.outgoing.packet_size;
    state = s;
  };
}

-- `eof`.
unfoldable pub send_eof : Channel → Channel
send_eof c = elim (c.outgoing.state) [
  | State.open_ ↦ emit (channel_eof c.outgoing.id) (set_out_state State.eof c)
  | _ ↦ c
]

-- `close`.
unfoldable pub close : Channel → Channel
close c =
    let c' = emit (channel_close c.outgoing.id) (set_out_state State.closing c) in
    elim (c.outgoing.state) [ State.open_ ↦ c' | State.eof ↦ c' | _ ↦ c ]

-- `onFinish`, the listener of 'finish' and 'prefinish'.
unfoldable pub on_finish : Channel → Channel
on_finish c =
    let ended = send_eof c in
    let c' = if c.server || not c.allow_half_open then close ended else ended in
    record c' { writable = false }

-- CHANNEL_EOF of the client and of the server; the end of the streams is left to the library.
unfoldable pub on_eof : Channel → Channel
on_eof c = elim (c.incoming.state) [
  | State.open_ ↦ record c { incoming = record { window = c.incoming.window; state = State.eof } }
  | _ ↦ c
]

unfoldable pub finish_close : Channel → Channel
finish_close c = elim (c.outgoing.state) [ State.closing ↦ set_out_state State.closed c | _ ↦ c ]

-- CHANNEL_SUCCESS and CHANNEL_FAILURE, on the callback at the head; the flag is `true` for a failure.
unfoldable pub on_reply : Channel → Bool → Channel
on_reply c failed = elim (c.callbacks) [
  | [] ↦ c
  | cb ∷ rest ↦ emit (replied cb failed) (record c { callbacks = rest })
]

-- "Take care of any outstanding channel requests".
unfoldable pub fail_callbacks : Channel → Channel
fail_callbacks c = emit_all (map (λ cb. replied cb true) c.callbacks) (record c { callbacks = [] })

-- The states and the outstanding requests in `onCHANNEL_CLOSE`; `dead` is its last argument. The flag
-- is whether the channel was taken down, so that the manager removes it.
unfoldable pub on_close : Channel → Bool → Channel × Bool
on_close c dead =
    let c' = record c { incoming = record { window = c.incoming.window; state = State.closed } } in
    let answered = if dead then c' else close c' in
    elim (c.incoming.state) [
      | State.closed ↦ (c, false)
      | _ ↦ (fail_callbacks (finish_close answered), true)
    ]

-- A session method throws in the wrong mode.
pub data Thrown : Type 0 where
  client_only server_only : Thrown

pub data Outcome : Type 0 where
  done : Channel → Outcome
  throws : Thrown → Outcome

abbrev pub is_session : Channel → Bool
is_session c = str_eq c.type "session" && c.writable && is_open c.outgoing.state

unfoldable pub set_window : Channel → ℕ → ℕ → ℕ → ℕ → Outcome
set_window c rows cols height width =
    let runs = str_eq c.subtype "shell" || str_eq c.subtype "exec" in
    if c.server
    then throws client_only
    else if is_session c && runs
    then done (emit (window_change c.outgoing.id rows cols height width) c)
    else done c

unfoldable pub signal : Channel → String → Outcome
signal c name =
    if c.server
    then throws client_only
    else if is_session c
    then done (emit (signal_sent c.outgoing.id name) c)
    else done c

pub data ExitWith : Type 0 where
  status : ℕ → ExitWith
  by_signal : String → ExitWith

abbrev pub exit_event : ℕ → ExitWith → Event
exit_event id (status n) = exit_status id n
exit_event id (by_signal s) = exit_signal id s

unfoldable pub exit : Channel → ExitWith → Outcome
exit c how =
    if not c.server
    then throws server_only
    else if is_session c
    then done (emit (exit_event c.outgoing.id how) c)
    else done c
