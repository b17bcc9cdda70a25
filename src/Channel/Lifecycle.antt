-- ===== src/Channel/Lifecycle.antt =====
-- What a channel sends follows the protocol, whatever is called.
use ssh.Common.{ℕ, ◌≡◌, refl, arith, Bool, false, some, ◌<◌, List, [], ◌∷◌, ◌++◌, Bytes, length}
use Prim.Native.String.{String}
use ssh.Common.Int.{pos, pos_part, ◌-ℤ◌}
use ssh.Channel.Model.{
  State, Event, replied, Channel, emit, channel_window_adjust, pushed, pushed_stderr, window_change,
  signal_sent, max_window,
}
use ssh.Channel.Control.{
  on_eof, on_reply, window_adjust, read, on_data, on_ext_data, set_window, signal, ExitWith, status,
  by_signal, exit_event, exit,
}
use ssh.Channel.Phase.{
  Conforms, ConformsIf, close-Conforms, extend, next, next-other, on_close-Conforms,
  on_finish-Conforms, on_window_adjust-Conforms, send_eof-Conforms, sent_phase, write-Conforms,
  write_stderr-Conforms,
}
use ssh.Channel.Operations.{
  left_by, Op, write_op, write_stderr_op, adjusted, eof_op, close_op, finished_op, peer_eof,
  read_op, peer_close, reply, data_op, ext_data_op, set_window_op, signal_op, exit_op, apply,
  apply_all,
}
use ssh.Channel.Returning.{apply-Returns}

-- The requests and answers of a session, and what is pushed to a stream, are free in every phase.
abbrev IsFree : Event → Type 0
IsFree e = (s : State) → next s e ≡ some s

free-Conforms : (c : Channel) (e : Event) → IsFree e → Conforms c → Conforms (emit e c)
free-Conforms c e f h =
    extend c (e ∷ []) (sent_phase c.outgoing.state) h (rw (f (sent_phase c.outgoing.state)) refl)

pushed_stderr-IsFree : (b : Bytes) → IsFree (pushed_stderr b)
pushed_stderr-IsFree b State.open_ = refl
pushed_stderr-IsFree b State.eof = refl
pushed_stderr-IsFree b State.closing = refl
pushed_stderr-IsFree b State.closed = refl

window_change-IsFree :
    (id rows cols height width : ℕ) → IsFree (window_change id rows cols height width)
window_change-IsFree id rows cols height width State.open_ = refl
window_change-IsFree id rows cols height width State.eof = refl
window_change-IsFree id rows cols height width State.closing = refl
window_change-IsFree id rows cols height width State.closed = refl

signal_sent-IsFree : (id : ℕ) (name : String) → IsFree (signal_sent id name)
signal_sent-IsFree id name State.open_ = refl
signal_sent-IsFree id name State.eof = refl
signal_sent-IsFree id name State.closing = refl
signal_sent-IsFree id name State.closed = refl

exit_event-IsFree : (id : ℕ) (how : ExitWith) → IsFree (exit_event id how)
exit_event-IsFree id (status n) State.open_ = refl
exit_event-IsFree id (status n) State.eof = refl
exit_event-IsFree id (status n) State.closing = refl
exit_event-IsFree id (status n) State.closed = refl
exit_event-IsFree id (by_signal n) State.open_ = refl
exit_event-IsFree id (by_signal n) State.eof = refl
exit_event-IsFree id (by_signal n) State.closing = refl
exit_event-IsFree id (by_signal n) State.closed = refl

next-neutral :
    (s : State) (id n : ℕ) (b : Bytes)
    → (next s (channel_window_adjust id n) ≡ some s) × (next s (pushed b) ≡ some s)
next-neutral State.open_ id n b = (refl, refl)
next-neutral State.eof id n b = (refl, refl)
next-neutral State.closing id n b = (refl, refl)
next-neutral State.closed id n b = (refl, refl)

window_adjust-Conforms : (c : Channel) → Conforms c → Conforms (window_adjust c)
unfolding window_adjust
window_adjust-Conforms c h =
    let amt = pos_part (pos max_window -ℤ c.incoming.window) in
    let s = sent_phase c.outgoing.state in
    ground (
      arith,
      extend c (channel_window_adjust c.outgoing.id amt ∷ []) s h
          (rw (next-neutral s c.outgoing.id amt []).0),
    )

read-Conforms : (c : Channel) → Conforms c → Conforms (read c)
unfolding read
read-Conforms c h = ground (arith, window_adjust-Conforms (record c { wait_chan_drain = false }) h)

on_data-Conforms :
    (c : Channel) (b : Bytes) (taken : Bool) → Conforms c → Conforms (on_data c b taken)
unfolding on_data
on_data-Conforms c b taken h =
    let s = sent_phase c.outgoing.state in
    let c' = record c {
      incoming = record { window = c.incoming.window -ℤ pos (length b); state = c.incoming.state };
      log = c.log ++ pushed b ∷ [];
    } in
    let taken_in : Conforms c' = extend c (pushed b ∷ []) s h (rw (next-neutral s 0 0 b).1) in
    ground (arith, taken_in, window_adjust-Conforms c' taken_in)

on_ext_data-Conforms :
    (c : Channel) (b : Bytes) (kind : ℕ) (taken : Bool)
    → Conforms c
    → Conforms (on_ext_data c b kind taken)
unfolding on_ext_data
on_ext_data-Conforms c b kind taken h =
    let c₀ = record c {
      incoming = record { window = c.incoming.window -ℤ pos (length b); state = c.incoming.state };
    } in
    let c' = emit (pushed_stderr b) c₀ in
    let taken_in : Conforms c' = free-Conforms c₀ (pushed_stderr b) (pushed_stderr-IsFree b) h in
    ground (arith, taken_in, window_adjust-Conforms c' taken_in)

set_window-Conforms :
    (c : Channel) (rows cols height width : ℕ)
    → Conforms c
    → Conforms (left_by c (set_window c rows cols height width))
unfolding set_window
set_window-Conforms c rows cols height width h = ground (
  arith,
  free-Conforms c (window_change c.outgoing.id rows cols height width)
      (window_change-IsFree c.outgoing.id rows cols height width) h,
)

signal-Conforms : (c : Channel) (name : String) → Conforms c → Conforms (left_by c (signal c name))
unfolding signal
signal-Conforms c name h = ground (
  arith,
  free-Conforms c (signal_sent c.outgoing.id name) (signal_sent-IsFree c.outgoing.id name) h,
)

exit-Conforms : (c : Channel) (how : ExitWith) → Conforms c → Conforms (left_by c (exit c how))
unfolding exit
exit-Conforms c how h =
    ground (
      arith,
      free-Conforms c (exit_event c.outgoing.id how) (exit_event-IsFree c.outgoing.id how) h,
    )

on_reply-Conforms : (c : Channel) (failed : Bool) → Conforms c → Conforms (on_reply c failed)
unfolding on_reply
on_reply-Conforms c failed h = on_reply_lem (c.callbacks) refl
  where
    on_reply_lem : (cbs : List ℕ) → c.callbacks ≡ cbs → Conforms (on_reply c failed)
    on_reply_lem [] e = rw (e, on_reply) h
    on_reply_lem (cb ∷ rest) e =
        rw (e, on_reply)
          (extend c (replied cb failed ∷ []) (sent_phase c.outgoing.state) h
            (rw (next-other (sent_phase c.outgoing.state) cb failed).1))

on_eof-Conforms : (c : Channel) → Conforms c → Conforms (on_eof c)
unfolding on_eof
on_eof-Conforms c h = ground arith

apply-Conforms : (o : Op) (c : Channel) → Conforms c → ConformsIf (apply o c)
unfolding apply
apply-Conforms (write_op b cb) c h = write-Conforms c b cb h
apply-Conforms (write_stderr_op b cb) c h = write_stderr-Conforms c b cb h
apply-Conforms (adjusted n) c h = on_window_adjust-Conforms c n h
apply-Conforms eof_op c h = send_eof-Conforms c h
apply-Conforms close_op c h = close-Conforms c h
apply-Conforms finished_op c h = on_finish-Conforms c h
apply-Conforms peer_eof c h = on_eof-Conforms c h
apply-Conforms read_op c h = read-Conforms c h
apply-Conforms (peer_close dead) c h = on_close-Conforms c dead h
apply-Conforms (reply failed) c h = on_reply-Conforms c failed h
apply-Conforms (data_op b taken) c h = on_data-Conforms c b taken h
apply-Conforms (ext_data_op b kind taken) c h = on_ext_data-Conforms c b kind taken h
apply-Conforms (set_window_op rows cols height width) c h =
    set_window-Conforms c rows cols height width h
apply-Conforms (signal_op name) c h = signal-Conforms c name h
apply-Conforms (exit_op how) c h = exit-Conforms c how h

-- With a peer that takes packets of at least a byte every operation returns (or throws, and leaves the channel
-- as it is), and whatever is called in whatever order, the messages that a channel sends follow the protocol: data only while it is open, one
-- end of file at most and only before the close, one close at most, and no data after either; the
-- outgoing state tells where in this order the channel stands.
pub apply_all-Conforms :
    (os : List Op) (c : Channel)
    → 0 < c.outgoing.packet_size
    → Conforms c
    → (c' : Channel) × (apply_all os c ≡ some c') × Conforms c'
unfolding apply_all
apply_all-Conforms [] c hp h = (c, refl, h)
apply_all-Conforms (o ∷ os) c hp h =
    let (c₁, e, same) = apply-Returns o c hp in
    let (c₂, e', h') = apply_all-Conforms os c₁ (rw same hp) (rw e at (apply-Conforms o c h)) in
    (c₂, rw e e', h')
