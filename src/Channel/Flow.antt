-- ===== src/Channel/Flow.antt =====
-- The incoming window: what the peer may still send, as `CHANNEL_DATA`, `CHANNEL_EXTENDED_DATA`, `_read`
-- and `windowAdjust` keep it.
use ssh.Common.{ℕ, ◌+◌, ◌≡◌, arith, Bool, true, false, List, [], ◌∷◌, ◌++◌, ◌⊎◌, length, Bytes}
use ssh.Common.Int.{pos, pos_part, neg_part, ◌≤ℤ◌, ◌-ℤ◌}
use ssh.Channel.Model.{
  State, Event, channel_window_adjust, pushed, pushed_stderr, Channel, max_window, window_threshold,
}
use ssh.Channel.Control.{window_adjust, read, on_data, on_ext_data}

-- The bytes that an event takes in, and the credit that it gives to the peer.
abbrev pub taken_by : Event → ℕ
taken_by (pushed b) = length b
taken_by (pushed_stderr b) = length b
taken_by _ = 0

abbrev pub credit_of : Event → ℕ
credit_of (channel_window_adjust id n) = n
credit_of _ = 0

abbrev pub received : List Event → ℕ
received [] = 0
received (e ∷ es) = taken_by e + received es

abbrev pub granted : List Event → ℕ
granted [] = 0
granted (e ∷ es) = credit_of e + granted es

received-concat : (es : List Event) (e : Event) → received (es ++ e ∷ []) ≡ received es + taken_by e
received-concat [] e = omega arith
received-concat (x ∷ es) e = omega (arith, received-concat es e)

granted-concat : (es : List Event) (e : Event) → granted (es ++ e ∷ []) ≡ granted es + credit_of e
granted-concat [] e = omega arith
granted-concat (x ∷ es) e = omega (arith, granted-concat es e)

-- The window stands for all credit not yet used, never exceeds its maximum, and whenever it is down
-- to the threshold a pending read or a closed channel is the reason.
pub record IsFlowing (c : Channel) : Type 0 where
  pub credited :
      pos_part c.incoming.window + received c.log
      ≡ max_window + granted c.log + neg_part c.incoming.window
  pub bounded : c.incoming.window ≤ℤ pos max_window
  pub awake :
      (pos (window_threshold + 1) ≤ℤ c.incoming.window)
      ⊎ ((c.wait_chan_drain ≡ true) ⊎ (c.outgoing.state ≡ State.closed))

-- The two books of `IsFlowing` that a single event settles.
abbrev Credited : Channel → Type 0
Credited c =
    pos_part c.incoming.window + received c.log
    ≡ max_window + granted c.log + neg_part c.incoming.window

window_adjust-IsFlowing :
    (c : Channel) → Credited c → c.incoming.window ≤ℤ pos max_window → IsFlowing (window_adjust c)
unfolding window_adjust
window_adjust-IsFlowing c h b =
    let amt = pos_part (pos max_window -ℤ c.incoming.window) in
    ground (
      arith,
      received-concat c.log (channel_window_adjust c.outgoing.id amt),
      granted-concat c.log (channel_window_adjust c.outgoing.id amt),
    )

pub read-IsFlowing : (c : Channel) → IsFlowing c → IsFlowing (read c)
unfolding read
read-IsFlowing c h = ground (arith, window_adjust-IsFlowing (record c { wait_chan_drain = false }))

-- The channel with `data` taken in, before the window is looked at.
abbrev with_data : Channel → Event → ℕ → Channel
with_data c e n = record c {
  incoming = record { window = c.incoming.window -ℤ pos n; state = c.incoming.state };
  log = c.log ++ e ∷ [];
}

on_data-IsFlowing :
    (c : Channel) (b : Bytes) (taken : Bool) → IsFlowing c → IsFlowing (on_data c b taken)
unfolding on_data
on_data-IsFlowing c b taken h = ground (
  arith,
  received-concat c.log (pushed b),
  granted-concat c.log (pushed b),
  window_adjust-IsFlowing (with_data c (pushed b) (length b)),
)

on_ext_data-IsFlowing :
    (c : Channel) (b : Bytes) (kind : ℕ) (taken : Bool)
    → IsFlowing c
    → IsFlowing (on_ext_data c b kind taken)
unfolding on_ext_data
on_ext_data-IsFlowing c b kind taken h = ground (
  arith,
  received-concat c.log (pushed_stderr b),
  granted-concat c.log (pushed_stderr b),
  window_adjust-IsFlowing (with_data c (pushed_stderr b) (length b)),
)

-- What moves the incoming window: data with the answer of the stream's `push`, and a read.
pub data Input : Type 0 where
  data_in : Bytes → Bool → Input
  ext_data_in : Bytes → ℕ → Bool → Input
  read_in : Input

abbrev pub on_input : Input → Channel → Channel
on_input (data_in b taken) c = on_data c b taken
on_input (ext_data_in b kind taken) c = on_ext_data c b kind taken
on_input read_in c = read c

abbrev pub on_inputs : List Input → Channel → Channel
on_inputs [] c = c
on_inputs (i ∷ is) c = on_inputs is (on_input i c)

on_input-IsFlowing : (i : Input) (c : Channel) → IsFlowing c → IsFlowing (on_input i c)
on_input-IsFlowing (data_in b taken) c h = on_data-IsFlowing c b taken h
on_input-IsFlowing (ext_data_in b kind taken) c h = on_ext_data-IsFlowing c b kind taken h
on_input-IsFlowing read_in c h = read-IsFlowing c h

-- Whatever data arrives and whenever the streams are read, the books balance: the window is the
-- maximum, plus the credit given, less the bytes taken in; it never exceeds the maximum; and once it is
-- down to the threshold, either a read is awaited that will top it up, or the channel is closed.
pub on_inputs-IsFlowing : (is : List Input) (c : Channel) → IsFlowing c → IsFlowing (on_inputs is c)
on_inputs-IsFlowing [] c h = h
on_inputs-IsFlowing (i ∷ is) c h = on_inputs-IsFlowing is (on_input i c) (on_input-IsFlowing i c h)
