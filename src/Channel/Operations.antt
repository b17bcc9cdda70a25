-- ===== src/Channel/Operations.antt =====
-- The operations of a channel, of lib/Channel.js and of the handlers of lib/client.js and lib/server.js, together.
use ssh.Common.{ℕ, Bool, Option, some, List, [], ◌∷◌, ◌>>=◌, Bytes}
use Prim.Native.String.{String}
use ssh.Channel.Model.{Channel}
use ssh.Channel.Writing.{write, write_stderr, on_window_adjust}
use ssh.Channel.Control.{
  send_eof, close, on_finish, on_eof, on_reply, on_close, read, on_data, on_ext_data, Outcome, done,
  throws, set_window, signal, ExitWith, exit,
}

-- What an operation that may throw leaves of the channel.
abbrev pub left_by : Channel → Outcome → Channel
left_by c (done c') = c'
left_by c (throws t) = c

-- The operations of a channel: what its user calls and what the peer's messages do to it.
pub data Op : Type 0 where
  write_op write_stderr_op : Bytes → Option ℕ → Op
  adjusted : ℕ → Op
  eof_op close_op finished_op peer_eof read_op : Op
  peer_close : Bool → Op
  reply : Bool → Op
  data_op : Bytes → Bool → Op
  ext_data_op : Bytes → ℕ → Bool → Op
  set_window_op : ℕ → ℕ → ℕ → ℕ → Op
  signal_op : String → Op
  exit_op : ExitWith → Op

unfoldable pub apply : Op → Channel → Option Channel
apply (write_op b cb) c = write c b cb
apply (write_stderr_op b cb) c = write_stderr c b cb
apply (adjusted n) c = on_window_adjust c n
apply eof_op c = some (send_eof c)
apply close_op c = some (close c)
apply finished_op c = some (on_finish c)
apply peer_eof c = some (on_eof c)
apply read_op c = some (read c)
apply (peer_close dead) c = some (on_close c dead).0
apply (reply failed) c = some (on_reply c failed)
apply (data_op b taken) c = some (on_data c b taken)
apply (ext_data_op b kind taken) c = some (on_ext_data c b kind taken)
apply (set_window_op rows cols height width) c =
    some (left_by c (set_window c rows cols height width))
apply (signal_op name) c = some (left_by c (signal c name))
apply (exit_op how) c = some (left_by c (exit c how))

unfoldable pub apply_all : List Op → Channel → Option Channel
apply_all [] c = some c
apply_all (o ∷ os) c = apply o c >>= apply_all os
