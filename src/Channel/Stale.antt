-- ===== src/Channel/Stale.antt =====
-- The chunk that `_write` leaves set, and what becomes of a later write to stderr (server side).
use ssh.Common.{ℕ, ◌<◌, ◌≡◌, true, false, Option, some, [], ◌++◌, Bytes}
use ssh.Channel.Model.{State, Channel}
use ssh.Channel.Writing.{set_out_window}

-- The state in which a chunk that was held back and then sent leaves the channel: `_chunk` is still set.
pub record IsStale (stale : Bytes) (c : Channel) : Type 0 where
  pub is_op : c.outgoing.state ≡ State.open_
  pub positive : 0 < c.outgoing.packet_size
  pub idle : c.wait_window ≡ false
  pub shut : c.outgoing.window ≡ 0
  pub still_set : c.chunk ≡ some stale

-- The channel once the window has held back all of `e`, written to stderr.
abbrev blocked : Channel → Bytes → Option ℕ → Channel
blocked c e cb = record (set_out_window 0 c) {
  log = c.log ++ [];
  wait_window = true;
  chunk_err = some e;
  chunkcb_err = cb;
}
