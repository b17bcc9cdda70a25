-- ===== src/Channel/Returning.antt =====
-- Every operation of a channel returns where the peer takes packets of at least a byte.
use ssh.Common.{
  ℕ, ◌+◌, ◌≡◌, refl, arith, false, Option, none, some, suc, ◌<◌, inl, inr, Bool-cases, Bytes,
  length,
}
use ssh.Channel.Model.{called, Channel, emit}
use ssh.Channel.Writing.{
  Sending, set_out_window, call_option, after_write, write, after_write_stderr, write_stderr,
  resume, on_window_adjust,
}
use ssh.Channel.Control.{
  send_eof, close, on_finish, on_eof, finish_close, on_reply, fail_callbacks, on_close,
  window_adjust, read, on_data, on_ext_data, set_window, signal, exit,
}
use ssh.Channel.Send.{send_slices_total}
use ssh.Channel.Phase.{State-cases}
use ssh.Channel.Operations.{
  left_by, Op, write_op, write_stderr_op, adjusted, eof_op, close_op, finished_op, peer_eof,
  read_op, peer_close, reply, data_op, ext_data_op, set_window_op, signal_op, exit_op, apply,
}

-- The operation returns, and leaves the peer's packet size.
abbrev Returns : Channel → Option Channel → Type 0
Returns c o = (c' : Channel) × (o ≡ some c') × (c'.outgoing.packet_size ≡ c.outgoing.packet_size)

size-after_write :
    (cb : Option ℕ) (r : Sending) (c : Channel)
    → (after_write cb r c).outgoing.packet_size ≡ c.outgoing.packet_size
unfolding after_write
size-after_write cb r c = ground arith

size-after_write_stderr :
    (cb : Option ℕ) (r : Sending) (c : Channel)
    → (after_write_stderr cb r c).outgoing.packet_size ≡ c.outgoing.packet_size
unfolding after_write_stderr
size-after_write_stderr cb r c = ground arith

write-Returns :
    (c : Channel) (b : Bytes) (cb : Option ℕ)
    → 0 < c.outgoing.packet_size
    → Returns c (write c b cb)
unfolding write
write-Returns c b cb hp =
    let (r, e, _) =
      send_slices_total (suc (length b)) c.outgoing.packet_size c.outgoing.window b hp
        (omega arith) in
    elim (State-cases c.outgoing.state) [
      | inl (_, is_op) ↦ (after_write cb r c, rw (is_op, e), size-after_write cb r c)
      | inr shut ↦ (c, rw shut, refl)
    ]

write_stderr-Returns :
    (c : Channel) (b : Bytes) (cb : Option ℕ)
    → 0 < c.outgoing.packet_size
    → Returns c (write_stderr c b cb)
unfolding write_stderr
write_stderr-Returns c b cb hp =
    let (r, e, _) =
      send_slices_total (suc (length b)) c.outgoing.packet_size c.outgoing.window b hp
        (omega arith) in
    elim (State-cases c.outgoing.state) [
      | inl (_, is_op) ↦ (after_write_stderr cb r c, rw (is_op, e), size-after_write_stderr cb r c)
      | inr shut ↦ (c, rw shut, refl)
    ]

size-call_option :
    (cb : Option ℕ) (c : Channel) → (call_option cb c).outgoing.packet_size ≡ c.outgoing.packet_size
unfolding call_option
size-call_option none c = refl
size-call_option (some cb) c = refl

resume-Returns : (c : Channel) → 0 < c.outgoing.packet_size → Returns c (resume c)
unfolding resume
resume-Returns c hp = go c.chunk c.chunkcb c.chunk_err refl refl refl
  where
    go :
        (k : Option Bytes) (m : Option ℕ) (e : Option Bytes)
        → c.chunk ≡ k
        → c.chunkcb ≡ m
        → c.chunk_err ≡ e
        → Returns c (resume c)
    go (some b) m e p q r = rw (p, resume) (write-Returns c b c.chunkcb hp)
    go none (some cb) e p q r = (emit (called cb) c, ground arith, refl)
    go none none (some b) p q r = rw (p, q, r, resume) (write_stderr-Returns c b c.chunkcb_err hp)
    go none none none p q r =
        (call_option c.chunkcb_err c, ground arith, size-call_option c.chunkcb_err c)

on_window_adjust-Returns :
    (c : Channel) (n : ℕ) → 0 < c.outgoing.packet_size → Returns c (on_window_adjust c n)
unfolding on_window_adjust
on_window_adjust-Returns c n hp = elim (Bool-cases c.wait_window) [
  | inl w ↦
      let c' = record (set_out_window (c.outgoing.window + n) c) { wait_window = false } in
      rw w (resume-Returns c' hp)
  | inr w ↦ (set_out_window (c.outgoing.window + n) c, rw w, refl)
]

-- What does not write leaves the packet size by computation.
pub apply-Returns : (o : Op) (c : Channel) → 0 < c.outgoing.packet_size → Returns c (apply o c)
unfolding apply send_eof close on_finish on_eof read window_adjust on_close finish_close
    fail_callbacks on_reply on_data on_ext_data set_window signal exit
apply-Returns (write_op b cb) c hp = write-Returns c b cb hp
apply-Returns (write_stderr_op b cb) c hp = write_stderr-Returns c b cb hp
apply-Returns (adjusted n) c hp = on_window_adjust-Returns c n hp
apply-Returns eof_op c hp = (send_eof c, refl, ground arith)
apply-Returns close_op c hp = (close c, refl, ground arith)
apply-Returns finished_op c hp = (on_finish c, refl, ground arith)
apply-Returns peer_eof c hp = (on_eof c, refl, ground arith)
apply-Returns read_op c hp = (read c, refl, ground arith)
apply-Returns (peer_close dead) c hp = ((on_close c dead).0, refl, ground arith)
apply-Returns (reply failed) c hp = (on_reply c failed, refl, ground arith)
apply-Returns (data_op b taken) c hp = (on_data c b taken, refl, ground arith)
apply-Returns (ext_data_op b kind taken) c hp = (on_ext_data c b kind taken, refl, ground arith)
apply-Returns (set_window_op rows cols height width) c hp =
    (left_by c (set_window c rows cols height width), refl, ground arith)
apply-Returns (signal_op name) c hp = (left_by c (signal c name), refl, ground arith)
apply-Returns (exit_op how) c hp = (left_by c (exit c how), refl, ground arith)
