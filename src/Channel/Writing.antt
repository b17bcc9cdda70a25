-- ===== src/Channel/Writing.antt =====
-- Data going out: `_write` of both streams of lib/Channel.js, and CHANNEL_WINDOW_ADJUST.
use ssh.Common.{
  ℕ, zero, suc, ◌+◌, ◌-◌, true, false, not, ◌&&◌, Option, none, some, List, [], ◌∷◌, map, length,
  take, drop, ltb, ◌==◌, if◌then◌else◌, Bytes,
}
use mathlib.Core.Option
use ssh.Channel.Model.{is_open, Channel, emit, emit_all, channel_data, channel_ext_data, called}

-- What the loop of `_write` sends, the window left, and the bytes left.
pub record Sending : Type 0 where
  pub slices : List Bytes
  pub window : ℕ
  pub left : Bytes

abbrev pub prepend : Bytes → Sending → Sending
prepend s r = record r { slices = s ∷ r.slices }

-- `sliceLen`: what is left, cut to the window and to the peer's packet size.
unfoldable pub slice_len : ℕ → ℕ → ℕ → ℕ
slice_len left window packet_size =
    let a = if ltb window left then window else left in if ltb packet_size a then packet_size else a

-- `while (len - p > 0 && window > 0)`; `none` means that the fuel ran out.
unfoldable pub send_slices : ℕ → ℕ → ℕ → Bytes → Option Sending
unfolding slice_len
send_slices zero packet_size window left = none
send_slices (suc fuel) packet_size window left =
    let n = slice_len (length left) window packet_size in
    let rest = send_slices fuel packet_size (window - n) (drop n left) in
    if ltb 0 (length left) && ltb 0 window
    then Option.map (prepend (take n left)) rest
    else some (record { slices = []; window = window; left = left })

-- Rounds for `data`, one more than its bytes.
abbrev pub rounds : Bytes → ℕ
rounds data' = suc (length data')

unfoldable pub call_option : Option ℕ → Channel → Channel
call_option none c = c
call_option (some cb) c = emit (called cb) c

abbrev pub set_out_window : ℕ → Channel → Channel
set_out_window w c = record c {
  outgoing = record {
    id = c.outgoing.id;
    window = w;
    packet_size = c.outgoing.packet_size;
    state = c.outgoing.state;
  };
}

-- What follows the loop in `Channel._write`.
unfoldable pub after_write : Option ℕ → Sending → Channel → Channel
unfolding call_option
after_write cb r c =
    let sent = emit_all (map (channel_data c.outgoing.id) r.slices) (set_out_window r.window c) in
    if ltb 0 (length r.left)
    then record sent {
      wait_window = if r.window == 0 then true else c.wait_window;
      chunk = some r.left;
      chunkcb = cb;
    }
    else call_option cb sent

unfoldable pub write : Channel → Bytes → Option ℕ → Option Channel
write c data' cb =
    let out = c.outgoing in
    if not (is_open out.state)
    then some c
    else Option.map (λ r. after_write cb r c)
        (send_slices (rounds data') out.packet_size out.window data')

-- What follows the loop in `ServerStderr._write`.
unfoldable pub after_write_stderr : Option ℕ → Sending → Channel → Channel
unfolding call_option
after_write_stderr cb r c =
    let sent =
      emit_all (map (channel_ext_data c.outgoing.id) r.slices) (set_out_window r.window c) in
    if ltb 0 (length r.left)
    then record sent {
      wait_window = if r.window == 0 then true else c.wait_window;
      chunk_err = some r.left;
      chunkcb_err = cb;
    }
    else call_option cb sent

unfoldable pub write_stderr : Channel → Bytes → Option ℕ → Option Channel
write_stderr c data' cb =
    let out = c.outgoing in
    if not (is_open out.state)
    then some c
    else Option.map (λ r. after_write_stderr cb r c)
        (send_slices (rounds data') out.packet_size out.window data')

-- The `if`/`else if` ladder of CHANNEL_WINDOW_ADJUST; an empty buffer is an object, hence true.
unfoldable pub resume : Channel → Option Channel
unfolding call_option
resume c = elim (c.chunk) [
  | some b ↦ write c b c.chunkcb
  | none ↦ elim (c.chunkcb) [
    | some cb ↦ some (emit (called cb) c)
    | none ↦ elim (c.chunk_err) [
      | some b ↦ write_stderr c b c.chunkcb_err
      | none ↦ some (call_option c.chunkcb_err c)
    ]
  ]
]

unfoldable pub on_window_adjust : Channel → ℕ → Option Channel
unfolding resume
on_window_adjust c amount =
    let c' = set_out_window (c.outgoing.window + amount) c in
    if c.wait_window then resume (record c' { wait_window = false }) else some c'
