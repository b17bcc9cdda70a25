-- ===== src/Message/RoundTrip/Channel.antt =====
-- Each message of an open channel, written and read back.
use ssh.Common.{ℕ, ◌≡◌, arith, none, some, [], ◌∷◌, ◌++◌, length, Bytes, IsU32}
use ssh.Wire.{u32}
use ssh.Wire.Encode.{str, read_u32-u32, read_string-str}
use ssh.Message.Inbound.{rest_if_any-end}
use ssh.Message.Outbound
use ssh.Message.Outbound.{flag, flag_lem}
use ssh.Message.Inbound
use ssh.Message.Inbound.{Inbound}

pub channel_success_round :
    (chan : ℕ)
    → IsU32 chan
    → Inbound.on_channel_success (Outbound.channel_success chan).payload
      ≡ Inbound.channel_success chan
unfolding Inbound.on_channel_success Outbound.channel_success
channel_success_round chan h_chan = simp (read_u32-u32 (99 ∷ []) _ chan h_chan)

pub channel_failure_round :
    (chan : ℕ)
    → IsU32 chan
    → Inbound.on_channel_failure (Outbound.channel_failure chan).payload
      ≡ Inbound.channel_failure chan
unfolding Inbound.on_channel_failure Outbound.channel_failure
channel_failure_round chan h_chan = simp (read_u32-u32 (100 ∷ []) _ chan h_chan)

pub channel_eof_round :
    (chan : ℕ)
    → IsU32 chan
    → Inbound.on_channel_eof (Outbound.channel_eof chan).payload ≡ Inbound.channel_eof chan
unfolding Inbound.on_channel_eof Outbound.channel_eof
channel_eof_round chan h_chan = simp (read_u32-u32 (96 ∷ []) _ chan h_chan)

pub channel_close_round :
    (chan : ℕ)
    → IsU32 chan
    → Inbound.on_channel_close (Outbound.channel_close chan).payload ≡ Inbound.channel_close chan
unfolding Inbound.on_channel_close Outbound.channel_close
channel_close_round chan h_chan = simp (read_u32-u32 (97 ∷ []) _ chan h_chan)

pub window_adjust_round :
    (chan : ℕ) (amount : ℕ)
    → IsU32 chan
    → IsU32 amount
    → Inbound.on_window_adjust (Outbound.channel_window_adjust chan amount).payload
      ≡ Inbound.window_adjust (some chan) amount
unfolding Inbound.on_window_adjust Outbound.channel_window_adjust
window_adjust_round chan amount h_chan h_amount =
    simp
      (read_u32-u32 (93 ∷ []) _ chan h_chan, read_u32-u32 ((93 ∷ []) ++ u32 chan) _ amount h_amount)

pub channel_data_round :
    (chan : ℕ) (b : Bytes)
    → IsU32 chan
    → IsU32 (length b)
    → Inbound.on_channel_data (Outbound.channel_data chan b).payload
      ≡ Inbound.channel_data (some chan) b
unfolding Inbound.on_channel_data Outbound.channel_data
channel_data_round chan b h_chan h_b =
    simp (read_u32-u32 (94 ∷ []) _ chan h_chan, read_string-str ((94 ∷ []) ++ u32 chan) _ b h_b)

pub channel_ext_data_round :
    (chan : ℕ) (b : Bytes) (kind : ℕ)
    → IsU32 chan
    → IsU32 (length b)
    → IsU32 kind
    → Inbound.on_channel_ext_data (Outbound.channel_ext_data chan b kind).payload
      ≡ Inbound.channel_ext_data (some chan) b (some kind)
unfolding Inbound.on_channel_ext_data Outbound.channel_ext_data
channel_ext_data_round chan b kind h_chan h_b h_kind = simp (
  read_u32-u32 (95 ∷ []) _ chan h_chan,
  read_u32-u32 ((95 ∷ []) ++ u32 chan) _ kind h_kind,
  read_string-str (((95 ∷ []) ++ u32 chan) ++ u32 kind) _ b h_b,
)

pub open_confirmation_round :
    (remote : ℕ) (local : ℕ) (window : ℕ) (size : ℕ)
    → IsU32 remote
    → IsU32 local
    → IsU32 window
    → IsU32 size
    → Inbound.on_open_confirmation (Outbound.channel_open_confirm remote local window size).payload
      ≡ Inbound.open_confirmation (some remote) (some local) (some window) size none
unfolding Inbound.on_open_confirmation Outbound.channel_open_confirm
open_confirmation_round remote local window size h_remote h_local h_window h_size = simp (
  read_u32-u32 (91 ∷ []) _ remote h_remote,
  read_u32-u32 ((91 ∷ []) ++ u32 remote) _ local h_local,
  read_u32-u32 (((91 ∷ []) ++ u32 remote) ++ u32 local) _ window h_window,
  read_u32-u32 ((((91 ∷ []) ++ u32 remote) ++ u32 local) ++ u32 window) _ size h_size,
  rest_if_any-end ((((((91 ∷ []) ++ u32 remote) ++ u32 local) ++ u32 window) ++ u32 size)),
)

pub open_failure_round :
    (remote : ℕ) (reason : ℕ) (desc : Bytes)
    → IsU32 remote
    → IsU32 reason
    → IsU32 (length desc)
    → Inbound.on_open_failure (Outbound.channel_open_fail remote reason desc).payload
      ≡ Inbound.open_failure (some remote) (some reason) (some desc)
unfolding Inbound.on_open_failure Outbound.channel_open_fail
open_failure_round remote reason desc h_remote h_reason h_desc = simp (
  read_u32-u32 (92 ∷ []) _ remote h_remote,
  read_u32-u32 ((92 ∷ []) ++ u32 remote) _ reason h_reason,
  read_string-str (((92 ∷ []) ++ u32 remote) ++ u32 reason) _ desc h_desc,
  read_string-str ((((92 ∷ []) ++ u32 remote) ++ u32 reason) ++ str desc) _ [] (omega arith),
)

reason_sent-IsU32 : (code : ℕ) → IsU32 (Outbound.reason_sent code)
reason_sent-IsU32 code = ground arith

pub disconnect_round :
    (code : ℕ)
    → Inbound.on_disconnect (Outbound.disconnect code).payload
      ≡ Inbound.disconnect (some (Outbound.reason_sent code)) (some [])
unfolding Inbound.on_disconnect Outbound.disconnect
disconnect_round code =
    let sent = Outbound.reason_sent code in
    simp (
      read_u32-u32 (1 ∷ []) _ sent (reason_sent-IsU32 code),
      read_string-str ((1 ∷ []) ++ u32 sent) _ [] (omega arith),
      read_string-str (((1 ∷ []) ++ u32 sent) ++ str []) _ [] (omega arith),
    )
