-- ===== src/Channel/Tests.antt =====
-- Concrete runs of a channel, and the theorems at concrete inputs.
use ssh.Common.{ℕ, ◌≡◌, refl, arith, true, false, none, some, List, [], ◌∷◌, inl, ◌>>=◌}
use ssh.Common.Int.{pos}
use ssh.Channel.Model.{State, channel_data, called, Channel}
use ssh.Channel.Writing.{
  Sending, slice_len, send_slices, write, after_write, on_window_adjust, resume, call_option,
}
use ssh.Channel.Send.{IsSplit, send_slices_total, send_slices_stuck}
use ssh.Channel.Flow.{
  IsFlowing, on_inputs, Input, data_in, read_in, ext_data_in, on_inputs-IsFlowing,
}
use ssh.Channel.Written.{data_of, sent}
use ssh.Channel.Resume.{IsPending, on_window_adjusts, write_in_order, write_complete}
use ssh.Channel.Phase.{Conforms}
use ssh.Channel.Operations.{Op, write_op, adjusted, finished_op, peer_close, apply_all}
use ssh.Channel.Lifecycle.{apply_all-Conforms}

-- A server's channel to a peer that has opened `w` bytes of window and takes packets of 2 bytes.
abbrev channel : ℕ → Channel
channel w = record {
  server = true;
  type = "session";
  subtype = "";
  writable = true;
  allow_half_open = true;
  incoming = record { window = pos 2097152; state = State.open_ };
  outgoing = record { id = 7; window = w; packet_size = 2; state = State.open_ };
  wait_window = false;
  wait_chan_drain = false;
  chunk = none;
  chunkcb = none;
  chunk_err = none;
  chunkcb_err = none;
  callbacks = [];
  log = [];
}

-- Five bytes through a window of three: two slices, and two bytes held back.
write_five :
    write (channel 3) (1 ∷ 2 ∷ 3 ∷ 4 ∷ 5 ∷ []) (some 9)
    ≡ some (record (channel 0) {
      wait_window = true;
      chunk = some (4 ∷ 5 ∷ []);
      chunkcb = some 9;
      log = channel_data 7 (1 ∷ 2 ∷ []) ∷ channel_data 7 (3 ∷ []) ∷ [];
    })
unfolding write after_write send_slices slice_len
write_five = refl

send_slices_total_example :
    (r : Sending) × (send_slices 6 2 3 (1 ∷ 2 ∷ 3 ∷ 4 ∷ 5 ∷ []) ≡ some r)
    × IsSplit 2 3 (1 ∷ 2 ∷ 3 ∷ 4 ∷ 5 ∷ []) r
send_slices_total_example =
    send_slices_total 6 2 3 (1 ∷ 2 ∷ 3 ∷ 4 ∷ 5 ∷ []) (omega arith) (omega arith)

send_slices_stuck_example : send_slices 6 0 3 (1 ∷ 2 ∷ []) ≡ none
send_slices_stuck_example = send_slices_stuck 6 3 (1 ∷ 2 ∷ []) (omega arith) (omega arith)

fresh-IsFlowing : IsFlowing (channel 3)
fresh-IsFlowing = record { credited = refl; bounded = omega arith; awake = inl (omega arith) }

abbrev inputs : List Input
inputs = data_in (1 ∷ 2 ∷ []) false ∷ read_in ∷ ext_data_in (3 ∷ []) 1 true ∷ []

on_inputs-IsFlowing_example : IsFlowing (on_inputs inputs (channel 3))
on_inputs-IsFlowing_example = on_inputs-IsFlowing inputs (channel 3) fresh-IsFlowing

write_in_order_example :
    (c' : Channel) × ((write (channel 3) (1 ∷ 2 ∷ 3 ∷ 4 ∷ 5 ∷ []) (some 9)
        >>= on_window_adjusts (1 ∷ []))
      ≡ some c')
    × IsPending (1 ∷ 2 ∷ 3 ∷ 4 ∷ 5 ∷ []) 5 4 c'
write_in_order_example =
    write_in_order (channel 3) (1 ∷ 2 ∷ 3 ∷ 4 ∷ 5 ∷ []) (some 9) (1 ∷ []) refl (omega arith) refl

write_complete_example :
    (c' : Channel) × ((write (channel 3) (1 ∷ 2 ∷ 3 ∷ 4 ∷ 5 ∷ []) (some 9)
        >>= on_window_adjusts (1 ∷ 1 ∷ []))
      ≡ some c')
    × (sent data_of c'.log ≡ 1 ∷ 2 ∷ 3 ∷ 4 ∷ 5 ∷ [])
write_complete_example =
    write_complete (channel 3) (1 ∷ 2 ∷ 3 ∷ 4 ∷ 5 ∷ []) (some 9) (1 ∷ 1 ∷ []) refl (omega arith)
      refl (omega arith)

-- Two bytes held back by a shut window, and then sent: the chunk is still set.
abbrev stale : Channel
stale = record (channel 0) {
  chunk = some (1 ∷ 2 ∷ []);
  chunkcb = some 9;
  log = channel_data 7 (1 ∷ 2 ∷ []) ∷ called 9 ∷ [];
}

stale_is_reached :
    (write (channel 0) (1 ∷ 2 ∷ []) (some 9) >>= λ c. on_window_adjust c 2) ≡ some stale
unfolding write after_write send_slices slice_len on_window_adjust resume call_option
stale_is_reached = refl

abbrev ops : List Op
ops = write_op (1 ∷ 2 ∷ 3 ∷ 4 ∷ []) (some 9) ∷ adjusted 1 ∷ finished_op ∷ peer_close false ∷ []

apply_all-Conforms_example : (c' : Channel) × (apply_all ops (channel 3) ≡ some c') × Conforms c'
apply_all-Conforms_example = apply_all-Conforms ops (channel 3) (omega arith) refl
