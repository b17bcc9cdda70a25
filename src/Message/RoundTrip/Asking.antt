-- ===== src/Message/RoundTrip/Asking.antt =====
-- Channel requests, written and read back.
use ssh.Common.{
  ℕ, ◌≡◌, arith, Bool, true, false, some, [], ◌∷◌, ◌++◌, length, codes, same, Bytes, IsU32,
}
use mathlib.Core.Option
use ssh.Wire.{u32}
use ssh.Wire.Encode.{str, read_u32-u32, read_string-str, read_bool-cons}
use ssh.Message.Outbound
use ssh.Message.Outbound.{flag, flag_lem}
use ssh.Message.Inbound
use ssh.Message.Inbound.{Inbound}
use ssh.Message.Request

pub window_change_round :
    (old_exit : Bool) (chan : ℕ) (rows : ℕ) (cols : ℕ) (height : ℕ) (width : ℕ)
    → IsU32 chan
    → IsU32 rows
    → IsU32 cols
    → IsU32 height
    → IsU32 width
    → Option.map
        (λ p. Request.on_channel_request old_exit p.payload)
        (Outbound.window_change false chan rows cols height width)
      ≡ some (
          Inbound.channel_request
            (some chan)
            (some (codes "window-change"))
            false
            (Inbound.size (some cols) (some rows) (some width) height))
unfolding Request.on_channel_request Outbound.window_change same
window_change_round old_exit chan rows cols height width h_chan h_rows h_cols h_height h_width =
    simp (
      read_u32-u32 (98 ∷ []) _ chan h_chan,
      read_string-str ((98 ∷ []) ++ u32 chan) _ (codes "window-change") (omega arith),
      read_bool-cons (((98 ∷ []) ++ u32 chan) ++ str (codes "window-change")) _ 0,
      read_u32-u32 ((((98 ∷ []) ++ u32 chan) ++ str (codes "window-change")) ++ 0 ∷ []) _ cols
          h_cols,
      read_u32-u32
          (((((98 ∷ []) ++ u32 chan) ++ str (codes "window-change")) ++ 0 ∷ []) ++ u32 cols) _ rows
          h_rows,
      read_u32-u32
          ((((((98 ∷ []) ++ u32 chan) ++ str (codes "window-change")) ++ 0 ∷ []) ++ u32 cols)
            ++ u32 rows)
          _ width h_width,
      read_u32-u32
          (((((((98 ∷ []) ++ u32 chan) ++ str (codes "window-change")) ++ 0 ∷ []) ++ u32 cols)
              ++ u32 rows)
            ++ u32 width)
          _ height h_height,
    )

pub shell_round :
    (old_exit : Bool) (chan : ℕ) (want : Bool)
    → IsU32 chan
    → Option.map
        (λ p. Request.on_channel_request old_exit p.payload)
        (Outbound.shell false chan want)
      ≡ some (Inbound.channel_request (some chan) (some (codes "shell")) want Inbound.nothing)
unfolding Request.on_channel_request Outbound.shell same
shell_round old_exit chan want h_chan = simp (
  read_u32-u32 (98 ∷ []) _ chan h_chan,
  read_string-str ((98 ∷ []) ++ u32 chan) _ (codes "shell") (omega arith),
  read_bool-cons (((98 ∷ []) ++ u32 chan) ++ str (codes "shell")) _ (flag want),
  flag_lem want,
)

pub exec_round :
    (old_exit : Bool) (chan : ℕ) (cmd : Bytes) (want : Bool)
    → IsU32 chan
    → IsU32 (length cmd)
    → Option.map
        (λ p. Request.on_channel_request old_exit p.payload)
        (Outbound.exec false chan cmd want)
      ≡ some (Inbound.channel_request (some chan) (some (codes "exec")) want (Inbound.text cmd))
unfolding Request.on_channel_request Outbound.exec same
exec_round old_exit chan cmd want h_chan h_cmd = simp (
  read_u32-u32 (98 ∷ []) _ chan h_chan,
  read_string-str ((98 ∷ []) ++ u32 chan) _ (codes "exec") (omega arith),
  read_bool-cons (((98 ∷ []) ++ u32 chan) ++ str (codes "exec")) _ (flag want),
  read_string-str ((((98 ∷ []) ++ u32 chan) ++ str (codes "exec")) ++ flag want ∷ []) _ cmd h_cmd,
  flag_lem want,
)

pub exit_status_round :
    (old_exit : Bool) (chan : ℕ) (status : ℕ)
    → IsU32 chan
    → IsU32 status
    → Option.map
        (λ p. Request.on_channel_request old_exit p.payload)
        (Outbound.exit_status true chan status)
      ≡ some (
          Inbound.channel_request
            (some chan)
            (some (codes "exit-status"))
            false
            (Inbound.number status))
unfolding Request.on_channel_request Outbound.exit_status same
exit_status_round old_exit chan status h_chan h_status = simp (
  read_u32-u32 (98 ∷ []) _ chan h_chan,
  read_string-str ((98 ∷ []) ++ u32 chan) _ (codes "exit-status") (omega arith),
  read_bool-cons (((98 ∷ []) ++ u32 chan) ++ str (codes "exit-status")) _ 0,
  read_u32-u32 ((((98 ∷ []) ++ u32 chan) ++ str (codes "exit-status")) ++ 0 ∷ []) _ status h_status,
)
