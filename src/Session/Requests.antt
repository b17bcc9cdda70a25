-- ===== src/Session/Requests.antt =====
-- Requests of a session, written and read back.
use ssh.Common.{
  ℕ, ◌≡◌, arith, Bool, true, false, some, [], ◌∷◌, ◌++◌, length, codes, same, has, Bytes, IsU32,
}
use mathlib.Core.Option
use ssh.Wire.{u32}
use ssh.Wire.Text.{Utf8Write, IsPlain, text_field-plain}
use ssh.Wire.Encode.{str, read_u32-u32, read_string-str, read_bool-cons, skip_string-str}
use ssh.Message.Outbound.{flag, flag_lem}
use ssh.Message.Inbound
use ssh.Message.Request
use ssh.Message.Terminal.{Modes, read_modes}
use ssh.Session.Outbound
use ssh.Session.Outbound.{PtyModes, given_term, given_modes, bare_signal, signals}

pub pty_round :
    (u : Utf8Write) (old_exit : Bool) (chan : ℕ) (rows : ℕ) (cols : ℕ) (height : ℕ) (width : ℕ)
    (term : Bytes) (modes : PtyModes) (want : Bool) (ms : Modes)
    → IsU32 chan
    → IsU32 rows
    → IsU32 cols
    → IsU32 height
    → IsU32 width
    → IsU32 (length (given_term term))
    → IsU32 (length (given_modes modes))
    → IsPlain (given_term term)
    → read_modes (given_modes modes) ≡ some ms
    → Option.map
        (λ p. Request.on_channel_request old_exit p.payload)
        (Outbound.pty u false chan rows cols height width term modes want)
      ≡ some (
          Inbound.channel_request (some chan) (some (codes "pty-req")) want (
            Inbound.pty
              (some (given_term term))
              (some cols)
              (some rows)
              (some width)
              (some height)
              ms))
unfolding Request.on_channel_request Outbound.pty same
pty_round u old_exit chan rows cols height width term modes want ms h_chan h_rows h_cols h_height
      h_width h_term h_modes plain readable =
    simp (
      text_field-plain u (given_term term) plain,
      read_u32-u32 (98 ∷ []) _ chan h_chan,
      read_string-str ((98 ∷ []) ++ u32 chan) _ (codes "pty-req") (omega arith),
      read_bool-cons (((98 ∷ []) ++ u32 chan) ++ str (codes "pty-req")) _ (flag want),
      read_string-str ((((98 ∷ []) ++ u32 chan) ++ str (codes "pty-req")) ++ flag want ∷ []) _
          (given_term term) h_term,
      read_u32-u32
          (((((98 ∷ []) ++ u32 chan) ++ str (codes "pty-req")) ++ flag want ∷ [])
            ++ str (given_term term))
          _ cols h_cols,
      read_u32-u32
          ((((((98 ∷ []) ++ u32 chan) ++ str (codes "pty-req")) ++ flag want ∷ [])
              ++ str (given_term term))
            ++ u32 cols)
          _ rows h_rows,
      read_u32-u32
          (((((((98 ∷ []) ++ u32 chan) ++ str (codes "pty-req")) ++ flag want ∷ [])
                ++ str (given_term term))
              ++ u32 cols)
            ++ u32 rows)
          _ width h_width,
      read_u32-u32
          ((((((((98 ∷ []) ++ u32 chan) ++ str (codes "pty-req")) ++ flag want ∷ [])
                  ++ str (given_term term))
                ++ u32 cols)
              ++ u32 rows)
            ++ u32 width)
          _ height h_height,
      read_string-str
          (((((((((98 ∷ []) ++ u32 chan) ++ str (codes "pty-req")) ++ flag want ∷ [])
                    ++ str (given_term term))
                  ++ u32 cols)
                ++ u32 rows)
              ++ u32 width)
            ++ u32 height)
          _ (given_modes modes) h_modes,
      flag_lem want,
      readable,
    )

pub signal_round :
    (old_exit : Bool) (chan : ℕ) (name : Bytes)
    → IsU32 chan
    → IsU32 (length (bare_signal name))
    → has signals (bare_signal name) ≡ true
    → Option.map
        (λ p. Request.on_channel_request old_exit p.payload)
        (Outbound.signal false chan name)
      ≡ some (
          Inbound.channel_request
            (some chan)
            (some (codes "signal"))
            false
            (Inbound.text (bare_signal name)))
unfolding Request.on_channel_request Outbound.signal same
signal_round old_exit chan name h_chan h_name known = simp (
  read_u32-u32 (98 ∷ []) _ chan h_chan,
  read_string-str ((98 ∷ []) ++ u32 chan) _ (codes "signal") (omega arith),
  read_bool-cons (((98 ∷ []) ++ u32 chan) ++ str (codes "signal")) _ 0,
  read_string-str ((((98 ∷ []) ++ u32 chan) ++ str (codes "signal")) ++ 0 ∷ []) _ (bare_signal name)
      h_name,
  known,
)

pub env_round :
    (old_exit : Bool) (chan : ℕ) (key : Bytes) (val : Bytes) (want : Bool)
    → IsU32 chan
    → IsU32 (length key)
    → IsU32 (length val)
    → Option.map
        (λ p. Request.on_channel_request old_exit p.payload)
        (Outbound.env false chan key val want)
      ≡ some (
          Inbound.channel_request
            (some chan)
            (some (codes "env"))
            want
            (Inbound.variable (some key) val))
unfolding Request.on_channel_request Outbound.env same
env_round old_exit chan key val want h_chan h_key h_val = simp (
  read_u32-u32 (98 ∷ []) _ chan h_chan,
  read_string-str ((98 ∷ []) ++ u32 chan) _ (codes "env") (omega arith),
  read_bool-cons (((98 ∷ []) ++ u32 chan) ++ str (codes "env")) _ (flag want),
  read_string-str ((((98 ∷ []) ++ u32 chan) ++ str (codes "env")) ++ flag want ∷ []) _ key h_key,
  read_string-str (((((98 ∷ []) ++ u32 chan) ++ str (codes "env")) ++ flag want ∷ []) ++ str key) _
      val h_val,
  flag_lem want,
)

pub x11_forward_round :
    (old_exit : Bool) (chan : ℕ) (protocol : Bytes) (cookie : Bytes) (single : Bool) (screen : ℕ)
    (want : Bool)
    → IsU32 chan
    → IsU32 (length protocol)
    → IsU32 (length cookie)
    → IsU32 screen
    → Option.map
        (λ p. Request.on_channel_request old_exit p.payload)
        (Outbound.x11_forward false chan protocol cookie single screen want)
      ≡ some (
          Inbound.channel_request
            (some chan)
            (some (codes "x11-req"))
            want
            (Inbound.x11 (some single) (some protocol) (some cookie) screen))
unfolding Request.on_channel_request Outbound.x11_forward same
x11_forward_round old_exit chan protocol cookie single screen want h_chan h_protocol h_cookie
      h_screen =
    simp (
      read_u32-u32 (98 ∷ []) _ chan h_chan,
      read_string-str ((98 ∷ []) ++ u32 chan) _ (codes "x11-req") (omega arith),
      read_bool-cons (((98 ∷ []) ++ u32 chan) ++ str (codes "x11-req")) _ (flag want),
      read_bool-cons ((((98 ∷ []) ++ u32 chan) ++ str (codes "x11-req")) ++ flag want ∷ []) _
          (flag single),
      read_string-str
          (((((98 ∷ []) ++ u32 chan) ++ str (codes "x11-req")) ++ flag want ∷ [])
            ++ flag single ∷ [])
          _ protocol h_protocol,
      read_string-str
          ((((((98 ∷ []) ++ u32 chan) ++ str (codes "x11-req")) ++ flag want ∷ [])
              ++ flag single ∷ [])
            ++ str protocol)
          _ cookie h_cookie,
      read_u32-u32
          (((((((98 ∷ []) ++ u32 chan) ++ str (codes "x11-req")) ++ flag want ∷ [])
                ++ flag single ∷ [])
              ++ str protocol)
            ++ str cookie)
          _ screen h_screen,
      flag_lem want,
      flag_lem single,
    )

pub subsystem_round :
    (old_exit : Bool) (chan : ℕ) (name : Bytes) (want : Bool)
    → IsU32 chan
    → IsU32 (length name)
    → Option.map
        (λ p. Request.on_channel_request old_exit p.payload)
        (Outbound.subsystem false chan name want)
      ≡ some
          (Inbound.channel_request (some chan) (some (codes "subsystem")) want (Inbound.text name))
unfolding Request.on_channel_request Outbound.subsystem same
subsystem_round old_exit chan name want h_chan h_name = simp (
  read_u32-u32 (98 ∷ []) _ chan h_chan,
  read_string-str ((98 ∷ []) ++ u32 chan) _ (codes "subsystem") (omega arith),
  read_bool-cons (((98 ∷ []) ++ u32 chan) ++ str (codes "subsystem")) _ (flag want),
  read_string-str ((((98 ∷ []) ++ u32 chan) ++ str (codes "subsystem")) ++ flag want ∷ []) _ name
      h_name,
  flag_lem want,
)

pub agent_forward_round :
    (old_exit : Bool) (chan : ℕ) (want : Bool)
    → IsU32 chan
    → Option.map
        (λ p. Request.on_channel_request old_exit p.payload)
        (Outbound.agent_forward false chan want)
      ≡ some (
          Inbound.channel_request
            (some chan)
            (some (codes "auth-agent-req@openssh.com"))
            want
            Inbound.nothing)
unfolding Request.on_channel_request Outbound.agent_forward same
agent_forward_round old_exit chan want h_chan = simp (
  read_u32-u32 (98 ∷ []) _ chan h_chan,
  read_string-str ((98 ∷ []) ++ u32 chan) _ (codes "auth-agent-req@openssh.com") (omega arith),
  read_bool-cons (((98 ∷ []) ++ u32 chan) ++ str (codes "auth-agent-req@openssh.com")) _
      (flag want),
  flag_lem want,
)

pub exit_signal_round :
    (chan : ℕ) (name : Bytes) (core : Bool) (msg : Bytes)
    → IsU32 chan
    → IsU32 (length msg)
    → IsU32 (length (bare_signal name))
    → has signals (bare_signal name) ≡ true
    → Option.map
        (λ p. Request.on_channel_request false p.payload)
        (Outbound.exit_signal true chan name core msg)
      ≡ some (
          Inbound.channel_request
            (some chan)
            (some (codes "exit-signal"))
            false
            (Inbound.exit_signal (some (bare_signal name)) (some core) (some msg)))
unfolding Request.on_channel_request Outbound.exit_signal same
exit_signal_round chan name core msg h_chan h_msg h_name known = simp (
  read_u32-u32 (98 ∷ []) _ chan h_chan,
  read_string-str ((98 ∷ []) ++ u32 chan) _ (codes "exit-signal") (omega arith),
  read_bool-cons (((98 ∷ []) ++ u32 chan) ++ str (codes "exit-signal")) _ 0,
  read_string-str ((((98 ∷ []) ++ u32 chan) ++ str (codes "exit-signal")) ++ 0 ∷ []) _
      (bare_signal name) h_name,
  read_bool-cons
      (((((98 ∷ []) ++ u32 chan) ++ str (codes "exit-signal")) ++ 0 ∷ []) ++ str (bare_signal name))
      _ (flag core),
  read_string-str
      ((((((98 ∷ []) ++ u32 chan) ++ str (codes "exit-signal")) ++ 0 ∷ [])
          ++ str (bare_signal name))
        ++ flag core ∷ [])
      _ msg h_msg,
  skip_string-str
      (((((((98 ∷ []) ++ u32 chan) ++ str (codes "exit-signal")) ++ 0 ∷ [])
            ++ str (bare_signal name))
          ++ flag core ∷ [])
        ++ str msg)
      _ [] (omega arith),
  flag_lem core,
  known,
)
