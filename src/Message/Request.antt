-- ===== src/Message/Request.antt =====
-- CHANNEL_REQUEST of lib/protocol/handlers.misc.js.
use ssh.Common.{
  ℕ, zero, suc, ◌+◌, ◌/◌, ◌%◌, Bool, true, false, ◌||◌, Option, none, some, [], ◌∷◌, ◌++◌, codes,
  ltb, ◌==◌, if◌then◌else◌, Bytes,
}
use ssh.Wire.{
  Reading, pure, ◌>>=◌, init, avail, read_u32, read_bool, read_string, read_raw, skip_string,
}
use ssh.Message.Terminal.{read_modes}
use ssh.Message.Inbound.{
  Request, nothing, number, text, truth, raw, exit_signal, pty, size, x11, variable, Inbound,
  channel_request, checked, is, if_read, or_false, map_option,
}

-- The decimal digits of a uint32, which has ten at most.
decimal : ℕ → ℕ → Bytes
decimal zero n = []
decimal (suc fuel) n =
    let front = decimal fuel (n / 10) in
    if ltb n 10 then (48 + n) ∷ [] else front ++ (48 + n % 10) ∷ []

-- The signal of a number, for peers that send one (COMPAT.OLD_EXIT).
unfoldable pub signal_name : ℕ → Bytes
unfolding decimal
signal_name n =
    if n == 1
    then codes "HUP"
    else if n == 2
    then codes "INT"
    else if n == 3
    then codes "QUIT"
    else if n == 6
    then codes "ABRT"
    else if n == 9
    then codes "KILL"
    else if n == 14
    then codes "ALRM"
    else if n == 15
    then codes "TERM"
    else codes "UNKNOWN (" ++ (decimal 10 n ++ codes ")")

-- `signal` is dropped where `coreDumped` could not be read.
abbrev kept : Option Bytes → Option Bool → Option Bytes
kept s none = none
kept s (some b) = s

read_exit_signal : Bool → Reading (Option Request)
unfolding signal_name
read_exit_signal true = do
  num ← read_u32
  message ← read_string none
  lang ← skip_string
  pure (map_option (λ _. exit_signal (map_option signal_name num) (some false) message) lang)
read_exit_signal false = do
  signal ← read_string none
  core_dumped ← read_bool
  message ← read_string none
  lang ← skip_string
  pure (map_option (λ _. exit_signal (kept signal core_dumped) core_dumped message) lang)

abbrev pty_of :
    Option Bytes → Option ℕ → Option ℕ → Option ℕ → Option ℕ → Option Bytes → Option Request
pty_of term cols rows width height none = none
pty_of term cols rows width height (some b) =
    map_option (pty term cols rows width height) (read_modes b)

-- `bufferParser.avail() ? bufferParser.readRaw() : null`.
abbrev rest_or_null : Reading (Option Request)
rest_or_null p =
    if avail p == 0 then (some nothing, p) else (do b ← read_raw none; pure (map_option raw b)) p

-- The data of a request of type `type`; the flag is COMPAT.OLD_EXIT.
unfoldable pub request_data : Bool → Option Bytes → Reading (Option Request)
unfolding read_exit_signal
request_data old_exit type =
    let as_number : Reading (Option Request) = (do n ← read_u32; pure (map_option number n)) in
    let as_text : Reading (Option Request) = (do s ← read_string none; pure (map_option text s)) in
    let as_bool : Reading (Option Request) = (do b ← read_bool; pure (map_option truth b)) in
    let as_pty : Reading (Option Request) = do
      term ← read_string none
      cols ← read_u32
      rows ← read_u32
      width ← read_u32
      height ← read_u32
      modes ← read_string none
      pure (pty_of term cols rows width height modes)
    in let as_size : Reading (Option Request) = do
      cols ← read_u32
      rows ← read_u32
      width ← read_u32
      height ← read_u32
      pure (map_option (size cols rows width) height)
      in let as_x11 : Reading (Option Request) = do
        single ← read_bool
        protocol ← read_string none
        cookie ← read_string none
        screen ← read_u32
        pure (map_option (x11 single protocol cookie) screen)
        in let as_env : Reading (Option Request) = do
          name ← read_string none
          value ← read_string none
          pure (map_option (variable name) value)
          in if is type (codes "exit-status")
            then as_number
            else if is type (codes "exit-signal")
            then read_exit_signal old_exit
            else if is type (codes "pty-req")
            then as_pty
            else if is type (codes "window-change")
            then as_size
            else if is type (codes "x11-req")
            then as_x11
            else if is type (codes "env")
            then as_env
            else if is type (codes "shell")
            then pure (some nothing)
            else if is type (codes "exec")
                || is type (codes "subsystem")
                || is type (codes "signal")
            then as_text
            else if is type (codes "xon-xoff")
            then as_bool
            else if is type (codes "auth-agent-req@openssh.com")
            then pure (some nothing)
            else rest_or_null

unfoldable pub on_channel_request : Bool → Bytes → Inbound
unfolding request_data
on_channel_request old_exit payload =
    ((do
      recipient ← read_u32
      type ← read_string none
      want_reply ← read_bool
      data' ← if_read want_reply (request_data old_exit type)
      pure (checked data' (channel_request recipient type (or_false want_reply))))
      (init payload 1)).0
