-- ===== src/Message/Inbound.antt =====
-- The handlers of lib/protocol/handlers.misc.js. A handler gives the call that it makes of the
-- registered handler, or `malformed` where it ends the connection by `doFatalError`. A handler looks at
-- the last field that it read alone, so the fields before it may be `none`, JavaScript's `undefined`.
-- What is answered where no handler is registered is left out.
use ssh.Common.{
  ◌≡◌, ℕ, Bool, false, ◌||◌, Option, none, some, [], ◌++◌, length, drop, codes, same, ltb, ◌==◌,
  if◌then◌else◌, Bytes,
}
use ssh.Wire.{Reading, pure, ◌>>=◌, init, avail, read_u32, read_bool, read_string, read_raw}
use ssh.Wire.Encode.{at, avail-end, avail-rest, read_raw-rest}
use ssh.Message.Terminal.{Modes}

abbrev pub is : Option Bytes → Bytes → Bool
is none b = false
is (some a) b = same a b

abbrev pub map_option : {A B : Type 0} → (A → B) → Option A → Option B
map_option f none = none
map_option f (some a) = some (f a)

-- The data of a channel request.
pub data Request : Type 0 where
  nothing : Request
  number : ℕ → Request
  text : Bytes → Request
  truth : Bool → Request
  raw : Bytes → Request
  exit_signal : Option Bytes → Option Bool → Option Bytes → Request
  pty : Option Bytes → Option ℕ → Option ℕ → Option ℕ → Option ℕ → Modes → Request
  size : Option ℕ → Option ℕ → Option ℕ → ℕ → Request
  x11 : Option Bool → Option Bytes → Option Bytes → ℕ → Request
  variable : Option Bytes → Bytes → Request

-- The data of a channel open, and of a global request.
pub data Opening : Type 0 where
  plain : Opening
  tcpip : Option Bytes → Option ℕ → Option Bytes → ℕ → Opening
  streamlocal : Bytes → Opening
  from_x11 : Option Bytes → ℕ → Opening

pub data Global : Type 0 where
  address : Option Bytes → ℕ → Global
  path : Bytes → Global
  no_data : Global
  other : Bytes → Global

pub data Inbound : Type 0 where
  malformed : Inbound
  disconnect : Option ℕ → Option Bytes → Inbound
  service_request : Bytes → Inbound
  service_accept : Bytes → Inbound
  global_request : Option Bytes → Bool → Global → Inbound
  request_success : Option Bytes → Inbound
  request_failure : Inbound
  channel_open : Option Bytes → Option ℕ → Option ℕ → Option ℕ → Opening → Inbound
  open_confirmation : Option ℕ → Option ℕ → Option ℕ → ℕ → Option Bytes → Inbound
  open_failure : Option ℕ → Option ℕ → Option Bytes → Inbound
  window_adjust : Option ℕ → ℕ → Inbound
  channel_data : Option ℕ → Bytes → Inbound
  channel_ext_data : Option ℕ → Bytes → Option ℕ → Inbound
  channel_eof : ℕ → Inbound
  channel_close : ℕ → Inbound
  channel_request : Option ℕ → Option Bytes → Bool → Request → Inbound
  channel_success : ℕ → Inbound
  channel_failure : ℕ → Inbound

-- `if (last === undefined) return doFatalError(…)`.
abbrev pub checked : {A : Type 0} → Option A → (A → Inbound) → Inbound
checked none f = malformed
checked (some a) f = f a

-- `bufferParser.init(payload, 1)` and the reads; what `clear` leaves is not looked at.
abbrev run : Reading Inbound → Bytes → Inbound
run m payload = (m (init payload 1)).0

unfoldable pub on_disconnect : Bytes → Inbound
on_disconnect = run (do
  reason ← read_u32
  desc ← read_string none
  lang ← read_string none
  pure (checked lang (λ _. disconnect reason desc)))

unfoldable pub on_service_request : Bytes → Inbound
on_service_request = run (do name ← read_string none; pure (checked name service_request))

unfoldable pub on_service_accept : Bytes → Inbound
on_service_accept = run (do name ← read_string none; pure (checked name service_accept))

unfoldable pub global_data : Option Bytes → Reading (Option Global)
global_data name =
    let addressed : Reading (Option Global) = do
      bind_addr ← read_string none
      bind_port ← read_u32
      pure (map_option (address bind_addr) bind_port)
    in let by_path : Reading (Option Global) = do
      socket_path ← read_string none
      pure (map_option path socket_path)
      in let rest : Reading (Option Global) = do b ← read_raw none; pure (map_option other b)
        in if is name (codes "tcpip-forward") || is name (codes "cancel-tcpip-forward")
          then addressed
          else if is name (codes "streamlocal-forward@openssh.com")
              || is name (codes "cancel-streamlocal-forward@openssh.com")
          then by_path
          else if is name (codes "no-more-sessions@openssh.com")
          then pure (some no_data)
          else rest

-- `wantReply !== undefined`, the data read only then.
abbrev pub if_read : {A : Type 0} → Option Bool → Reading (Option A) → Reading (Option A)
if_read none m = pure none
if_read (some b) m = m

abbrev pub or_false : Option Bool → Bool
or_false none = false
or_false (some b) = b

unfoldable pub on_global_request : Bytes → Inbound
unfolding global_data
on_global_request = run (do
  name ← read_string none
  want_reply ← read_bool
  data' ← if_read want_reply (global_data name)
  pure (checked data' (global_request name (or_false want_reply))))

unfoldable pub on_request_success : Bytes → Inbound
on_request_success payload =
    if ltb 1 (length payload) then request_success (some (drop 1 payload)) else request_success none

unfoldable pub on_request_failure : Bytes → Inbound
on_request_failure payload = request_failure

unfoldable pub opening : Option Bytes → Reading (Option Opening)
opening type =
    let tcp : Reading (Option Opening) = do
      dest_ip ← read_string none
      dest_port ← read_u32
      src_ip ← read_string none
      src_port ← read_u32
      pure (map_option (tcpip dest_ip dest_port src_ip) src_port)
    in let local_path : Reading (Option Opening) = do
      socket_path ← read_string none
      pure (map_option streamlocal socket_path)
      in let x : Reading (Option Opening) = do
        src_ip ← read_string none
        src_port ← read_u32
        pure (map_option (from_x11 src_ip) src_port)
        in if is type (codes "forwarded-tcpip") || is type (codes "direct-tcpip")
          then tcp
          else if is type (codes "forwarded-streamlocal@openssh.com")
              || is type (codes "direct-streamlocal@openssh.com")
          then local_path
          else if is type (codes "x11")
          then x
          else pure (some plain)

unfoldable pub on_channel_open : Bytes → Inbound
unfolding opening
on_channel_open = run (do
  type ← read_string none
  sender ← read_u32
  window ← read_u32
  packet_size ← read_u32
  data' ← opening type
  pure (checked data' (channel_open type sender window packet_size)))

-- `bufferParser.avail() ? bufferParser.readRaw() : undefined`.
unfoldable pub rest_if_any : Reading (Option Bytes)
rest_if_any p = if avail p == 0 then (none, p) else read_raw none p

pub rest_if_any-end : (pre : Bytes) → rest_if_any (at pre []) ≡ (none, at pre [])
unfolding rest_if_any
rest_if_any-end pre = rw (avail-end pre)

pub rest_if_any-rest :
    (pre rest : Bytes)
    → (length rest == 0) ≡ false
    → rest_if_any (at pre rest) ≡ (some rest, at (pre ++ rest) [])
unfolding rest_if_any
rest_if_any-rest pre rest h = rw (avail-rest pre rest, h) (read_raw-rest pre rest)

unfoldable pub on_open_confirmation : Bytes → Inbound
on_open_confirmation = run (do
  recipient ← read_u32
  sender ← read_u32
  window ← read_u32
  packet_size ← read_u32
  data' ← rest_if_any
  pure (checked packet_size (λ n. open_confirmation recipient sender window n data')))

unfoldable pub on_open_failure : Bytes → Inbound
on_open_failure = run (do
  recipient ← read_u32
  reason ← read_u32
  description ← read_string none
  lang ← read_string none
  pure (checked lang (λ _. open_failure recipient reason description)))

unfoldable pub on_window_adjust : Bytes → Inbound
on_window_adjust = run (do
  recipient ← read_u32
  bytes_to_add ← read_u32
  pure (checked bytes_to_add (window_adjust recipient)))

unfoldable pub on_channel_data : Bytes → Inbound
on_channel_data = run (do
  recipient ← read_u32
  data' ← read_string none
  pure (checked data' (channel_data recipient)))

unfoldable pub on_channel_ext_data : Bytes → Inbound
on_channel_ext_data = run (do
  recipient ← read_u32
  type ← read_u32
  data' ← read_string none
  pure (checked data' (λ b. channel_ext_data recipient b type)))

unfoldable pub on_channel_eof : Bytes → Inbound
on_channel_eof = run (do recipient ← read_u32; pure (checked recipient channel_eof))

unfoldable pub on_channel_close : Bytes → Inbound
on_channel_close = run (do recipient ← read_u32; pure (checked recipient channel_close))

unfoldable pub on_channel_success : Bytes → Inbound
on_channel_success = run (do recipient ← read_u32; pure (checked recipient channel_success))

unfoldable pub on_channel_failure : Bytes → Inbound
on_channel_failure = run (do recipient ← read_u32; pure (checked recipient channel_failure))
