-- ===== src/Channel/Model.antt =====
-- The state of a channel: the constructor of lib/Channel.js, and what it asks of its surroundings.
use ssh.Common.{ℕ, ◌*◌, Bool, true, false, Option, List, [], ◌∷◌, ◌++◌, Bytes}
use ssh.Common.Int.{ℤ}
use Prim.Native.String.{String}

abbrev pub packet_size_default : ℕ
packet_size_default = 32 * 1024

abbrev pub max_window : ℕ
max_window = 2 * 1024 * 1024

abbrev pub window_threshold : ℕ
window_threshold = 1024 * 1024

pub data State : Type 0 where
  open_ eof closing closed : State

abbrev pub is_open : State → Bool
is_open State.open_ = true
is_open _ = false

-- What a channel asks of its surroundings. A callback is known by a number.
pub data Event : Type 0 where
  channel_data : ℕ → Bytes → Event
  channel_ext_data : ℕ → Bytes → Event
  channel_eof : ℕ → Event
  channel_close : ℕ → Event
  channel_window_adjust : ℕ → ℕ → Event
  window_change : ℕ → ℕ → ℕ → ℕ → ℕ → Event
  signal_sent : ℕ → String → Event
  exit_status : ℕ → ℕ → Event
  exit_signal : ℕ → String → Event
  called : ℕ → Event
  replied : ℕ → Bool → Event
  pushed : Bytes → Event
  pushed_stderr : Bytes → Event

pub record Outgoing : Type 0 where
  pub id : ℕ
  pub window : ℕ
  pub packet_size : ℕ
  pub state : State

pub record Incoming : Type 0 where
  pub window : ℤ
  pub state : State

pub record Channel : Type 0 where
  pub server : Bool
  pub type : String
  pub subtype : String
  pub writable : Bool
  pub allow_half_open : Bool
  pub incoming : Incoming
  pub outgoing : Outgoing
  pub wait_window : Bool
  pub wait_chan_drain : Bool
  pub chunk : Option Bytes
  pub chunkcb : Option ℕ
  pub chunk_err : Option Bytes
  pub chunkcb_err : Option ℕ
  pub callbacks : List ℕ
  pub log : List Event

abbrev pub emit : Event → Channel → Channel
emit e c = record c { log = c.log ++ e ∷ [] }

abbrev pub emit_all : List Event → Channel → Channel
emit_all es c = record c { log = c.log ++ es }
