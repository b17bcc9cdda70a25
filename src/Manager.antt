-- ===== src/Manager.antt =====
-- lib/utils.js, the class ChannelManager: the ids of the local channels.
-- `_channels` is a table from ids to values; `used` is `_cur + 1`, the ids handed out on the fast path.
-- A value is an object or `true`, hence truthy, so a key that is absent is the only falsy entry.
pub mod Tables
pub mod Sound
mod Tests
use Tables.{Table, find, put, delete}
use ssh.Common.{
  ℕ, zero, suc, ◌+◌, ◌-◌, ◌≡◌, refl, Bool, true, false, Option, none, some, List, [], ◌∷◌, leb, ltb,
  ◌==◌, if◌then◌else◌,
}

abbrev pub max_channel : ℕ
max_channel = 4294967295

pub record Manager (V : Type 0) : Type 0 where
  pub channels : Table V
  pub used : ℕ
  pub count : ℕ

abbrev pub empty : {V : Type 0} → Manager V
empty = record { channels = []; used = 0; count = 0 }

-- `if (channels[i] === undefined)`.
abbrev pub first_free : {V : Type 0} → ℕ → Option V → Option ℕ → Option ℕ
first_free i none next = some i
first_free i (some v) next = next

-- The loop `for (let i = 0; i < MAX_CHANNEL; ++i)`, from `i` with `n` ids to go.
unfoldable pub search : {V : Type 0} → ℕ → ℕ → Table V → Option ℕ
search zero i t = none
search (suc n) i t = let next = search n (suc i) t in first_free i (find i t) next

-- The id that `add` reserves, and `_cur + 1` afterwards.
unfoldable pub reserve : {V : Type 0} → Manager V → Option ℕ × ℕ
reserve m =
    if leb m.used max_channel
    then (some m.used, suc m.used)
    else if m.count == 0
    then (some 0, 1)
    else (search max_channel 0 m.channels, m.used)

-- `-1` is `none`.
abbrev pub enter : {V : Type 0} → V → Manager V → Option ℕ × ℕ → Option ℕ × Manager V
enter v m (none, used) = (none, record m { used = used })
enter v m (some id, used) =
    (some id, record { channels = put id v m.channels; used = used; count = suc m.count })

unfoldable pub add : {V : Type 0} → V → Manager V → Option ℕ × Manager V
add v m = enter v m (reserve m)

-- The three that take an id; `none` is `throw new Error('Invalid channel id')`.
abbrev pub valid : {A : Type 0} → ℕ → A → Option A
valid id a = if leb max_channel id then none else some a

abbrev pub replaced : {V : Type 0} → ℕ → V → Manager V → Option V → Manager V
replaced id v m none = m
replaced id v m (some w) = record m { channels = put id v m.channels }

abbrev pub dropped : {V : Type 0} → ℕ → Manager V → Option V → Manager V
dropped id m none = m
dropped id m (some w) = record {
  channels = delete id m.channels;
  used = m.used;
  count = m.count - 1;
}

unfoldable pub update : {V : Type 0} → ℕ → V → Manager V → Option (Manager V)
update id v m = valid id (replaced id v m (find id m.channels))

unfoldable pub get : {V : Type 0} → ℕ → Manager V → Option (Option V)
get id m = valid id (find id m.channels)

unfoldable pub remove : {V : Type 0} → ℕ → Manager V → Option (Manager V)
remove id m = valid id (dropped id m (find id m.channels))

-- The state that `cleanup` leaves.
unfoldable pub cleanup : {V : Type 0} → Manager V → Manager V
cleanup m = empty
