-- ===== src/Sftp/Attrs.antt =====
-- The attributes of a file in lib/protocol/SFTP.js: `Stats`, `attrsToBytes` and `readAttrs`.
-- A mode or a time is the number that `modeNum` and `toUnixTimestamp` make of it.
use ssh.Common.{
  ℕ, zero, suc, ◌+◌, ◌/◌, ◌%◌, Bool, true, false, Option, none, some, List, [], ◌∷◌, ◌++◌, ◌==◌,
  Bytes,
}
use ssh.Wire.{Parser, Reading, pure, ◌>>=◌, u32, u64, read_u32, read_u64, read_string}
use ssh.Message.Inbound.{map_option}

-- `extended` is the list of what is assigned to the object, in that order.
pub record Attrs : Type 0 where
  pub size : Option ℕ
  pub uid : Option ℕ
  pub gid : Option ℕ
  pub mode : Option ℕ
  pub atime : Option ℕ
  pub mtime : Option ℕ
  pub extended : Option (List (Option Bytes × Bytes))

abbrev pub set_if : {A : Type 0} → Option A → ℕ → ℕ
set_if none n = 0
set_if (some a) n = n

-- Both or nothing.
abbrev pub both : Option ℕ → Option ℕ → Option (ℕ × ℕ)
both (some a) (some b) = some (a, b)
both _ _ = none

abbrev pub size_field : Option ℕ → Bytes
size_field none = []
size_field (some v) = u64 v

abbrev pub number_field : Option ℕ → Bytes
number_field none = []
number_field (some v) = u32 v

abbrev pub pair_field : Option (ℕ × ℕ) → Bytes
pair_field none = []
pair_field (some (a, b)) = u32 a ++ u32 b

-- The flags are different bits, so that `|=` adds them.
unfoldable pub attrs_flags : Attrs → ℕ
attrs_flags a =
    set_if (a.size) 1
    + (set_if (both a.uid a.gid) 2 + (set_if (a.mode) 4 + set_if (both a.atime a.mtime) 8))

-- The first `nb` bytes of ATTRS_BUF.
unfoldable pub attrs_bytes : Attrs → Bytes
attrs_bytes a =
    size_field (a.size)
    ++ (pair_field (both a.uid a.gid)
        ++ (number_field (a.mode) ++ pair_field (both a.atime a.mtime)))

-- `flags & bit`, for a power of 2.
abbrev pub has_bit : ℕ → ℕ → Bool
has_bit flags bit = flags / bit % 2 == 1

-- A part that is read where its flag is set; what cannot be read ends the reading.
abbrev pub continued :
    {A B : Type 0} → Option A × Parser → (Option A → Reading (Option B)) → Option B × Parser
continued (none, p) k = (none, p)
continued (some v, p) k = k (some v) p

unfoldable pub part :
    {A B : Type 0}
    → Bool
    → Reading (Option A)
    → (Option A → Reading (Option B))
    → Reading (Option B)
part false read k p = k none p
part true read k p = continued (read p) k

-- Two numbers, the second of which is looked at.
abbrev pub second_of : Option ℕ → Option ℕ → Option (Option ℕ × ℕ)
second_of a none = none
second_of a (some b) = some (a, b)

unfoldable pub read_pair : Reading (Option (Option ℕ × ℕ))
read_pair = do a ← read_u32; b ← read_u32; pure (second_of a b)

abbrev then_entry :
    Option Bytes
    → Option Bytes
    → Reading (Option (List (Option Bytes × Bytes)))
    → Reading (Option (List (Option Bytes × Bytes)))
then_entry type none more = pure none
then_entry type (some data') more = do rest ← more; pure (map_option (λ l. (type, data') ∷ l) rest)

unfoldable pub read_entries : ℕ → Reading (Option (List (Option Bytes × Bytes)))
read_entries zero p = (some [], p)
read_entries (suc n) p =
    (do type ← read_string none; data' ← read_string none; then_entry type data' (read_entries n)) p

abbrev counted_entries : Option ℕ → Reading (Option (List (Option Bytes × Bytes)))
counted_entries none = pure none
counted_entries (some n) = read_entries n

unfoldable pub read_extended : Reading (Option (List (Option Bytes × Bytes)))
read_extended = do count ← read_u32; counted_entries count

abbrev pub first_half : Option (Option ℕ × ℕ) → Option ℕ
first_half none = none
first_half (some (a, b)) = a

abbrev pub second_half : Option (Option ℕ × ℕ) → Option ℕ
second_half none = none
second_half (some (a, b)) = some b

abbrev pub assembled :
    Option ℕ
    → Option (Option ℕ × ℕ)
    → Option ℕ
    → Option (Option ℕ × ℕ)
    → Option (List (Option Bytes × Bytes))
    → Attrs
assembled size ids mode times extended = record {
  size = size;
  uid = first_half ids;
  gid = second_half ids;
  mode = mode;
  atime = first_half times;
  mtime = second_half times;
  extended = extended;
}

-- What follows the flags.
unfoldable pub read_parts : ℕ → Reading (Option Attrs)
read_parts flags = part (has_bit flags 1) read_u64 (λ size. part (has_bit flags 2) read_pair (λ ids.
    part (has_bit flags 4) read_u32 (λ mode. part (has_bit flags 8) read_pair (λ times.
      part (has_bit flags 2147483648) read_extended
        (λ extended. pure (some (assembled size ids mode times extended)))))))

abbrev flagged : Option ℕ → Reading (Option Attrs)
flagged none = pure none
flagged (some flags) = read_parts flags

unfoldable pub read_attrs : Reading (Option Attrs)
read_attrs = do flags ← read_u32; flagged flags
