-- ===== src/Auth/Signature.antt =====
-- `sigSSHToASN1` and `convertSignature` of lib/protocol/utils.js. The writer and the reader of two BER
-- integers in a sequence are the asn1 package's; `fresh n` is what `Buffer.allocUnsafe(n)` holds.
use ssh.Common.{
  ℕ, ◌+◌, Bool, not, ◌&&◌, ◌||◌, Option, none, some, ◌∷◌, ◌++◌, length, take, drop, get_or, same,
  codes, leb, ltb, ◌==◌, if◌then◌else◌, Bytes,
}
use ssh.Wire.{init, read_string}
use ssh.Wire.Encode.{str}

abbrev pub is_ecdsa : Bytes → Bool
is_ecdsa type =
    same type (codes "ecdsa-sha2-nistp256")
    || same type (codes "ecdsa-sha2-nistp384")
    || same type (codes "ecdsa-sha2-nistp521")

abbrev pub is_dss : Bytes → Bool
is_dss type = same type (codes "ssh-dss")

-- A zero byte, `b`, and whatever the rest of the fresh memory held.
abbrev behind_zero : Bytes → Bytes → Bytes
behind_zero memory b = 0 ∷ (b ++ drop (1 + length b) memory)

-- A bare number of 20 bytes as a positive integer of BER.
unfoldable pub to_integer : (ℕ → Bytes) → Bytes → Bytes
to_integer fresh b =
    if leb 128 (get_or b 0 0)
    then behind_zero (fresh 21) b
    else if ltb 0 (length b) && get_or b 0 0 == 0 && not (leb 128 (get_or b 1 0))
    then drop 1 b
    else b

-- An integer of BER as a bare number of 20 bytes.
unfoldable pub to_bare : (ℕ → Bytes) → Bytes → Bytes
to_bare fresh b =
    let wide = if ltb (length b) 20 then behind_zero (fresh 20) b else b in
    if ltb 20 (length wide) && get_or wide 0 1 == 0 then drop 1 wide else wide

module _ (write_ber : Bytes → Bytes → Bytes) where
  abbrev both : Option Bytes → Option Bytes → Option Bytes
  both (some r) (some s) = some (write_ber r s)
  both _ _ = none

  unfoldable pub sig_ssh_to_asn1 : (fresh_r fresh_s : ℕ → Bytes) → Bytes → Bytes → Option Bytes
  sig_ssh_to_asn1 fresh_r fresh_s sig type =
      let first = read_string none (init sig 0) in
      let second = read_string none first.1 in
      if is_dss type
      then (if ltb 40 (length sig)
          then some sig
          else some
              (write_ber (to_integer fresh_r (take 20 sig)) (to_integer fresh_s (drop 20 sig))))
      else if is_ecdsa type
      then both first.0 second.0
      else some sig

-- `none` is an exception or `undefined`, on which the callers throw.
module _ (read_ber : Bytes → Option (Bytes × Bytes)) where
  abbrev numbers_to : (Bytes → Bytes → Bytes) → Option (Bytes × Bytes) → Option Bytes
  numbers_to f none = none
  numbers_to f (some (r, s)) = some (f r s)

  unfoldable pub convert_signature : (fresh_r fresh_s : ℕ → Bytes) → Bytes → Bytes → Option Bytes
  convert_signature fresh_r fresh_s signature key_type =
      if is_dss key_type
      then (if leb (length signature) 40
          then some signature
          else numbers_to (λ r s. to_bare fresh_r r ++ to_bare fresh_s s) (read_ber signature))
      else if is_ecdsa key_type
      then (if get_or signature 0 1 == 0
          then some signature
          else numbers_to (λ r s. str r ++ str s) (read_ber signature))
      else some signature
