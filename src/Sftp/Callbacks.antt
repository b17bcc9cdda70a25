-- ===== src/Sftp/Callbacks.antt =====
-- Which callback a response reaches.
use ssh.Common.{ℕ, ◌≡◌, ap, ◌∙◌, Option, none, some, List, [], ◌∷◌, ◌++◌, map, Bytes, IsU32}
use ssh.Common.Int.{pos}
use ssh.Wire.{u32, read_u32}
use ssh.Wire.Encode.{read_u32-u32, read_u32-end, read_string-end, skip_string-end}
use ssh.Message.Inbound.{map_option}
use ssh.Sftp.Attrs.{Attrs}
use ssh.Sftp.AttrsBack.{read_attrs-end}
use ssh.Sftp.Ids.{Asker, take_request, erase}
use ssh.Sftp.Hearing
use ssh.Sftp.Hearing.{Heard, Reply, hear}

-- The callback of a request with a number that is not negative.
abbrev pub reached : {R : Type 0} → Option R → (R → Reply) → Heard R
reached none f = Heard.nobody
reached (some r) f = Heard.calls r (f r)

module _ {R : Type 0} (buffer_of : R → Option ℕ) (extended_of : R → Option Bytes) where
  -- A response of type `t` to the request `id` that ends there, and what is called with an error where
  -- all requests are but that one.
  abbrev pub cut_short : ℕ → ℕ → Asker R → Option (Heard R)
  cut_short t id s = map_option (λ h. h.0) (hear buffer_of extended_of (t ∷ (u32 id ++ [])) s)

  abbrev pub others : ℕ → Asker R → Heard R
  others id s = Heard.breaks (map (λ e. e.1) (erase (pos id) (s.requests)))

  -- A response of the types STATUS, HANDLE, DATA, NAME and ATTRS (not EXTENDED_REPLY, for which the rest may be empty)
  -- that ends behind its number is fatal: every request that is left is called
  -- with an error, but the one it answers is deleted before, and is not.
  pub hear-truncated :
      (s : Asker R) (id : ℕ)
      → IsU32 id
      → (cut_short 101 id s ≡ some (others id s))
        × (cut_short 102 id s ≡ some (others id s))
        × (cut_short 103 id s ≡ some (others id s))
        × (cut_short 104 id s ≡ some (others id s))
        × (cut_short 105 id s ≡ some (others id s))
  unfolding hear Hearing.on_status Hearing.on_handle Hearing.on_data Hearing.on_name
      Hearing.on_attrs take_request
  hear-truncated s id h =
      let to : Option ℕ → Option (List (Option Bytes × Option Bytes × Attrs)) → Option (Heard R) =
        λ o l. some (Hearing.answered buffer_of extended_of o l (λ l r. Reply.names l) s).0 in
      (
        simp (
          read_u32-u32 (101 ∷ []) [] id h,
          read_u32-end ((101 ∷ []) ++ u32 id),
          read_string-end ((101 ∷ []) ++ u32 id),
          skip_string-end ((101 ∷ []) ++ u32 id),
        ),
        simp (read_u32-u32 (102 ∷ []) [] id h, read_string-end ((102 ∷ []) ++ u32 id)),
        simp (read_u32-u32 (103 ∷ []) [] id h, read_string-end ((103 ∷ []) ++ u32 id)),
        ap (λ r. to r.0 (Hearing.counted (read_u32 r.1)).0) (read_u32-u32 (104 ∷ []) [] id h)
            ∙ ap (λ r. to (some id) (Hearing.counted r).0) (read_u32-end ((104 ∷ []) ++ u32 id)),
        simp (read_u32-u32 (105 ∷ []) [] id h, read_attrs-end ((105 ∷ []) ++ u32 id)),
      )
