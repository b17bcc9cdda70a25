-- ===== src/Sftp/Ids.antt =====
-- The numbers of requests in lib/protocol/SFTP.js: `_writeReqid` and `_requests`.
use ssh.Common.{
  ℕ, zero, suc, ◌+◌, ◌-◌, ◌%◌, ◌^◌, ◌<◌, ◌≡◌, refl, arith, Bool, true, false, Option, none, some,
  List, [], ◌∷◌, ◌==◌, if◌then◌else◌, IsU32, All, Bool-cases, inl, inr,
}
use ssh.Common.Int.{ℤ, pos, negsuc, to_int32}

-- `(id + 1) & MAX_REQID`, of an `id` that is such a number: `&` makes a signed 32-bit number, which a
-- negative one already is.
unfoldable pub next_id : ℤ → ℤ
next_id (pos n) = to_int32 (n + 1)
next_id (negsuc zero) = pos 0
next_id (negsuc (suc n)) = negsuc n

-- What `writeUInt32BE` stores, and the other side reads.
unfoldable pub wire_id : ℤ → ℕ
wire_id (pos n) = n % 2 ^ 32
wire_id (negsuc n) = 2 ^ 32 - 1 - n % 2 ^ 32

pub wire_id-IsU32 : (i : ℤ) → IsU32 (wire_id i)
unfolding wire_id
wire_id-IsU32 (pos n) = omega arith
wire_id-IsU32 (negsuc n) = omega arith

abbrev same_id : ℤ → ℤ → Bool
same_id (pos a) (pos b) = a == b
same_id (negsuc a) (negsuc b) = a == b
same_id _ _ = false

-- The numbers that `&` gives.
abbrev pub IsInt32 : ℤ → Type 0
IsInt32 (pos n) = n < 2 ^ 31
IsInt32 (negsuc n) = n < 2 ^ 31

next_id-IsInt32 : (i : ℤ) → IsInt32 i → IsInt32 (next_id i)
unfolding next_id
next_id-IsInt32 (pos n) h = ground arith
next_id-IsInt32 (negsuc zero) h = omega arith
next_id-IsInt32 (negsuc (suc n)) h = omega arith

module _ {R : Type 0} where
  -- `_requests[id]` and `delete _requests[id]`.
  unfoldable pub find : ℤ → List (ℤ × R) → Option R
  find i [] = none
  find i ((j, r) ∷ rs) = let rest = find i rs in if same_id j i then some r else rest

  unfoldable pub erase : ℤ → List (ℤ × R) → List (ℤ × R)
  erase i [] = []
  erase i ((j, r) ∷ rs) = let rest = erase i rs in if same_id j i then rest else (j, r) ∷ rest

-- `_writeReqid` and `_requests`, by the numbers that they are stored under.
pub record Asker (R : Type 0) : Type 0 where
  pub last : ℤ
  pub requests : List (ℤ × R)

module _ {R : Type 0} where
  -- A request is stored under its number.
  unfoldable pub issue : R → Asker R → Asker R
  issue r s =
      let i = next_id (s.last) in record { last = i; requests = (i, r) ∷ erase i (s.requests) }

  -- A response takes the request that is stored under the number it carries.
  unfoldable pub take_request : ℕ → Asker R → Option R × Asker R
  take_request id s =
      (find (pos id) (s.requests), record { last = s.last; requests = erase (pos id) (s.requests) })

  -- What every number in the table is.
  abbrev pub IsAsker : Asker R → Type 0
  IsAsker s = IsInt32 (s.last) × All (λ e. IsInt32 (e.0)) (s.requests)

  erase-All :
      (i : ℤ) (rs : List (ℤ × R))
      → All (λ e. IsInt32 (e.0)) rs
      → All (λ e. IsInt32 (e.0)) (erase i rs)
  unfolding erase
  erase-All i [] h = h
  erase-All i ((j, r) ∷ rs) (h, hs) = elim (Bool-cases (same_id j i)) [
    | inl e ↦ rw e (erase-All i rs hs)
    | inr e ↦ rw e (h, erase-All i rs hs)
  ]

  -- Every number that is drawn or stored is a signed 32-bit one: so it is after a request and after a
  -- response, whatever number it carries, if it was before.
  issue-IsAsker :
      (r : R) (id : ℕ) (s : Asker R)
      → IsAsker s
      → IsAsker (issue r s) × IsAsker (take_request id s).1
  unfolding issue take_request
  issue-IsAsker r id s (h, hs) =
      let next = next_id-IsInt32 (s.last) h in
      (
        (next, (next, erase-All (next_id (s.last)) (s.requests) hs)),
        (h, erase-All (pos id) (s.requests) hs),
      )

  find-far :
      (n : ℕ) (rs : List (ℤ × R))
      → 2 ^ 31 - 1 < n
      → All (λ e. IsInt32 (e.0)) rs
      → find (pos n) rs ≡ none
  unfolding find
  find-far n [] far h = refl
  find-far n ((pos m, r) ∷ rs) far (h, hs) =
      let apart : (m == n) ≡ false = ground arith in rw apart (find-far n rs far hs)
  find-far n ((negsuc m, r) ∷ rs) far (h, hs) = find-far n rs far hs

  -- Who a response to a request finds: the request, if its number is not negative, and nobody if it is.
  abbrev pub found_by : ℤ → R → Option R
  found_by (pos n) r = some r
  found_by (negsuc n) r = none

  found-next :
      (r : R) (i : ℤ) (rs : List (ℤ × R))
      → IsInt32 i
      → All (λ e. IsInt32 (e.0)) rs
      → find (pos (wire_id i)) ((i, r) ∷ rs) ≡ found_by i r
  unfolding find wire_id
  found-next r (pos n) rs h hs = let here : (n == n % 2 ^ 32) ≡ true = ground arith in rw here refl
  found-next r (negsuc n) rs h hs = find-far (2 ^ 32 - 1 - n % 2 ^ 32) rs (omega arith) hs

  -- A response that carries the number of the request just made takes that request while the number is
  -- not negative; the number is negative from the 2 ^ 31-st request on, and then the response, which
  -- carries it as an unsigned number, takes none.
  pub take_request-issue :
      (r : R) (s : Asker R)
      → IsAsker s
      → (take_request (wire_id (next_id (s.last))) (issue r s)).0 ≡ found_by (next_id (s.last)) r
  unfolding take_request issue
  take_request-issue r s (h, hs) =
      found-next r (next_id (s.last)) _ (next_id-IsInt32 (s.last) h)
        (erase-All (next_id (s.last)) (s.requests) hs)
