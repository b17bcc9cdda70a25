-- ===== src/Channel/Send.antt =====
-- The loop of `_write`: it cuts a chunk to the window and to the peer's packet size, loses nothing, and
-- ends, unless the peer's packet size is 0.
use ssh.Common.{
  ℕ, zero, suc, ◌+◌, ◌-◌, ◌≤◌, ◌<◌, ◌≡◌, refl, ap, ◌∙◌, arith, none, some, List, [], ◌∷◌, ◌++◌,
  append_assoc, ◌⊎◌, inl, inr, length, length-append, length-take, length-drop, take-append-drop,
  take, drop, All, lt→ltb, ge→ltb_false, Bytes,
}
use mathlib.Core.Bool.{and-false}
use mathlib.Core.Option
use native.Mathlib.Nat.{sub-zero}
use ssh.Channel.Writing.{Sending, prepend, slice_len, send_slices}

abbrev pub joined : List Bytes → Bytes
joined [] = []
joined (s ∷ ss) = s ++ joined ss

abbrev pub IsSlice : ℕ → Bytes → Type 0
IsSlice packet_size s = (0 < length s) × (length s ≤ packet_size)

-- `r` is a right way to send `data` through a window.
pub record IsSplit (packet_size window : ℕ) (whole : Bytes) (r : Sending) : Type 0 where
  pub keeps : joined r.slices ++ r.left ≡ whole
  pub counts : r.window + length (joined r.slices) ≡ window
  pub fits : All (IsSlice packet_size) r.slices
  pub stops : (length r.left ≡ 0) ⊎ (r.window ≡ 0)

slice_len_bounds :
    (left window packet_size : ℕ)
    → 0 < left
    → 0 < window
    → 0 < packet_size
    → (0 < slice_len left window packet_size)
      × (slice_len left window packet_size ≤ left)
      × (slice_len left window packet_size ≤ window)
      × (slice_len left window packet_size ≤ packet_size)
unfolding slice_len
slice_len_bounds left window packet_size hl hw hp = ground arith

IsSplit-prepend :
    (n packet_size window : ℕ) (whole : Bytes) (r : Sending)
    → 0 < n
    → n ≤ length whole
    → n ≤ window
    → n ≤ packet_size
    → IsSplit packet_size (window - n) (drop n whole) r
    → IsSplit packet_size window whole (prepend (take n whole) r)
IsSplit-prepend n packet_size window whole r pos hl hw hp s = record {
  keeps =
      append_assoc (take n whole) (joined r.slices) r.left
      ∙ ap (take n whole ++◌) s.keeps
      ∙ take-append-drop n whole;
  counts =
      omega (arith, s.counts, length-append (take n whole) (joined r.slices), length-take n whole);
  fits = ((omega (arith, length-take n whole), omega (arith, length-take n whole)), s.fits);
  stops = s.stops;
}

send_slices_step :
    (fuel packet_size window : ℕ) (whole : Bytes)
    → 0 < length whole
    → 0 < window
    → send_slices (suc fuel) packet_size window whole
      ≡ Option.map (prepend (take (slice_len (length whole) window packet_size) whole)) (
          send_slices fuel packet_size
            (window - slice_len (length whole) window packet_size)
            (drop (slice_len (length whole) window packet_size) whole))
unfolding send_slices
send_slices_step fuel packet_size window whole hl hw =
    rw (lt→ltb 0 (length whole) hl, lt→ltb 0 window hw) refl

abbrev finished : ℕ → Bytes → Sending
finished window whole = record { slices = []; window = window; left = whole }

send_slices_stop :
    (fuel packet_size window : ℕ) (whole : Bytes)
    → (length whole ≡ 0) ⊎ (window ≡ 0)
    → send_slices (suc fuel) packet_size window whole ≡ some (finished window whole)
unfolding send_slices
send_slices_stop fuel packet_size window whole (inl e) =
    rw (ge→ltb_false 0 (length whole) (omega arith))
send_slices_stop fuel packet_size window whole (inr e) =
    rw (ge→ltb_false 0 window (omega arith)) (rw and-false)

IsSplit-finished :
    (packet_size window : ℕ) (whole : Bytes)
    → (length whole ≡ 0) ⊎ (window ≡ 0)
    → IsSplit packet_size window whole (finished window whole)
IsSplit-finished packet_size window whole h = record {
  keeps = refl;
  counts = omega arith;
  fits = tt;
  stops = h;
}

-- Whether the loop goes on.
round_cases :
    (window : ℕ) (whole : Bytes)
    → ((length whole ≡ 0) ⊎ (window ≡ 0)) ⊎ ((0 < length whole) × (0 < window))
round_cases zero whole = inl (inr refl)
round_cases (suc w) [] = inl (inl refl)
round_cases (suc w) (x ∷ xs) = inr (omega arith, omega arith)

-- With a positive packet size the loop ends within one round for each byte and one more, and what it
-- leaves is a right split of the chunk: nothing is lost, reordered or sent beyond the window, each slice
-- is non-empty and within the packet size, and bytes are left only if the window is used up.
pub send_slices_total :
    (fuel packet_size window : ℕ) (whole : Bytes)
    → 0 < packet_size
    → length whole < fuel
    → (r : Sending) × (send_slices fuel packet_size window whole ≡ some r)
      × IsSplit packet_size window whole r
send_slices_total zero packet_size window whole hp h = absurd (omega arith)
send_slices_total (suc fuel) packet_size window whole hp h = elim (round_cases window whole) [
  | inl stop ↦ (
    finished window whole,
    send_slices_stop fuel packet_size window whole stop,
    IsSplit-finished packet_size window whole stop,
  )
  | inr (hl, hw) ↦
      let n = slice_len (length whole) window packet_size in
      let (pos, le_len, le_win, le_pkt) =
        slice_len_bounds (length whole) window packet_size hl hw hp in
      let (r, e, split) =
        send_slices_total fuel packet_size (window - n) (drop n whole) hp
          (omega (arith, length-drop n whole)) in
      (
        prepend (take n whole) r,
        send_slices_step fuel packet_size window whole hl hw ∙ rw e,
        IsSplit-prepend n packet_size window whole r pos le_len le_win le_pkt split,
      )
]

slice_len-zero : (left window : ℕ) → slice_len left window 0 ≡ 0
unfolding slice_len
slice_len-zero left window = ground arith

-- A peer that announces packets of 0 bytes keeps the loop from ending: no number of rounds is enough
-- for a non-empty chunk and an open window.
pub send_slices_stuck :
    (fuel window : ℕ) (whole : Bytes)
    → 0 < window
    → 0 < length whole
    → send_slices fuel 0 window whole ≡ none
unfolding send_slices
send_slices_stuck zero window whole hw hl = refl
send_slices_stuck (suc fuel) window whole hw hl =
    rw (lt→ltb 0 (length whole) hl, lt→ltb 0 window hw, slice_len-zero, sub-zero)
      (rw (send_slices_stuck fuel window whole hw hl))
