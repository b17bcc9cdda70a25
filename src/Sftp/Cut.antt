-- ===== src/Sftp/Cut.antt =====
-- Packets do not depend on how the channel cuts the data.
use ssh.Common.{
  ℕ, zero, suc, ◌+◌, ◌-◌, ◌*◌, ◌<◌, ◌≤◌, ◌≡◌, refl, sym, ap, ◌∙◌, arith, true, false, Bool-cases,
  Option, none, some, [], ◌∷◌, ◌++◌, length, ltb, lt→ltb, ltb→lt, ge→ltb_false, Bytes, inl, inr,
}
use ssh.Common.Int.{ℤ, pos, negsuc, ◌+ℤ◌, ltb_ℤ}
use ssh.Sftp.{
  Framing, frame, between, Verdict, go_on, stop, Pushed, waiting, stopped, invalid_length, too_long,
  type_error, shift_in, checked, push, is_zero_ℤ,
}
use ssh.Sftp.Bytewise.{after, settled, tick, feed, feed-append}
use ssh.Sftp.Pushing.{IsFraming, measuring, filling, negative, push_loop-feed}

pub shift_low : (v b : ℕ) → v * 256 < 2147483648 → shift_in (pos v) b ≡ pos (v * 256 + b)
shift_low v b h = ground arith

shift_high :
    (a b c d : ℕ)
    → 128 ≤ a
    → a < 256
    → b < 256
    → c < 256
    → d < 256
    → shift_in (shift_in (shift_in (pos 0 +ℤ pos a) b) c) d
      ≡ negsuc (4294967295 - (a * 16777216 + b * 65536 + c * 256 + d))
shift_high a b c d h ha hb hc hd =
    let start : (pos 0 +ℤ pos a) ≡ pos a = ground arith in
    rw (start, shift_low a b (omega arith), shift_low (a * 256 + b) c (omega arith)) (ground arith)

module _ {S : Type 0} (max_len : ℕ) (accept : S → Bytes → Verdict S) where
  abbrev Sound : Pushed S → Type 0
  Sound (waiting g t) = IsFraming g
  Sound _ = Unit {0}

  checked-Sound : (len : ℤ) (s : S) → Sound (checked max_len accept (frame len 4 []) s)
  checked-Sound (pos zero) s = tt
  checked-Sound (pos (suc n)) s =
      let set : is_zero_ℤ (pos (suc n)) ≡ false = ground arith in
      elim (Bool-cases (ltb_ℤ (pos max_len) (pos (suc n)))) [
        | inl e ↦ rw (set, e) tt
        | inr e ↦ rw (set, e) (filling (suc n) [] (omega arith))
      ]
  checked-Sound (negsuc m) s =
      let below : ltb_ℤ (pos max_len) (negsuc m) ≡ false = ge→ltb_false _ _ (omega arith) in
      rw below (negative m)

  settled-Sound : (v : Verdict S) → Sound (settled max_len accept v)
  settled-Sound (go_on s) = measuring (pos 0) 0 (omega arith)
  settled-Sound (stop s) = tt

  tick-Sound : (f : Framing) (s : S) (b : ℕ) → IsFraming f → Sound (tick max_len accept f s b)
  unfolding tick
  tick-Sound f s b (measuring len k h) = elim (Bool-cases (ltb (suc k) 4)) [
    | inl e ↦ rw (lt→ltb k 4 h, e) (measuring (shift_in len b) (suc k) (ltb→lt _ _ e))
    | inr e ↦ let last : k ≡ 3 = ground arith in rw last (checked-Sound (shift_in len b) s)
  ]
  tick-Sound f s b (filling n st h) =
      let short : ltb_ℤ (pos (length st)) (pos n) ≡ true = lt→ltb _ _ (omega arith) in
      elim (Bool-cases (ltb_ℤ (pos (length (st ++ b ∷ []))) (pos n))) [
        | inl e ↦ rw (short, e) (filling n (st ++ b ∷ []) (ground arith))
        | inr e ↦ rw (short, e) (settled-Sound (accept s (st ++ b ∷ [])))
      ]
  tick-Sound f s b (negative m) =
      let below : ltb_ℤ (pos 0) (negsuc m) ≡ false = ge→ltb_false _ _ (omega arith) in rw below tt

  after-Sound :
      (p : Pushed S) (next : Framing → S → Pushed S)
      → Sound p
      → ((g : Framing) (t : S) → IsFraming g → Sound (next g t))
      → Sound (after p next)
  after-Sound (waiting g t) next h k = k g t h
  after-Sound (stopped s) next h k = tt
  after-Sound (invalid_length s) next h k = tt
  after-Sound (too_long n s) next h k = tt
  after-Sound (type_error s) next h k = tt

  feed-Sound : (f : Framing) (s : S) (bs : Bytes) → IsFraming f → Sound (feed max_len accept f s bs)
  unfolding feed
  feed-Sound f s [] h = h
  feed-Sound f s (b ∷ bs) h =
      after-Sound (tick max_len accept f s b) _ (tick-Sound f s b h)
        (λ g t h'. feed-Sound g t bs h')

  -- What one call gives whose data goes on with `ys`, by what its first part alone gives: where that waits for
  -- more, what the next call would give on `ys`; where it ends in a stop or an error, that end, since the rest of
  -- that call's data is not looked at. A call that comes later is parsed again by the code, and is not meant here.
  abbrev pub rest_of_call : Option (Pushed S) → Bytes → Option (Pushed S)
  rest_of_call none ys = none
  rest_of_call (some (waiting g t)) ys = push max_len accept g t ys
  rest_of_call (some p) ys = some p

  push-feed :
      (f : Framing) (s : S) (bs : Bytes)
      → IsFraming f
      → push max_len accept f s bs ≡ some (feed max_len accept f s bs)
  unfolding push
  push-feed f s bs h = push_loop-feed max_len accept (suc (length bs)) f s bs h (omega arith)

  more-after :
      (p : Pushed S) (ys : Bytes)
      → Sound p
      → rest_of_call (some p) ys ≡ some (after p (λ g t. feed max_len accept g t ys))
  more-after (waiting g t) ys h = push-feed g t ys h
  more-after (stopped s) ys h = refl
  more-after (invalid_length s) ys h = refl
  more-after (too_long n s) ys h = refl
  more-after (type_error s) ys h = refl

  -- From any state between two calls, whatever follows a packet and however the data of one call is cut in two:
  -- `push` returns on all of it, in one round of its loop for each byte at most, what its bytes give one
  -- at a time; where the first part leaves it waiting, pushing the parts one after the other gives the same
  -- packets and the same end; and where the first part ends in a stop or an error, the one call ends so too,
  -- and drops the second part.
  pub push-append :
      (f : Framing) (s : S) (xs ys : Bytes)
      → IsFraming f
      → (push max_len accept f s (xs ++ ys) ≡ rest_of_call (push max_len accept f s xs) ys)
        × (push max_len accept f s (xs ++ ys) ≡ some (feed max_len accept f s (xs ++ ys)))
  push-append f s xs ys h = (
    push-feed f s (xs ++ ys) h
        ∙ ap some (feed-append max_len accept f s xs ys)
        ∙ sym (
            ap (λ o. rest_of_call o ys) (push-feed f s xs h)
            ∙ more-after (feed max_len accept f s xs) ys (feed-Sound f s xs h)),
    push-feed f s (xs ++ ys) h,
  )

  broken :
      (m : ℕ) (s : S) (e : ℕ) (bs : Bytes)
      → some (
          after
            (checked max_len accept (frame (negsuc m) 4 []) s)
            (λ g t. feed max_len accept g t (e ∷ bs)))
        ≡ some (type_error s)
  unfolding feed tick
  broken m s e bs =
      let low : ltb_ℤ (pos max_len) (negsuc m) ≡ false = ge→ltb_false _ _ (omega arith) in
      let below : ltb_ℤ (pos 0) (negsuc m) ≡ false = ge→ltb_false _ _ (omega arith) in
      rw low (rw below refl)

  -- A length field of 2 ^ 31 or more, read into a 32-bit integer, is below zero: it passes the check
  -- against the maximum, and the next byte makes the code read a property of `undefined`.
  pub push_negative :
      (s : S) (a b c d e : ℕ) (bs : Bytes)
      → 128 ≤ a
      → a < 256
      → b < 256
      → c < 256
      → d < 256
      → push max_len accept between s (a ∷ (b ∷ (c ∷ (d ∷ (e ∷ bs))))) ≡ some (type_error s)
  unfolding feed tick
  push_negative s a b c d e bs h ha hb hc hd =
      push-feed between s (a ∷ (b ∷ (c ∷ (d ∷ (e ∷ bs))))) (measuring (pos 0) 0 (omega arith))
      ∙ rw (shift_high a b c d h ha hb hc hd)
          (broken (4294967295 - (a * 16777216 + b * 65536 + c * 256 + d)) s e bs)
