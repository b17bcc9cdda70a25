-- ===== src/Sftp/Bytewise.antt =====
-- The framing one byte at a time, and `push` against it.
use ssh.Common.{
  ℕ, suc, ◌+◌, ◌<◌, ◌≡◌, refl, sym, ap, ◌∙◌, arith, true, false, [], ◌∷◌, ◌++◌, append-nil,
  append_assoc, length, length-append, ltb, lt→ltb, ge→ltb_false, if◌then◌else◌, Bytes,
}
use ssh.Common.Int.{ℤ, pos, ltb_ℤ}
use ssh.Sftp.{
  Framing, frame, between, Verdict, go_on, stop, Pushed, waiting, stopped, invalid_length, too_long,
  type_error, shift_in, shift_all, checked,
}

abbrev pub after : {S : Type 0} → Pushed S → (Framing → S → Pushed S) → Pushed S
after (waiting f s) next = next f s
after (stopped s) next = stopped s
after (invalid_length s) next = invalid_length s
after (too_long n s) next = too_long n s
after (type_error s) next = type_error s

module _ {S : Type 0} (max_len : ℕ) (accept : S → Bytes → Verdict S) where
  abbrev pub settled : Verdict S → Pushed S
  settled (go_on s) = waiting between s
  settled (stop s) = stopped s

  -- A byte of the packet itself.
  abbrev pub store : Framing → S → ℕ → Pushed S
  store f s b =
      let stored' = f.stored ++ b ∷ [] in
      if ltb_ℤ (pos (length f.stored)) f.len
      then if ltb_ℤ (pos (length stored')) f.len
        then waiting (frame f.len f.len_bytes stored') s
        else settled (accept s stored')
      else type_error s

  -- One byte.
  unfoldable pub tick : Framing → S → ℕ → Pushed S
  tick f s b =
      let f' = frame (shift_in f.len b) (suc f.len_bytes) f.stored in
      if ltb f.len_bytes 4
      then if ltb (suc f.len_bytes) 4 then waiting f' s else checked max_len accept f' s
      else store f s b

  unfoldable pub feed : Framing → S → Bytes → Pushed S
  feed f s [] = waiting f s
  feed f s (b ∷ bs) = after (tick f s b) (λ g t. feed g t bs)

  after_assoc :
      (p : Pushed S) (h k : Framing → S → Pushed S)
      → after (after p h) k ≡ after p (λ g t. after (h g t) k)
  after_assoc (waiting f s) h k = refl
  after_assoc (stopped s) h k = refl
  after_assoc (invalid_length s) h k = refl
  after_assoc (too_long n s) h k = refl
  after_assoc (type_error s) h k = refl

  pub feed-append :
      (f : Framing) (s : S) (xs ys : Bytes)
      → feed f s (xs ++ ys) ≡ after (feed f s xs) (λ g t. feed g t ys)
  unfolding feed
  feed-append f s [] ys = refl
  feed-append f s (x ∷ xs) ys =
      ap (after (tick f s x)) (λ i g t. feed-append g t xs ys i)
      ∙ sym (after_assoc (tick f s x) (λ g t. feed g t xs) (λ g t. feed g t ys))

  pub feed_measuring :
      (len : ℤ) (k : ℕ) (st : Bytes) (s : S) (xs : Bytes)
      → k + length xs < 4
      → feed (frame len k st) s xs ≡ waiting (frame (shift_all len xs) (k + length xs) st) s
  unfolding feed tick
  feed_measuring len k st s [] h = ap (λ j. waiting (frame len j st) s) (omega arith)
  feed_measuring len k st s (x ∷ xs) h =
      rw (lt→ltb k 4 (omega arith), lt→ltb (suc k) 4 (omega arith))
        (feed_measuring (shift_in len x) (suc k) st s xs (omega arith)
          ∙ ap (λ j. waiting (frame (shift_all len (x ∷ xs)) j st) s) (omega arith))

  after_checked :
      (f : Framing) (s : S)
      → after (checked max_len accept f s) waiting ≡ checked max_len accept f s
  after_checked f s = ground arith

  pub feed_measured :
      (len : ℤ) (k : ℕ) (st : Bytes) (s : S) (x : ℕ) (xs : Bytes)
      → k + suc (length xs) ≡ 4
      → feed (frame len k st) s (x ∷ xs)
        ≡ checked max_len accept (frame (shift_all len (x ∷ xs)) 4 st) s
  unfolding feed tick
  feed_measured len k st s x [] h =
      let three : k ≡ 3 = omega arith in rw three (after_checked (frame (shift_in len x) 4 st) s)
  feed_measured len k st s x (y ∷ xs) h =
      rw (lt→ltb k 4 (omega arith), lt→ltb (suc k) 4 (omega arith))
        (feed_measured (shift_in len x) (suc k) st s y xs (omega arith))

  after_settled : (v : Verdict S) → after (settled v) waiting ≡ settled v
  after_settled (go_on s) = refl
  after_settled (stop s) = refl

  room :
      (st : Bytes) (x n : ℕ)
      → length st + 1 < n
      → (ltb_ℤ (pos (length st)) (pos n) ≡ true)
        × (ltb_ℤ (pos (length (st ++ x ∷ []))) (pos n) ≡ true)
  room st x n h = (lt→ltb _ _ (omega arith), lt→ltb _ _ (omega (arith, length-append st (x ∷ []))))

  full :
      (st : Bytes) (x n : ℕ)
      → length st + 1 ≡ n
      → (ltb_ℤ (pos (length st)) (pos n) ≡ true)
        × (ltb_ℤ (pos (length (st ++ x ∷ []))) (pos n) ≡ false)
  full st x n h =
      (lt→ltb _ _ (omega arith), ge→ltb_false _ _ (omega (arith, length-append st (x ∷ []))))

  pub feed_filling :
      (n : ℕ) (st : Bytes) (s : S) (xs : Bytes)
      → length st + length xs < n
      → feed (frame (pos n) 4 st) s xs ≡ waiting (frame (pos n) 4 (st ++ xs)) s
  unfolding feed tick
  feed_filling n st s [] h = rw append-nil
  feed_filling n st s (x ∷ xs) h =
      let (a, b) = room st x n (omega arith) in
      rw (a, b)
        (feed_filling n (st ++ x ∷ []) s xs (omega (arith, length-append st (x ∷ [])))
          ∙ rw (append_assoc st (x ∷ []) xs))

  pub feed_filled :
      (n : ℕ) (st : Bytes) (s : S) (x : ℕ) (xs : Bytes)
      → length st + suc (length xs) ≡ n
      → feed (frame (pos n) 4 st) s (x ∷ xs) ≡ settled (accept s (st ++ x ∷ xs))
  unfolding feed tick
  feed_filled n st s x [] h =
      let (a, b) = full st x n (omega arith) in rw (a, b) (after_settled (accept s (st ++ x ∷ [])))
  feed_filled n st s x (y ∷ xs) h =
      let (a, b) = room st x n (omega arith) in
      rw (a, b)
        (feed_filled n (st ++ x ∷ []) s y xs (omega (arith, length-append st (x ∷ [])))
          ∙ rw (append_assoc st (x ∷ []) (y ∷ xs)))
