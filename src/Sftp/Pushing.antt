-- ===== src/Sftp/Pushing.antt =====
-- `push` against the framing one byte at a time.
use ssh.Common.{
  ℕ, zero, suc, ◌+◌, ◌-◌, ◌<◌, ◌≤◌, ◌≡◌, refl, sym, ap, ◌∙◌, arith, true, false, Bool-cases, Option,
  some, [], ◌∷◌, ◌++◌, length, length-append, take, drop, take-append, drop-append,
  take-append-drop, length-take, min, ltb, lt→ltb, ltb→lt, ge→ltb_false, Bytes, inl, inr,
}
use ssh.Common.Int.{ℤ, pos, negsuc, ltb_ℤ}
use ssh.Sftp.{
  Framing, frame, between, Verdict, go_on, stop, Pushed, waiting, shift_all, checked, push_loop,
  is_zero_ℤ, fill, go, deliver, decided,
}
use mathlib.Core.Path.{subst}
use ssh.Sftp.Bytewise.{
  after, settled, tick, feed, feed-append, feed_measuring, feed_measured, feed_filling, feed_filled,
}

-- Where a packet is: its length is being read, its bytes are, or the length came out negative.
pub data IsFraming : Framing → Type 0 where
  measuring : (len : ℤ) (k : ℕ) → k < 4 → IsFraming (frame len k [])
  filling : (n : ℕ) (st : Bytes) → length st < n → IsFraming (frame (pos n) 4 st)
  negative : (m : ℕ) → IsFraming (frame (negsuc m) 4 [])

module _ {S : Type 0} (max_len : ℕ) (accept : S → Bytes → Verdict S) where
  abbrev Loop : Type 0
  Loop = Framing → S → Bytes → Option (Pushed S)

  abbrev fed : Framing → S → Bytes → Pushed S
  fed = feed max_len accept

  -- `loop` is right on fewer than `n` bytes.
  abbrev IsRight : ℕ → Loop → Type 0
  IsRight n loop =
      (s : S) (ys : Bytes) → length ys < n → loop between s ys ≡ some (fed between s ys)

  deliver_some :
      (loop : Loop) (s : S) (bs rest : Bytes)
      → 0 < length bs
      → deliver max_len accept loop s bs rest ≡ decided max_len accept loop (accept s bs) rest
  deliver_some loop s [] rest h = absurd (omega arith)
  deliver_some loop s (b ∷ bs) rest h = refl

  decided-settled :
      (n : ℕ) (loop : Loop)
      → IsRight n loop
      → (v : Verdict S) (ys : Bytes) → length ys < n
      → decided max_len accept loop v ys
        ≡ some (after (settled max_len accept v) (λ g t. fed g t ys))
  decided-settled n loop r (go_on s) ys h = r s ys h
  decided-settled n loop r (stop s) ys h = refl

  fill_whole :
      (loop : Loop) (n : ℕ) (st : Bytes) (s : S) (xs ys : Bytes)
      → length st + length xs ≡ n
      → 0 < length xs
      → fill max_len accept loop (frame (pos n) 4 st) s (xs ++ ys)
        ≡ decided max_len accept loop (accept s (st ++ xs)) ys
  fill_whole loop n st s xs ys h p =
      let nb : min (n - length st) (length (xs ++ ys)) ≡ length xs =
        omega (arith, length-append xs ys) in
      let short : ltb_ℤ (pos (length st)) (pos n) ≡ true = lt→ltb _ _ (omega arith) in
      let full : ltb_ℤ (pos (length (st ++ xs))) (pos n) ≡ false =
        ge→ltb_false _ _ (omega (arith, length-append st xs)) in
      rw (nb, take-append xs ys, drop-append xs ys, short, full)
        (deliver_some loop s (st ++ xs) ys (omega (arith, length-append st xs)))

  take_all : (xs : Bytes) → take (length xs) xs ≡ xs
  take_all [] = refl
  take_all (x ∷ xs) = ap (◌∷◌ x) (take_all xs)

  fill_part :
      (loop : Loop) (n : ℕ) (st : Bytes) (s : S) (xs : Bytes)
      → length st + length xs < n
      → fill max_len accept loop (frame (pos n) 4 st) s xs
        ≡ some (waiting (frame (pos n) 4 (st ++ xs)) s)
  fill_part loop n st s xs h =
      let nb : min (n - length st) (length xs) ≡ length xs = omega arith in
      let short : ltb_ℤ (pos (length st)) (pos n) ≡ true = lt→ltb _ _ (omega arith) in
      let still : ltb_ℤ (pos (length (st ++ xs))) (pos n) ≡ true =
        lt→ltb _ _ (omega (arith, length-append st xs)) in
      rw (nb, take_all xs, short, still) refl

  fed_whole :
      (n : ℕ) (st : Bytes) (s : S) (xs ys : Bytes)
      → length st + length xs ≡ n
      → 0 < length xs
      → fed (frame (pos n) 4 st) s (xs ++ ys)
        ≡ after (settled max_len accept (accept s (st ++ xs))) (λ g t. fed g t ys)
  fed_whole n st s [] ys h p = absurd (omega arith)
  fed_whole n st s (x ∷ xs) ys h p =
      feed-append max_len accept (frame (pos n) 4 st) s (x ∷ xs) ys
      ∙ ap (λ q. after q (λ g t. fed g t ys)) (feed_filled max_len accept n st s x xs h)

  fill_split :
      (N : ℕ) (loop : Loop)
      → IsRight N loop
      → (n : ℕ) (st : Bytes) (s : S) (xs ys : Bytes) → length st + length xs ≡ n
      → 0 < length xs
      → length ys < N
      → fill max_len accept loop (frame (pos n) 4 st) s (xs ++ ys)
        ≡ some (fed (frame (pos n) 4 st) s (xs ++ ys))
  fill_split N loop r n st s xs ys h p l =
      fill_whole loop n st s xs ys h p
      ∙ decided-settled N loop r (accept s (st ++ xs)) ys l
      ∙ sym (ap some (fed_whole n st s xs ys h p))

  cut :
      (m : ℕ) (rest : Bytes)
      → m ≤ length rest
      → (take m rest ++ drop m rest ≡ rest)
        × (length (take m rest) ≡ m)
        × (length (drop m rest) ≡ length rest - m)
  cut m rest h = (
    take-append-drop m rest,
    length-take m rest ∙ omega arith,
    omega (
      arith,
      ap length (take-append-drop m rest),
      length-append (take m rest) (drop m rest),
      length-take m rest,
    ),
  )

  fill-fed :
      (N : ℕ) (loop : Loop)
      → IsRight N loop
      → (n : ℕ) (st : Bytes) (s : S) (rest : Bytes) → length st < n
      → length rest ≤ N
      → 0 < length rest
      → fill max_len accept loop (frame (pos n) 4 st) s rest
        ≡ some (fed (frame (pos n) 4 st) s rest)
  fill-fed N loop r n st s rest h l p = elim (Bool-cases (ltb (length st + length rest) n)) [
    | inl e ↦
        fill_part loop n st s rest (ltb→lt _ _ e)
        ∙ sym (ap some (feed_filling max_len accept n st s rest (ltb→lt _ _ e)))
    | inr e ↦
        let m = n - length st in
        let fits : m ≤ length rest = ground arith in
        let (whole, front, back) = cut m rest fits in
        subst
          (λ bs.
            fill max_len accept loop (frame (pos n) 4 st) s bs
            ≡ some (fed (frame (pos n) 4 st) s bs))
          whole
          (fill_split N loop r n st s (take m rest) (drop m rest) (omega (arith, front))
            (omega (arith, front)) (omega (arith, back)))
  ]

  fill-negative :
      (loop : Loop) (m : ℕ) (s : S) (b : ℕ) (bs : Bytes)
      → fill max_len accept loop (frame (negsuc m) 4 []) s (b ∷ bs)
        ≡ some (fed (frame (negsuc m) 4 []) s (b ∷ bs))
  unfolding feed tick
  fill-negative loop m s b bs = ground arith

  -- The state behind four bytes of length.
  go-fed :
      (N : ℕ) (loop : Loop)
      → IsRight N loop
      → (len : ℤ) (s : S) (ys : Bytes) → length ys ≤ N
      → go max_len accept (checked max_len accept (frame len 4 []) s) ys (fill max_len accept loop)
        ≡ some (after (checked max_len accept (frame len 4 []) s) (λ g t. fed g t ys))
  unfolding feed
  go-fed N loop r (pos zero) s ys l = refl
  go-fed N loop r (pos (suc n)) s ys l =
      let set : is_zero_ℤ (pos (suc n)) ≡ false = ground arith in
      elim (Bool-cases (ltb_ℤ (pos max_len) (pos (suc n)))) [
        | inl e ↦ rw (set, e) refl
        | inr e ↦ rw (set, e) (going ys l)
      ]
    where
      going :
          (ys : Bytes)
          → length ys ≤ N
          → go max_len accept (waiting (frame (pos (suc n)) 4 []) s) ys (fill max_len accept loop)
            ≡ some (fed (frame (pos (suc n)) 4 []) s ys)
      going [] l = refl
      going (y ∷ ys) l = fill-fed N loop r (suc n) [] s (y ∷ ys) (omega arith) l (omega arith)
  go-fed N loop r (negsuc m) s [] l =
      let below : ltb_ℤ (pos max_len) (negsuc m) ≡ false = ge→ltb_false _ _ (omega arith) in
      rw below refl
  go-fed N loop r (negsuc m) s (y ∷ ys) l =
      let below : ltb_ℤ (pos max_len) (negsuc m) ≡ false = ge→ltb_false _ _ (omega arith) in
      rw below (fill-negative loop m s y ys)

  length_split :
      (fuel : ℕ)
      → IsRight fuel (push_loop max_len accept fuel)
      → (len : ℤ) (k : ℕ) (s : S) (xs ys : Bytes) → k < 4
      → k + length xs ≡ 4
      → length ys ≤ fuel
      → push_loop max_len accept (suc fuel) (frame len k []) s (xs ++ ys)
        ≡ some (fed (frame len k []) s (xs ++ ys))
  unfolding push_loop
  length_split fuel r len k s [] ys h four l = absurd (omega arith)
  length_split fuel r len k s (x ∷ xs) ys h four l =
      let nb : min (4 - k) (length (x ∷ (xs ++ ys))) ≡ length (x ∷ xs) =
        omega (arith, length-append xs ys) in
      let here = shift_all len (x ∷ xs) in
      rw (nb, take-append xs ys, drop-append xs ys, lt→ltb k 4 h, four)
        (go-fed fuel (push_loop max_len accept fuel) r here s ys l
          ∙ ap some (
              sym (
                feed-append max_len accept (frame len k []) s (x ∷ xs) ys
                ∙ ap (λ q. after q (λ g t. fed g t ys))
                    (feed_measured max_len accept len k [] s x xs four))))

  length_part :
      (fuel : ℕ) (len : ℤ) (k : ℕ) (s : S) (b : ℕ) (bs : Bytes)
      → k + length (b ∷ bs) < 4
      → push_loop max_len accept (suc fuel) (frame len k []) s (b ∷ bs)
        ≡ some (fed (frame len k []) s (b ∷ bs))
  unfolding push_loop
  length_part fuel len k s b bs h =
      let nb : min (4 - k) (length (b ∷ bs)) ≡ length (b ∷ bs) = omega arith in
      rw (nb, take_all bs, lt→ltb k 4 (omega arith), lt→ltb (k + length (b ∷ bs)) 4 h)
        (sym (ap some (feed_measuring max_len accept len k [] s (b ∷ bs) h)))

  -- With fuel for every byte and one more, `push` returns, and does what the bytes do one at a time.
  pub push_loop-feed :
      (fuel : ℕ) (f : Framing) (s : S) (rest : Bytes)
      → IsFraming f
      → length rest < fuel
      → push_loop max_len accept fuel f s rest ≡ some (fed f s rest)
  unfolding push_loop feed
  push_loop-feed zero f s rest h l = absurd (omega arith)
  push_loop-feed (suc fuel) f s [] h l = refl
  push_loop-feed (suc fuel) f s (b ∷ bs) (filling n st h) l =
      fill-fed fuel (push_loop max_len accept fuel)
        (λ t ys l'. push_loop-feed fuel between t ys (measuring (pos 0) 0 (omega arith)) l') n st s
        (b ∷ bs) h (omega arith) (omega arith)
  push_loop-feed (suc fuel) f s (b ∷ bs) (negative m) l =
      fill-negative (push_loop max_len accept fuel) m s b bs
  push_loop-feed (suc fuel) f s (b ∷ bs) (measuring len k h) l =
      elim (Bool-cases (ltb (k + length (b ∷ bs)) 4)) [
        | inl e ↦ length_part fuel len k s b bs (ltb→lt _ _ e)
        | inr e ↦
            let (whole, front, back) = cut (4 - k) (b ∷ bs) (ground arith) in
            subst
              (λ rest.
                push_loop max_len accept (suc fuel) (frame len k []) s rest
                ≡ some (fed (frame len k []) s rest))
              whole
              (length_split fuel
                (λ t ys l'. push_loop-feed fuel between t ys (measuring (pos 0) 0 (omega arith)) l')
                len k s (take (4 - k) (b ∷ bs)) (drop (4 - k) (b ∷ bs)) h (omega (arith, front))
                (omega (arith, back)))
      ]
