-- ===== src/Sftp/Stream.antt =====
-- Packets one behind the other, each with its length in front, and what `push` makes of them.
use ssh.Common.{
  ℕ, suc, ◌+◌, ◌*◌, ◌/◌, ◌%◌, ◌^◌, ◌<◌, ◌≤◌, ◌≡◌, refl, ap, ◌∙◌, arith, ◌==◌, false, some, List, [],
  ◌∷◌, ◌++◌, length, ge→ltb_false, Bytes, All,
}
use ssh.Common.Int.{pos, ltb_ℤ}
use ssh.Wire.{u32}
use ssh.Sftp.{frame, between, Verdict, go_on, stop, Pushed, waiting, shift_all, checked, push}
use ssh.Sftp.Bytewise.{after, settled, feed, feed-append, feed_measured, feed_filled}
use ssh.Sftp.Pushing.{measuring}
use ssh.Sftp.Cut.{shift_low, push-append}

-- A packet on the channel.
abbrev pub framed : Bytes → Bytes
framed b = u32 (length b) ++ b

abbrev pub stream : List Bytes → Bytes
stream [] = []
stream (b ∷ bs) = framed b ++ stream bs

shift_all-u32 : (n : ℕ) → n < 2 ^ 31 → shift_all (pos 0) (u32 n) ≡ pos n
shift_all-u32 n h =
    let a = n / 16777216 % 256 in
    let b = n / 65536 % 256 in
    let c = n / 256 % 256 in
    rw
      (
        shift_low 0 a (omega arith),
        shift_low (0 * 256 + a) b (omega arith),
        shift_low ((0 * 256 + a) * 256 + b) c (omega arith),
        shift_low (((0 * 256 + a) * 256 + b) * 256 + c) (n % 256) (omega arith),
      )
      (ap pos (omega arith))

module _ {S : Type 0} (max_len : ℕ) (small : max_len < 2 ^ 31)
    (accept : S → Bytes → Verdict S) where
  -- The packets, one after the other, until one is not gone on from.
  abbrev pub taken : S → List Bytes → Pushed S
  taken s [] = waiting between s
  taken s (b ∷ bs) = after (settled max_len accept (accept s b)) (λ g t. taken t bs)

  -- A packet that push takes.
  abbrev pub IsPacket : Bytes → Type 0
  IsPacket b = (0 < length b) × (length b ≤ max_len)

  feed-framed :
      (s : S) (b : Bytes)
      → IsPacket b
      → feed max_len accept between s (framed b) ≡ settled max_len accept (accept s b)
  feed-framed s [] (some_bytes, h) = absurd (omega arith)
  feed-framed s (x ∷ xs) (some_bytes, h) =
      let n = suc (length xs) in
      let fits : ltb_ℤ (pos max_len) (pos n) ≡ false = ge→ltb_false _ _ (omega arith) in
      let some_length : (n == 0) ≡ false = ground arith in
      let measured : checked max_len accept (frame (shift_all (pos 0) (u32 n)) 4 []) s
          ≡ waiting (frame (pos n) 4 []) s =
        rw (shift_all-u32 n (omega arith), fits, some_length) refl in
      feed-append max_len accept between s (u32 n) (x ∷ xs)
      ∙ ap (λ p. after p (λ g t. feed max_len accept g t (x ∷ xs)))
          (feed_measured max_len accept (pos 0) 0 [] s (n / 16777216 % 256)
              ((n / 65536 % 256) ∷ ((n / 256 % 256) ∷ ((n % 256) ∷ []))) refl
            ∙ measured)
      ∙ feed_filled max_len accept n [] s x xs (omega arith)

  after-settled :
      (v : Verdict S) (rest : Bytes) (bs : List Bytes)
      → ((t : S) → feed max_len accept between t rest ≡ taken t bs)
      → after (settled max_len accept v) (λ g t. feed max_len accept g t rest)
        ≡ after (settled max_len accept v) (λ g t. taken t bs)
  after-settled (go_on t) rest bs h = h t
  after-settled (stop t) rest bs h = refl

  feed-stream :
      (s : S) (bs : List Bytes)
      → All IsPacket bs
      → feed max_len accept between s (stream bs) ≡ taken s bs
  unfolding feed
  feed-stream s [] h = refl
  feed-stream s (b ∷ bs) (h, hs) =
      feed-append max_len accept between s (framed b) (stream bs)
      ∙ ap (λ p. after p (λ g t. feed max_len accept g t (stream bs))) (feed-framed s b h)
      ∙ after-settled (accept s b) (stream bs) bs (λ t. feed-stream t bs hs)

  -- Packets of at least a byte and at most the maximum, which is below 2 ^ 31, each with its length in
  -- front and pushed as one piece of data, are handed over whole and in order, until one of them is not
  -- gone on from, and then `push` stands between packets.
  pub push-stream :
      (s : S) (bs : List Bytes)
      → All IsPacket bs
      → push max_len accept between s (stream bs) ≡ some (taken s bs)
  push-stream s bs h =
      (push-append max_len accept between s [] (stream bs) (measuring (pos 0) 0 (omega arith))).1
      ∙ ap some (feed-stream s bs h)
