-- ===== src/Kex/Payload.antt =====
-- What `kexinit` of lib/protocol/kex.js stores, in both branches, and that it is read back.
use ssh.Common.{
  ℕ, suc, zero, ◌+◌, ◌-◌, ◌≡◌, refl, sym, ap, ◌∙◌, arith, Bool, false, ◌&&◌, some, [], ◌∷◌, ◌++◌,
  append_assoc, append-nil, length, length-append, length-take, length-drop, take, drop,
  take-append, drop-append, Bytes,
}
use ssh.Kex.Offer.{
  Lists, IsOffer, all_lists, alloc, put, zeros, zero_filled, stamped, kexinit_payload,
  has_group_exchange, parse_kexinit, parse_kexinit-lists,
}

length-alloc : (memory : ℕ → ℕ) (n : ℕ) → length (alloc memory n) ≡ n
length-alloc memory zero = refl
length-alloc memory (suc n) = ap suc (length-alloc memory n)

put_over :
    (front old tail bytes : Bytes) (p : ℕ)
    → p ≡ length front
    → length old ≡ length bytes
    → put (front ++ (old ++ tail)) p bytes ≡ front ++ (bytes ++ tail)
put_over front old tail bytes p at_p same =
    let all = front ++ (old ++ tail) in
    let before : take p all ≡ front = ap (λ n. take n all) at_p ∙ take-append front (old ++ tail) in
    let past : p + length bytes ≡ length (front ++ old) =
      omega (arith, at_p, same, length-append front old) in
    let after : drop (p + length bytes) all ≡ tail =
      ap (λ n. drop n all) past
      ∙ ap (λ b. drop (length (front ++ old)) b) (sym (append_assoc front old tail))
      ∙ drop-append (front ++ old) tail in
    ap (λ b. b ++ (bytes ++ drop (p + length bytes) all)) before
    ∙ ap (λ b. front ++ (bytes ++ b)) after

zero_filled-tail :
    (front tail : Bytes) → length tail ≡ 5 → zero_filled (front ++ tail) ≡ front ++ zeros
zero_filled-tail front tail h =
    let end : length (front ++ tail) - 5 ≡ length front =
      omega (arith, h, length-append front tail) in
    ap (λ b. put (front ++ b) (length (front ++ tail) - 5) zeros) (sym (append-nil tail))
    ∙ put_over front tail [] zeros (length (front ++ tail) - 5) end h
    ∙ ap (λ b. front ++ b) (append-nil zeros)

-- What the last stores make of a buffer with 17 bytes in front and 5 behind.
stamped-parts :
    (cookie front lists tail : Bytes)
    → length cookie ≡ 16
    → length front ≡ 17
    → length tail ≡ 5
    → stamped cookie (front ++ (lists ++ tail)) ≡ 20 ∷ (cookie ++ (lists ++ zeros))
stamped-parts cookie [] lists tail hc hf ht = absurd (omega (arith, hf))
stamped-parts cookie (x ∷ front) lists tail hc hf ht =
    ap (λ b. zero_filled (put b 1 cookie))
      (put_over [] (x ∷ []) (front ++ (lists ++ tail)) (20 ∷ []) 0 refl refl)
    ∙ ap zero_filled
        (put_over (20 ∷ []) front (lists ++ tail) cookie 1 refl (omega (arith, hf, hc)))
    ∙ ap (λ b. zero_filled (20 ∷ b)) (sym (append_assoc cookie lists tail))
    ∙ zero_filled-tail (20 ∷ (cookie ++ lists)) tail ht
    ∙ ap (λ b. 20 ∷ b) (append_assoc cookie lists zeros)

-- Lists stored from 17 in a buffer that they fill but for 5 bytes.
stamped-put :
    (cookie buffer lists : Bytes)
    → length cookie ≡ 16
    → length buffer ≡ 17 + length lists + 5
    → stamped cookie (put buffer 17 lists) ≡ 20 ∷ (cookie ++ (lists ++ zeros))
stamped-put cookie buffer lists hc hb =
    stamped-parts cookie (take 17 buffer) lists (drop (17 + length lists) buffer) hc
      (length-take 17 buffer ∙ omega (arith, hb))
      (length-drop (17 + length lists) buffer ∙ omega (arith, hb))

all_lists-append : (l : Lists) (rest : Bytes) → all_lists l [] ++ rest ≡ all_lists l rest
all_lists-append l rest = simp (append_assoc)

-- A KEXINIT that was written without the group exchange filter is read back.
pub parse_kexinit-kexinit_payload :
    (bad_dhgex : Bool) (cookie : Bytes) (memory : ℕ → ℕ) (l : Lists)
    → IsOffer l
    → length cookie ≡ 16
    → (bad_dhgex && has_group_exchange l.kex) ≡ false
    → parse_kexinit (kexinit_payload bad_dhgex cookie memory l) ≡ some (l, false)
unfolding kexinit_payload
parse_kexinit-kexinit_payload bad_dhgex cookie memory l h n off =
    let size = 1 + 16 + length (all_lists l []) + 1 + 4 in
    rw off (
      ap parse_kexinit (
        stamped-put cookie (alloc memory size) (all_lists l []) n
          (length-alloc memory size ∙ omega arith)
        ∙ ap (λ b. 20 ∷ (cookie ++ b)) (all_lists-append l zeros))
      ∙ parse_kexinit-lists cookie l h n)
