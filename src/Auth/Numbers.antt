-- ===== src/Auth/Numbers.antt =====
-- A signature of OpenSSL on its way to the wire and back: the two numbers of DSA and of ECDSA.
use ssh.Common.{
  ℕ, suc, ◌+◌, ◌<◌, ◌≤◌, ◌≡◌, refl, sym, ap, ◌∙◌, arith, true, false, Option, some, [], ◌∷◌, ◌++◌,
  ◌⊎◌, append-nil, length, length-append, take, drop, take-append, drop-append, get_or, leb, ◌==◌,
  Bytes, IsU32, le→leb, lt→ltb,
}
use ssh.Wire.Encode.{str, read_string-str}
use ssh.Auth.Signature.{is_dss, is_ecdsa, to_integer, to_bare, sig_ssh_to_asn1, convert_signature}

-- A positive integer of BER of 19, 20 or 21 bytes, without a byte to spare, below 2 ^ 160.
pub data IsInteger : Bytes → Type 0 where
  short : (b : Bytes) → length b ≡ 19 → get_or b 0 0 < 128 → IsInteger b
  exact :
      (a b : ℕ) (bs : Bytes)
      → length bs ≡ 18
      → a < 128
      → (0 < a) ⊎ (128 ≤ b)
      → IsInteger (a ∷ (b ∷ bs))
  long : (b : Bytes) → length b ≡ 20 → 128 ≤ get_or b 0 0 → IsInteger (0 ∷ b)

drop-whole : (n : ℕ) (b : Bytes) → length b ≡ n → drop n b ≡ []
drop-whole n b h =
    ap (λ k. drop k b) (sym h) ∙ ap (drop (length b)) (sym (append-nil b)) ∙ drop-append b []

behind_zero-filled :
    (n : ℕ) (memory b : Bytes)
    → length b ≡ n
    → length memory ≡ suc n
    → b ++ drop (1 + length b) memory ≡ b
behind_zero-filled n memory b h hm =
    rw (drop-whole (1 + length b) memory (omega arith)) (append-nil b)

-- The 20 bytes on the wire.
abbrev pub bare : (b : Bytes) → IsInteger b → Bytes
bare _ (short b h low) = 0 ∷ b
bare _ (exact a b bs h low sure) = a ∷ (b ∷ bs)
bare _ (long b h high) = b

length-bare : (b : Bytes) (k : IsInteger b) → length (bare b k) ≡ 20
length-bare _ (short b h low) = omega arith
length-bare _ (exact a b bs h low sure) = omega arith
length-bare _ (long b h high) = h

module _ (fresh : ℕ → Bytes) (whole : (n : ℕ) → length (fresh n) ≡ n) where
  to_bare-bare : (b : Bytes) (k : IsInteger b) → to_bare fresh b ≡ bare b k
  unfolding to_bare
  to_bare-bare _ (short b h low) =
      rw (lt→ltb (length b) 20 (omega arith), behind_zero-filled 19 (fresh 20) b h (whole 20), h)
        refl
  to_bare-bare _ (exact a b bs h low sure) = ground arith
  to_bare-bare _ (long b h high) = ground arith

  to_integer-bare : (b : Bytes) (k : IsInteger b) → to_integer fresh (bare b k) ≡ b
  unfolding to_integer
  to_integer-bare _ (short b h low) = ground arith
  to_integer-bare _ (exact a b bs h low sure) = ground arith
  to_integer-bare _ (long b h high) =
      rw (le→leb 128 (get_or b 0 0) high, behind_zero-filled 20 (fresh 21) b h (whole 21)) refl

  -- Both ways: the bytes on the wire, and OpenSSL's signature again.
  module _ (write_ber : Bytes → Bytes → Bytes) (read_ber : Bytes → Option (Bytes × Bytes))
      (type r s : Bytes) where
    -- A DSA signature of two canonical positive integers of 19 to 21 bytes, written by a BER writer that
    -- the reader undoes and longer than 40 bytes then, is converted to 40 bytes, the same that OpenSSH
    -- puts on the wire, and converted back to the signature.
    pub convert_signature-dss :
        is_dss type ≡ true
        → (k : IsInteger r) → (l : IsInteger s) → 40 < length (write_ber r s)
        → read_ber (write_ber r s) ≡ some (r, s)
        → (convert_signature read_ber fresh fresh (write_ber r s) type
            ≡ some (bare r k ++ bare s l))
          × (length (bare r k ++ bare s l) ≡ 40)
          × (sig_ssh_to_asn1 write_ber fresh fresh (bare r k ++ bare s l) type
              ≡ some (write_ber r s))
    unfolding convert_signature sig_ssh_to_asn1
    convert_signature-dss dss k l long_enough law =
        let wire = bare r k ++ bare s l in
        let size : length wire ≡ 40 =
          omega (arith, length-append (bare r k) (bare s l), length-bare r k, length-bare s l) in
        let over : leb (length (write_ber r s)) 40 ≡ false = ground arith in
        let first : take 20 wire ≡ bare r k =
          ap (λ n. take n wire) (sym (length-bare r k)) ∙ take-append (bare r k) (bare s l) in
        let second : drop 20 wire ≡ bare s l =
          ap (λ n. drop n wire) (sym (length-bare r k)) ∙ drop-append (bare r k) (bare s l) in
        (
          rw (dss, over, law, to_bare-bare r k, to_bare-bare s l) refl,
          size,
          rw (dss, size, first, second, to_integer-bare r k, to_integer-bare s l) refl,
        )

    -- An ECDSA signature of two integers whose lengths fit a uint32, written by a BER writer that the
    -- reader undoes and that begins with no zero byte, is converted to two strings and back.
    pub convert_signature-ecdsa :
        is_dss type ≡ false
        → is_ecdsa type ≡ true
        → IsU32 (length r)
        → IsU32 (length s)
        → (get_or (write_ber r s) 0 1 == 0) ≡ false
        → read_ber (write_ber r s) ≡ some (r, s)
        → (convert_signature read_ber fresh fresh (write_ber r s) type ≡ some (str r ++ str s))
          × (sig_ssh_to_asn1 write_ber fresh fresh (str r ++ str s) type ≡ some (write_ber r s))
    unfolding convert_signature sig_ssh_to_asn1
    convert_signature-ecdsa dss ecdsa h_r h_s tagged law = (
      rw (dss, ecdsa, tagged, law) refl,
      rw (dss, ecdsa)
          (simp (
            sym (append-nil (str s)),
            read_string-str [] (str s ++ []) r h_r,
            read_string-str (str r) [] s h_s,
          )),
    )
