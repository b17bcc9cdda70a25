-- ===== src/Common/Texts.antt =====
-- Texts as the lists of their bytes: equality, membership in a list of texts, and substrings.
use Prim.Native.Nat.{ℕ}
use mathlib.Core.Path.{◌≡◌, refl}
use mathlib.Core.Bool.{Bool, true, false, ◌&&◌, ◌||◌}
use mathlib.Core.List.{List, [], ◌∷◌}
use native.Mathlib.Omega.{arith}
use ssh.Common.Tests.{◌==◌, ==_iff}

unfoldable pub same : List ℕ → List ℕ → Bool
same [] [] = true
same (x ∷ xs) (y ∷ ys) = x == y && same xs ys
same _ _ = false

and_true : (a b : Bool) → (a && b) ≡ true → (a ≡ true) × (b ≡ true)
and_true true b h = (refl, h)
and_true false b h = ground arith

pub same_refl : (a : List ℕ) → same a a ≡ true
unfolding same
same_refl [] = refl
same_refl (x ∷ xs) = rw ((==_iff x x).1 refl) (same_refl xs)

pub same→≡ : (a b : List ℕ) → same a b ≡ true → a ≡ b
unfolding same
same→≡ [] [] h = refl
same→≡ [] (y ∷ ys) h = ground arith
same→≡ (x ∷ xs) [] h = ground arith
same→≡ (x ∷ xs) (y ∷ ys) h =
    let (hx, hs) = and_true (x == y) (same xs ys) h in
    let ex : x ≡ y = (==_iff x y).0 hx in let es : xs ≡ ys = same→≡ xs ys hs in λ i. ex i ∷ es i

-- `list.indexOf(text) !== -1`.
unfoldable pub has : List (List ℕ) → List ℕ → Bool
has [] a = false
has (b ∷ bs) a = same b a || has bs a

-- `text.indexOf(piece) !== -1`.
starts_with : List ℕ → List ℕ → Bool
starts_with [] b = true
starts_with (x ∷ xs) [] = false
starts_with (x ∷ xs) (y ∷ ys) = x == y && starts_with xs ys

unfoldable pub contains : List ℕ → List ℕ → Bool
unfolding starts_with
contains piece [] = starts_with piece []
contains piece (x ∷ xs) = starts_with piece (x ∷ xs) || contains piece xs
