-- ===== src/Manager/Tables.antt =====
-- Tables from numbers to values: an object used as a map.
use ssh.Common.{
  ℕ, suc, ◌<◌, ◌≤◌, ◌≡◌, ◌≢◌, refl, ◌∙◌, arith, Bool-cases, Option, none, some, List, [], ◌∷◌, ◌==◌,
  ==_iff, if◌then◌else◌, length, inl, inr,
}
use mathlib.Core.Path.{subst}

abbrev pub Table : Type 0 → Type 0
Table V = List (ℕ × V)

unfoldable pub find : {V : Type 0} → ℕ → Table V → Option V
find k [] = none
find k ((j, w) ∷ t) = let next = find k t in if j == k then some w else next

unfoldable pub put : {V : Type 0} → ℕ → V → Table V → Table V
put k v [] = (k, v) ∷ []
put k v ((j, w) ∷ t) = let next = put k v t in if j == k then (k, v) ∷ t else (j, w) ∷ next

unfoldable pub delete : {V : Type 0} → ℕ → Table V → Table V
delete k [] = []
delete k ((j, w) ∷ t) = let next = delete k t in if j == k then t else (j, w) ∷ next

-- No key stands twice, and every key is below `n`.
unfoldable pub Distinct : {V : Type 0} → Table V → Type 0
Distinct [] = Unit {0}
Distinct ((j, w) ∷ t) = (find j t ≡ none) × Distinct t

unfoldable pub Below : {V : Type 0} → ℕ → Table V → Type 0
Below n [] = Unit {0}
Below n ((j, w) ∷ t) = (j < n) × Below n t

module _ {V : Type 0} where
  pub Below-mono : (m n : ℕ) (t : Table V) → m ≤ n → Below m t → Below n t
  unfolding Below
  Below-mono m n [] le b = tt
  Below-mono m n ((j, w) ∷ t) le (b, bs) = (omega arith, Below-mono m n t le bs)

  pub find-Below : (n : ℕ) (t : Table V) → Below n t → find n t ≡ none
  unfolding find Below
  find-Below n [] b = refl
  find-Below n ((j, w) ∷ t) (b, bs) = ground (arith, find-Below n t bs)

  pub find-put : (k : ℕ) (v : V) (t : Table V) → find k (put k v t) ≡ some v
  unfolding find put
  find-put k v [] = ground arith
  find-put k v ((j, w) ∷ t) = ground (arith, find-put k v t)

  pub find-put_ne : (k i : ℕ) (v : V) (t : Table V) → i ≢ k → find i (put k v t) ≡ find i t
  unfolding find put
  find-put_ne k i v [] h = ground arith
  find-put_ne k i v ((j, w) ∷ t) h = ground (arith, find-put_ne k i v t h)

  pub put-Below : (n k : ℕ) (v : V) (t : Table V) → k < n → Below n t → Below n (put k v t)
  unfolding put Below
  put-Below n k v [] h b = (h, tt)
  put-Below n k v ((j, w) ∷ t) h (b, bs) = elim (Bool-cases (j == k)) [
    | inl e ↦ rw e (h, bs)
    | inr e ↦ rw e (b, put-Below n k v t h bs)
  ]

  pub put-Distinct : (k : ℕ) (v : V) (t : Table V) → Distinct t → Distinct (put k v t)
  unfolding put Distinct find
  put-Distinct k v [] d = (refl, tt)
  put-Distinct k v ((j, w) ∷ t) (d, ds) = elim (Bool-cases (j == k)) [
    | inl e ↦ let same : j ≡ k = (==_iff j k).0 e in rw e (subst (λ i. find i t ≡ none) same d, ds)
    | inr e ↦ rw e (find-put_ne k j v t (ground arith) ∙ d, put-Distinct k v t ds)
  ]

  pub length-put :
      (k : ℕ) (v : V) (t : Table V) → find k t ≡ none → length (put k v t) ≡ suc (length t)
  unfolding put find
  length-put k v [] h = refl
  length-put k v ((j, w) ∷ t) h = ground (arith, length-put k v t)

  pub length-put_old :
      (k : ℕ) (v w : V) (t : Table V) → find k t ≡ some w → length (put k v t) ≡ length t
  unfolding put find
  length-put_old k v u [] h = ground arith
  length-put_old k v u ((j, w) ∷ t) h = ground (arith, length-put_old k v u t)

  pub length-delete :
      (k : ℕ) (w : V) (t : Table V) → find k t ≡ some w → suc (length (delete k t)) ≡ length t
  unfolding delete find
  length-delete k u [] h = ground arith
  length-delete k u ((j, w) ∷ t) h = ground (arith, length-delete k u t)

  pub find-delete_ne : (k i : ℕ) (t : Table V) → i ≢ k → find i (delete k t) ≡ find i t
  unfolding find delete
  find-delete_ne k i [] h = refl
  find-delete_ne k i ((j, w) ∷ t) h = ground (arith, find-delete_ne k i t h)

  pub find-delete : (k : ℕ) (t : Table V) → Distinct t → find k (delete k t) ≡ none
  unfolding find delete Distinct
  find-delete k [] d = refl
  find-delete k ((j, w) ∷ t) (d, ds) = ground (arith, find-delete k t ds)

  pub delete-Below : (n k : ℕ) (t : Table V) → Below n t → Below n (delete k t)
  unfolding delete Below
  delete-Below n k [] b = tt
  delete-Below n k ((j, w) ∷ t) (b, bs) = elim (Bool-cases (j == k)) [
    | inl e ↦ rw e bs
    | inr e ↦ rw e (b, delete-Below n k t bs)
  ]

  pub delete-Distinct : (k : ℕ) (t : Table V) → Distinct t → Distinct (delete k t)
  unfolding delete Distinct
  delete-Distinct k [] d = tt
  delete-Distinct k ((j, w) ∷ t) (d, ds) = elim (Bool-cases (j == k)) [
    | inl e ↦ rw e ds
    | inr e ↦ rw e (find-delete_ne k j t (ground arith) ∙ d, delete-Distinct k t ds)
  ]

  pub find_lt : (n : ℕ) (t : Table V) → Below n t → (k : ℕ) (w : V) → find k t ≡ some w → k < n
  unfolding find Below
  find_lt n [] b k w h = ground arith
  find_lt n ((j, u) ∷ t) (b, bs) k w h = ground (arith, find_lt n t bs k w)
