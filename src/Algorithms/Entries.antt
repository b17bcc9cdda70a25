-- ===== src/Algorithms/Entries.antt =====
-- Lists of algorithms of lib/utils.js: that none is there twice, and which stay when one is added or removed.
use ssh.Common.{
  ◌≡◌, refl, ap, ◌∙◌, arith, Bool, true, false, Bool-cases, ◌||◌, none, some, List, [], ◌∷◌, map,
  same, same_refl, same→≡, inl, inr, All-append, Bytes, All,
}
use ssh.Algorithms.{
  Entry, same_entry, found, test, reverse, push_entry, remove_first, remove_matching,
}

abbrev pub IsDistinct : List Entry → Type 0
IsDistinct [] = Unit
IsDistinct (x ∷ xs) = (found xs x ≡ false) × IsDistinct xs

-- Each entry is one of the allowed ones, and none is there twice.
abbrev pub IsSound : List Entry → List Entry → Type 0
IsSound allowed list = All (λ e. found allowed e ≡ true) list × IsDistinct list

same_sym : (a b : Bytes) → same a b ≡ false → same b a ≡ false
same_sym a b h = elim (Bool-cases (same b a)) [
  | inl e ↦
      let t : same a b ≡ true = ap (same a) (same→≡ b a e) ∙ same_refl a in
      absurd (ground (arith, t, h))
  | inr e ↦ e
]

same_entry_sym : (a b : Entry) → same_entry a b ≡ false → same_entry b a ≡ false
same_entry_sym none none h = h
same_entry_sym none (some b) h = refl
same_entry_sym (some a) none h = refl
same_entry_sym (some a) (some b) h = same_sym a b h

pub or_false : (a b : Bool) → (a || b) ≡ false → (a ≡ false) × (b ≡ false)
or_false true b h = absurd (ground (arith, h))
or_false false b h = (refl, h)

found-push_entry :
    (xs : List Entry) (y e : Entry)
    → found xs e ≡ false
    → same_entry y e ≡ false
    → found (push_entry y xs) e ≡ false
found-push_entry [] y e h k = rw k refl
found-push_entry (x ∷ xs) y e h k =
    let (hx, hs) = or_false (same_entry x e) (found xs e) h in rw hx (found-push_entry xs y e hs k)

pub push_entry-IsDistinct :
    (xs : List Entry) (y : Entry)
    → IsDistinct xs
    → found xs y ≡ false
    → IsDistinct (push_entry y xs)
push_entry-IsDistinct [] y d h = (refl, tt)
push_entry-IsDistinct (x ∷ xs) y (hx, d) h =
    let (k, hs) = or_false (same_entry x y) (found xs y) h in
    (found-push_entry xs y x hx (same_entry_sym x y k), push_entry-IsDistinct xs y d hs)

pub found-remove_first :
    (x : Entry) (list : List Entry) (e : Entry)
    → found list e ≡ false
    → found (remove_first x list) e ≡ false
found-remove_first x [] e h = refl
found-remove_first x (y ∷ ys) e h =
    let (hy, hs) = or_false (same_entry y e) (found ys e) h in
    elim (Bool-cases (same_entry y x)) [
      | inl t ↦ rw t hs
      | inr t ↦ rw (t, hy) (found-remove_first x ys e hs)
    ]

pub found-remove_matching :
    (re : Bytes → Bool) (list : List Entry) (e : Entry)
    → found list e ≡ false
    → found (remove_matching re list) e ≡ false
found-remove_matching re [] e h = refl
found-remove_matching re (y ∷ ys) e h =
    let (hy, hs) = or_false (same_entry y e) (found ys e) h in
    elim (Bool-cases (test re y)) [
      | inl t ↦ rw t (found-remove_matching re ys e hs)
      | inr t ↦ rw (t, hy) (found-remove_matching re ys e hs)
    ]

or_true : (a b : Bool) → b ≡ true → (a || b) ≡ true
or_true true b h = refl
or_true false b h = h

same_entry_refl : (e : Entry) → same_entry e e ≡ true
same_entry_refl none = refl
same_entry_refl (some a) = same_refl a

pub all_self :
    (xs allowed : List Entry)
    → ((e : Entry) → found xs e ≡ true → found allowed e ≡ true)
    → All (λ e. found allowed e ≡ true) xs
all_self [] allowed h = tt
all_self (x ∷ xs) allowed h = (
  h x (rw (same_entry_refl x) refl),
  all_self xs allowed (λ e f. h e (or_true (same_entry x e) (found xs e) f)),
)

pub weaken :
    (supported : List Entry) (e : Entry)
    → found supported e ≡ true
    → found (none ∷ supported) e ≡ true
weaken supported e f = or_true (same_entry none e) (found supported e) f

pub all_reverse : (P : Entry → Type 0) (xs : List Entry) → All P xs → All P (reverse xs)
all_reverse P [] h = tt
all_reverse P (x ∷ xs) (h, hs) = All-append P (reverse xs) (x ∷ []) (all_reverse P xs hs) (h, tt)

pub all_weaken :
    (supported list : List Entry)
    → All (λ e. found supported e ≡ true) list
    → All (λ e. found (none ∷ supported) e ≡ true) list
all_weaken supported [] h = tt
all_weaken supported (e ∷ es) (h, hs) = (weaken supported e h, all_weaken supported es hs)

pub found-texts : (xs : List Bytes) → found (map some xs) none ≡ false
found-texts [] = refl
found-texts (x ∷ xs) = found-texts xs
