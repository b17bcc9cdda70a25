-- ===== src/Algorithms/Sound.antt =====
-- What a list of algorithms of lib/utils.js holds after `generateAlgorithmList`.
use ssh.Common.{
  append_assoc, sym, ◌++◌, Bool-cases, inl, inr, ◌≡◌, refl, ap, ◌∙◌, Bool, true, Bool-cases, Option,
  none, some, List, [], ◌∷◌, map, codes, inl, inr, if◌then◌else◌, Bytes,
}
use mathlib.Core.Path.{subst}
use ssh.Algorithms.{
  test, Entry, found, test, regexp, Key, prepend, Value, one, edits, reverse, unshift_entry,
  put_new, put_matching, put_one, then_list, put_all, edit, edit_all, generate_algorithm_list,
}
use ssh.Algorithms.Entries.{IsSound, all_weaken, found-texts}
use ssh.Algorithms.Editing.{Keeps, then_list-Keeps, edit-Keeps}

edit_all-Keeps :
    (supported : List Entry) (kvs : List (Key × Value)) (list : List Entry)
    → IsSound (none ∷ supported) list
    → Keeps (none ∷ supported) (edit_all supported kvs list)
unfolding edit_all
edit_all-Keeps supported [] list h = h
edit_all-Keeps supported ((k, v) ∷ kvs) list h =
    then_list-Keeps (none ∷ supported) (edit supported k v list) (edit_all supported kvs)
      (edit-Keeps supported k v list h) (λ l hl. edit_all-Keeps supported kvs l hl)

kept :
    (allowed list : List Entry) (o : Option (List Entry))
    → o ≡ some list
    → Keeps allowed o
    → IsSound allowed list
kept allowed list o e h = subst (λ x. Keeps allowed x) e h

-- Whatever edits are asked for, where the default list holds supported algorithms and none twice, and no edit throws,
-- the list that is made holds only supported algorithms and `undefined`, and none twice.
pub generate_algorithm_list-IsSound :
    (kvs : List (Key × Value)) (defaults supported : List Bytes) (list : List Entry)
    → IsSound (map some supported) (map some defaults)
    → generate_algorithm_list (edits kvs) defaults supported ≡ some list
    → IsSound (none ∷ map some supported) list
unfolding generate_algorithm_list
generate_algorithm_list-IsSound kvs defaults supported list (a, d) e =
    kept (none ∷ map some supported) list (edit_all (map some supported) kvs (map some defaults)) e
      (edit_all-Keeps (map some supported) kvs (map some defaults)
        (all_weaken (map some supported) (map some defaults) a, d))

put_new-front :
    (re : Bytes → Bool) (e : Entry) (list : List Entry)
    → (front : List Entry) × (put_new unshift_entry re e list ≡ front ++ list)
put_new-front re e list = elim (Bool-cases (test re e)) [
  | inl t ↦ elim (Bool-cases (found list e)) [
    | inl f ↦ ([], rw (t, f) refl)
    | inr f ↦ (e ∷ [], rw (t, f) refl)
  ]
  | inr t ↦ ([], rw t refl)
]

put_matching-front :
    (re : Bytes → Bool) (es list : List Entry)
    → (front : List Entry) × (put_matching unshift_entry re es list ≡ front ++ list)
unfolding put_matching
put_matching-front re [] list = ([], refl)
put_matching-front re (e ∷ es) list =
    let (near, en) = put_new-front re e list in
    let (far, ef) = put_matching-front re es (put_new unshift_entry re e list) in
    (far ++ near, ef ∙ ap (λ l. far ++ l) en ∙ sym (append_assoc far near list))

put_new-undefined :
    (re : Bytes → Bool) (texts : List Bytes)
    → re (codes "undefined") ≡ true
    → put_new unshift_entry re none (map some texts) ≡ none ∷ map some texts
put_new-undefined re texts h =
    let list = map some texts in
    ap (λ b. if b then if found list none then list else none ∷ list else list) h
    ∙ ap (λ b. if b then list else none ∷ list) (found-texts texts)

-- Whatever the default list and the supported algorithms are, asking to prepend the algorithms that match an
-- expression which matches the text `undefined` too puts `undefined` right before the default list.
pub generate_algorithm_list-undefined :
    (re : Bytes → Bool) (defaults supported : List Bytes)
    → re (codes "undefined") ≡ true
    → (front : List Entry) × (generate_algorithm_list
          (edits ((prepend, one (regexp re)) ∷ []))
          defaults
          supported
        ≡ some (front ++ none ∷ map some defaults))
unfolding generate_algorithm_list edit edit_all put_all put_one put_matching
generate_algorithm_list-undefined re defaults supported h =
    let algos = reverse (map some supported) in
    let (front, e) = put_matching-front re algos (none ∷ map some defaults) in
    (
      front,
      ap
            (λ list.
              then_list (some (put_matching unshift_entry re algos list))
                (edit_all (map some supported) []))
            (put_new-undefined re defaults h)
          ∙ ap some e,
    )
