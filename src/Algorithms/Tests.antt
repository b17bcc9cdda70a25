-- ===== src/Algorithms/Tests.antt =====
-- The theorems of the lists of algorithms at two small algorithms.
use ssh.Common.{◌++◌, ◌≡◌, refl, true, none, some, List, [], ◌∷◌, same, Bytes, Bool}
use ssh.Algorithms.{
  Entry, text, regexp, Key, append, prepend, remove, Value, one, many, edits,
  generate_algorithm_list, edit, edit_all, put_all, put_one, put_matching, remove_all, remove_one,
}
use ssh.Algorithms.Entries.{IsSound}
use ssh.Algorithms.Sound.{generate_algorithm_list-IsSound, generate_algorithm_list-undefined}

abbrev x : Bytes
x = 120 ∷ []

abbrev y : Bytes
y = 121 ∷ []

abbrev any : Bytes → Bool
any a = true

abbrev asked_for : List (Key × Value)
asked_for =
    (remove, one (text x))
    ∷ (append, many (text y ∷ text x ∷ []))
    ∷ (prepend, one (regexp any))
    ∷ []

generate_algorithm_list-IsSound_example :
    IsSound (none ∷ some x ∷ some y ∷ []) (none ∷ some y ∷ some x ∷ [])
unfolding same generate_algorithm_list edit edit_all put_all put_one put_matching remove_all
    remove_one
generate_algorithm_list-IsSound_example =
    generate_algorithm_list-IsSound asked_for (x ∷ y ∷ []) (x ∷ y ∷ [])
      (none ∷ some y ∷ some x ∷ []) ((refl, (refl, tt)), (refl, (refl, tt))) made
  where
    made :
        generate_algorithm_list (edits asked_for) (x ∷ y ∷ []) (x ∷ y ∷ [])
        ≡ some (none ∷ some y ∷ some x ∷ [])
    made = refl

generate_algorithm_list-undefined_example :
    (front : List Entry) × (generate_algorithm_list
        (edits ((prepend, one (regexp any)) ∷ []))
        (y ∷ [])
        (x ∷ y ∷ [])
      ≡ some (front ++ none ∷ some y ∷ []))
generate_algorithm_list-undefined_example =
    generate_algorithm_list-undefined any (y ∷ []) (x ∷ y ∷ []) refl
