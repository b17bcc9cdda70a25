-- ===== src/Manager/Tests.antt =====
-- The manager's theorems at concrete inputs.
use ssh.Common.{ℕ, ◌≡◌, refl, List, none, some, [], ◌∷◌}
use ssh.Manager.{Manager, max_channel, empty, add, get, remove}
use ssh.Manager.Sound.{
  Op, IsSound, add_op, remove_op, apply_all, apply_all-IsSound, Added, add-Added, add_max,
}

abbrev busy : List (Op ℕ)
busy = add_op 5 ∷ (add_op 6 ∷ (remove_op 0 ∷ (add_op 7 ∷ [])))

apply_all-IsSound_example : IsSound (apply_all busy empty)
apply_all-IsSound_example = apply_all-IsSound busy

abbrev nine : ℕ
nine = 9

add-Added_example : Added nine (apply_all busy empty) (add nine (apply_all busy empty))
add-Added_example = add-Added nine (apply_all busy empty) (apply_all-IsSound busy)

abbrev worn : Manager ℕ
worn = record { channels = []; used = max_channel; count = 0 }

add_max_example :
    ((add 5 worn).0 ≡ some max_channel)
    × (get max_channel (add 5 worn).1 ≡ none)
    × (remove max_channel (add 5 worn).1 ≡ none)
add_max_example = add_max 5 worn refl
