-- ===== src/Algorithms/Editing.antt =====
-- What one edit of `generateAlgorithmList` of lib/utils.js keeps.
use ssh.Common.{
  ◌≡◌, refl, Bool, true, false, Bool-cases, ◌||◌, Option, none, some, List, [], ◌∷◌, inl, inr,
  All-append, Bytes, All,
}
use ssh.Algorithms.{
  Entry, same_entry, found, test, Pattern, text, regexp, other, Key, append, prepend, remove,
  unknown, Value, reverse, values, reverse_patterns, push_entry, unshift_entry, put_new,
  put_matching, is_empty, put_one, then_list, put_all, remove_first, remove_matching, remove_one,
  remove_all, edit,
}
use ssh.Algorithms.Entries.{
  IsSound, or_false, push_entry-IsDistinct, found-remove_first, found-remove_matching, all_self,
  weaken, all_reverse,
}

-- What both ways of adding keep.
abbrev IsPut : (Entry → List Entry → List Entry) → Type 0
IsPut put =
    (allowed list : List Entry) (e : Entry)
    → found allowed e ≡ true
    → found list e ≡ false
    → IsSound allowed list
    → IsSound allowed (put e list)

push_entry-IsPut : IsPut push_entry
push_entry-IsPut allowed list e a f (h, d) = (
  All-append (λ x. found allowed x ≡ true) list (e ∷ []) h (a, tt),
  push_entry-IsDistinct list e d f,
)

unshift_entry-IsPut : IsPut unshift_entry
unshift_entry-IsPut allowed list e a f (h, d) = ((a, h), (f, d))

put_matching-IsSound :
    (put : Entry → List Entry → List Entry) (re : Bytes → Bool) (allowed es list : List Entry)
    → IsPut put
    → All (λ e. found allowed e ≡ true) es
    → IsSound allowed list
    → IsSound allowed (put_matching put re es list)
unfolding put_matching
put_matching-IsSound put re allowed [] list p a h = h
put_matching-IsSound put re allowed (e ∷ es) list p (a, as') h =
    put_matching-IsSound put re allowed es (put_new put re e list) p as'
      (elim (Bool-cases (test re e)) [
        | inl t ↦ elim (Bool-cases (found list e)) [
          | inl f ↦ rw (t, f) h
          | inr f ↦ rw (t, f) (p allowed list e a f h)
        ]
        | inr t ↦ rw t h
      ])

-- A step that may throw keeps the list sound where it does not.
abbrev pub Keeps : List Entry → Option (List Entry) → Type 0
Keeps allowed none = Unit
Keeps allowed (some list) = IsSound allowed list

pub then_list-Keeps :
    (allowed : List Entry) (o : Option (List Entry)) (f : List Entry → Option (List Entry))
    → Keeps allowed o
    → ((list : List Entry) → IsSound allowed list → Keeps allowed (f list))
    → Keeps allowed (then_list o f)
then_list-Keeps allowed none f h k = tt
then_list-Keeps allowed (some list) f h k = k list h

put_one-Keeps :
    (put : Entry → List Entry → List Entry) (allowed visited supported : List Entry) (p : Pattern)
    (list : List Entry)
    → IsPut put
    → All (λ e. found allowed e ≡ true) visited
    → ((e : Entry) → found supported e ≡ true → found allowed e ≡ true)
    → IsSound allowed list
    → Keeps allowed (put_one put visited supported p list)
unfolding put_one
put_one-Keeps put allowed visited supported (text a) list p v s h =
    elim (Bool-cases (is_empty a || found list (some a))) [
      | inl e ↦ rw e h
      | inr e ↦ elim (Bool-cases (found supported (some a))) [
        | inl f ↦
            rw (e, f)
              (p allowed list (some a) (s (some a) f)
                (or_false (is_empty a) (found list (some a)) e).1 h)
        | inr f ↦ rw (e, f) tt
      ]
    ]
put_one-Keeps put allowed visited supported (regexp re) list p v s h =
    put_matching-IsSound put re allowed visited list p v h
put_one-Keeps put allowed visited supported other list p v s h = h

put_all-Keeps :
    (put : Entry → List Entry → List Entry) (allowed visited supported : List Entry)
    (ps : List Pattern) (list : List Entry)
    → IsPut put
    → All (λ e. found allowed e ≡ true) visited
    → ((e : Entry) → found supported e ≡ true → found allowed e ≡ true)
    → IsSound allowed list
    → Keeps allowed (put_all put visited supported ps list)
unfolding put_all
put_all-Keeps put allowed visited supported [] list p v s h = h
put_all-Keeps put allowed visited supported (q ∷ qs) list p v s h =
    then_list-Keeps allowed (put_one put visited supported q list)
      (put_all put visited supported qs)
      (put_one-Keeps put allowed visited supported q list p v s h)
      (λ l hl. put_all-Keeps put allowed visited supported qs l p v s hl)

remove_first-IsSound :
    (x : Entry) (allowed list : List Entry)
    → IsSound allowed list
    → IsSound allowed (remove_first x list)
remove_first-IsSound x allowed [] h = h
remove_first-IsSound x allowed (y ∷ ys) ((a, as'), (f, d)) =
    let (as2, d2) = remove_first-IsSound x allowed ys (as', d) in
    elim (Bool-cases (same_entry y x)) [
      | inl t ↦ rw t (as', d)
      | inr t ↦ rw t ((a, as2), (found-remove_first x ys y f, d2))
    ]

remove_matching-IsSound :
    (re : Bytes → Bool) (allowed list : List Entry)
    → IsSound allowed list
    → IsSound allowed (remove_matching re list)
remove_matching-IsSound re allowed [] h = h
remove_matching-IsSound re allowed (y ∷ ys) ((a, as'), (f, d)) =
    let (as2, d2) = remove_matching-IsSound re allowed ys (as', d) in
    elim (Bool-cases (test re y)) [
      | inl t ↦ rw t (as2, d2)
      | inr t ↦ rw t ((a, as2), (found-remove_matching re ys y f, d2))
    ]

remove_one-IsSound :
    (p : Pattern) (allowed list : List Entry)
    → IsSound allowed list
    → IsSound allowed (remove_one p list)
unfolding remove_one
remove_one-IsSound (text a) allowed list h = elim (Bool-cases (is_empty a)) [
  | inl e ↦ rw e h
  | inr e ↦ rw e (remove_first-IsSound (some a) allowed list h)
]
remove_one-IsSound (regexp re) allowed list h = remove_matching-IsSound re allowed list h
remove_one-IsSound other allowed list h = h

remove_all-IsSound :
    (ps : List Pattern) (allowed list : List Entry)
    → IsSound allowed list
    → IsSound allowed (remove_all ps list)
unfolding remove_all
remove_all-IsSound [] allowed list h = h
remove_all-IsSound (p ∷ ps) allowed list h =
    remove_all-IsSound ps allowed (remove_one p list) (remove_one-IsSound p allowed list h)

pub edit-Keeps :
    (supported : List Entry) (k : Key) (v : Value) (list : List Entry)
    → IsSound (none ∷ supported) list
    → Keeps (none ∷ supported) (edit supported k v list)
unfolding edit
edit-Keeps supported append v list h =
    put_all-Keeps push_entry (none ∷ supported) supported supported (values v) list push_entry-IsPut
      (all_self supported (none ∷ supported) (weaken supported)) (weaken supported) h
edit-Keeps supported prepend v list h =
    put_all-Keeps unshift_entry (none ∷ supported) (none ∷ reverse supported) supported
      (other ∷ reverse_patterns (values v)) list unshift_entry-IsPut
      (
        refl,
        all_reverse (λ e. found (none ∷ supported) e ≡ true) supported
            (all_self supported (none ∷ supported) (weaken supported)),
      )
      (weaken supported) h
edit-Keeps supported remove v list h = remove_all-IsSound (values v) (none ∷ supported) list h
edit-Keeps supported unknown v list h = h
