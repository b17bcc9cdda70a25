-- ===== src/Manager/Sound.antt =====
-- The ids that a manager hands out, whatever is opened and closed.
use ssh.Common.{
  ℕ, zero, suc, ◌+◌, ◌<◌, ◌≤◌, ◌≡◌, ◌≢◌, refl, sym, ap, ◌∙◌, arith, Bool-cases, Option-cases,
  Option, none, some, List, [], ◌∷◌, leb, ◌==◌, ==_iff, leb→le, le→leb, length, inl, inr,
}
use ssh.Manager.Tables.{
  Table, find, Distinct, Below, Below-mono, find-Below, find-put, find-put_ne, put-Below,
  put-Distinct, length-put, length-put_old, length-delete, delete-Below, delete-Distinct, find_lt,
}
use mathlib.Core.Path.{subst}
use ssh.Manager.{
  Manager, max_channel, empty, search, reserve, enter, replaced, dropped, valid, add, update, get,
  remove, cleanup,
}

-- The operations of the class; a call that throws changes nothing.
pub data Op (V : Type 0) : Type 0 where
  add_op : V → Op V
  update_op : ℕ → V → Op V
  remove_op : ℕ → Op V
  cleanup_op : Op V

module _ {V : Type 0} where
  -- The count is the number of channels, no id stands twice, and all are below those handed out.
  pub record IsSound (m : Manager V) : Type 0 where
    pub distinct : Distinct m.channels
    pub below : Below m.used m.channels
    pub counted : length m.channels ≡ m.count
    pub bounded : m.used ≤ suc max_channel

  -- What the loop finds is free and in its range; it finds nothing only where all is taken.
  pub Found : ℕ → ℕ → Table V → Option ℕ → Type 0
  Found n i t none = (j : ℕ) → i ≤ j → j < i + n → find j t ≢ none
  Found n i t (some id) = (i ≤ id) × (id < i + n) × (find id t ≡ none)

  taken :
      (n i : ℕ) (t : Table V) (v : V)
      → find i t ≡ some v
      → (o : Option ℕ) → Found n (suc i) t o
      → Found (suc n) i t o
  unfolding Found
  taken n i t v e none h = λ j lo hi q. elim (Bool-cases (j == i)) [
    | inl s ↦
        let same : j ≡ i = (==_iff j i).0 s in
        let bad : some v ≡ none = sym e ∙ ap (λ k. find k t) (sym same) ∙ q in ground arith
    | inr s ↦ h j (ground arith) (omega arith) q
  ]
  taken n i t v e (some id) (lo, hi, free) = (omega arith, omega arith, free)

  search-Found : (n i : ℕ) (t : Table V) → Found n i t (search n i t)
  unfolding search Found
  search-Found zero i t = λ j lo hi. absurd (omega arith)
  search-Found (suc n) i t = elim (Option-cases (find i t)) [
    | inl e ↦ rw (search, e) (omega arith, omega arith, e)
    | inr (v, e) ↦ rw (search, e) (taken n i t v e (search n (suc i) t) (search-Found n (suc i) t))
  ]

  -- What a reservation promises: a free id below the next one, or all ids taken.
  pub Reserved : Manager V → Option ℕ × ℕ → Type 0
  Reserved m (none, used) = (used ≡ m.used) × ((j : ℕ) → j < max_channel → find j m.channels ≢ none)
  Reserved m (some id, used) =
      (find id m.channels ≡ none) × (id < used) × (used ≤ suc max_channel) × Below used m.channels

  empty_table : (t : Table V) → length t ≡ 0 → t ≡ []
  empty_table [] h = refl
  empty_table (x ∷ t) h = absurd (omega arith)

  no_entry : (m : Manager V) → IsSound m → m.count ≡ 0 → m.channels ≡ []
  no_entry m h z = empty_table m.channels (h.counted ∙ z)

  searched :
      (m : Manager V)
      → IsSound m
      → m.used ≡ suc max_channel
      → (o : Option ℕ) → Found max_channel 0 m.channels o
      → Reserved m (o, m.used)
  unfolding Found Reserved
  searched m h full none f = (refl, λ j hi. f j (omega arith) (omega arith))
  searched m h full (some id) (lo, hi, free) = (free, omega arith, h.bounded, h.below)

  nothing_open : (m : Manager V) → m.channels ≡ [] → Reserved m (some 0, 1)
  unfolding Reserved Below find
  nothing_open m none_open = rw none_open (refl, omega arith, omega arith, tt)

  reserve-Reserved : (m : Manager V) → IsSound m → Reserved m (reserve m)
  unfolding reserve Reserved Below
  reserve-Reserved m h = elim (Bool-cases (leb m.used max_channel)) [
    | inl e ↦ rw e (
      find-Below m.used m.channels h.below,
      omega arith,
      omega (arith, leb→le m.used max_channel e),
      Below-mono m.used (suc m.used) m.channels (omega arith) h.below,
    )
    | inr e ↦ rw e (elim (Bool-cases (m.count == 0)) [
      | inl z ↦ rw z (nothing_open m (no_entry m h ((==_iff m.count 0).0 z)))
      | inr z ↦ rw z (
          searched m h (ground (arith, h.bounded, le→leb m.used max_channel))
            (search max_channel 0 m.channels) (search-Found max_channel 0 m.channels))
    ])
  ]

  entered :
      (v : V) (m : Manager V)
      → IsSound m
      → (r : Option ℕ × ℕ) → Reserved m r
      → IsSound (enter v m r).1
  unfolding Reserved
  entered v m h (none, used) (same, _) = record {
    distinct = h.distinct;
    below = subst (λ k. Below k m.channels) (sym same) h.below;
    counted = h.counted;
    bounded = omega (arith, h.bounded);
  }
  entered v m h (some id, used) (free, lt, le, below) = record {
    distinct = put-Distinct id v m.channels h.distinct;
    below = put-Below used id v m.channels lt below;
    counted = length-put id v m.channels free ∙ ap (λ k. suc k) h.counted;
    bounded = le;
  }

  abbrev pub kept : Manager V → Option (Manager V) → Manager V
  kept m none = m
  kept m (some n) = n

  abbrev pub apply : Op V → Manager V → Manager V
  apply (add_op v) m = (add v m).1
  apply (update_op id v) m = kept m (update id v m)
  apply (remove_op id) m = kept m (remove id m)
  apply cleanup_op m = cleanup m

  abbrev pub apply_all : List (Op V) → Manager V → Manager V
  apply_all [] m = m
  apply_all (op ∷ ops) m = apply_all ops (apply op m)

  empty-IsSound : IsSound empty
  unfolding Distinct Below
  empty-IsSound = record { distinct = tt; below = tt; counted = refl; bounded = omega arith }

  replaced-IsSound :
      (id : ℕ) (v : V) (m : Manager V)
      → IsSound m
      → (o : Option V) → find id m.channels ≡ o
      → IsSound (replaced id v m o)
  replaced-IsSound id v m h none e = h
  replaced-IsSound id v m h (some w) e = record {
    distinct = put-Distinct id v m.channels h.distinct;
    below = put-Below m.used id v m.channels (find_lt m.used m.channels h.below id w e) h.below;
    counted = length-put_old id v w m.channels e ∙ h.counted;
    bounded = h.bounded;
  }

  dropped-IsSound :
      (id : ℕ) (m : Manager V)
      → IsSound m
      → (o : Option V) → find id m.channels ≡ o
      → IsSound (dropped id m o)
  dropped-IsSound id m h none e = h
  dropped-IsSound id m h (some w) e = record {
    distinct = delete-Distinct id m.channels h.distinct;
    below = delete-Below m.used id m.channels h.below;
    counted = omega (arith, length-delete id w m.channels e, h.counted);
    bounded = h.bounded;
  }

  kept-valid : (m n : Manager V) (id : ℕ) → IsSound m → IsSound n → IsSound (kept m (valid id n))
  kept-valid m n id hm hn = elim (Bool-cases (leb max_channel id)) [
    | inl e ↦ rw e hm
    | inr e ↦ rw e hn
  ]

  apply-IsSound : (op : Op V) (m : Manager V) → IsSound m → IsSound (apply op m)
  unfolding add update remove cleanup
  apply-IsSound (add_op v) m h = entered v m h (reserve m) (reserve-Reserved m h)
  apply-IsSound (update_op id v) m h =
      kept-valid m _ id h (replaced-IsSound id v m h (find id m.channels) refl)
  apply-IsSound (remove_op id) m h =
      kept-valid m _ id h (dropped-IsSound id m h (find id m.channels) refl)
  apply-IsSound cleanup_op m h = empty-IsSound

  -- Whatever is added, updated, removed or cleaned up, in any order, from a new manager: the count is the
  -- number of open channels, no id stands twice, and every id is one that was handed out.
  pub apply_all-IsSound : (ops : List (Op V)) → IsSound (apply_all ops empty)
  apply_all-IsSound ops = from ops empty empty-IsSound
    where
      from : (ops : List (Op V)) (m : Manager V) → IsSound m → IsSound (apply_all ops m)
      from [] m h = h
      from (op ∷ ops) m h = from ops (apply op m) (apply-IsSound op m h)

  -- What `add` promises.
  pub Added : V → Manager V → Option ℕ × Manager V → Type 0
  Added v m (none, n) =
      (n.channels ≡ m.channels) × ((j : ℕ) → j < max_channel → find j m.channels ≢ none)
  Added v m (some id, n) =
      (find id m.channels ≡ none)
      × (find id n.channels ≡ some v)
      × ((j : ℕ) → j ≢ id → find j n.channels ≡ find j m.channels)

  enter-Added : (v : V) (m : Manager V) (r : Option ℕ × ℕ) → Reserved m r → Added v m (enter v m r)
  unfolding Reserved Added
  enter-Added v m (none, used) (_, all) = (refl, all)
  enter-Added v m (some id, used) (free, _, _, _) =
      (free, find-put id v m.channels, λ j ne. find-put_ne id j v m.channels ne)

  -- A sound manager's `add` either takes an id that no open channel has, stores the value there and
  -- leaves the other channels alone, or gives up, and then every id below MAX_CHANNEL is open.
  pub add-Added : (v : V) (m : Manager V) → IsSound m → Added v m (add v m)
  unfolding add
  add-Added v m h = enter-Added v m (reserve m) (reserve-Reserved m h)

  reserve_max : (m : Manager V) → m.used ≡ max_channel → reserve m ≡ (some m.used, suc m.used)
  unfolding reserve
  reserve_max m e = rw (le→leb m.used max_channel (omega (arith, e))) refl

  -- The id after the last: once MAX_CHANNEL ids were handed out, the next `add` returns MAX_CHANNEL itself,
  -- an id with which `get` and `remove` throw, so that the channel can never be found or removed.
  pub add_max :
      (v : V) (m : Manager V)
      → m.used ≡ max_channel
      → ((add v m).0 ≡ some max_channel)
        × (get max_channel (add v m).1 ≡ none)
        × (remove max_channel (add v m).1 ≡ none)
  unfolding add get remove
  add_max v m e = (ap (λ r. (enter v m r).0) (reserve_max m e) ∙ ap some e, refl, refl)
