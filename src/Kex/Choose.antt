-- ===== src/Kex/Choose.antt =====
-- The choice of one algorithm, against RFC 4253, section 7.1.
use ssh.Common.{
  ◌≡◌, refl, sym, ap, ◌∙◌, arith, true, false, Bool-cases, Option, none, some, List, [], ◌∷◌, ◌++◌,
  same, has, same_refl, same→≡, Bytes, All, inl, inr,
}
use mathlib.Core.List.{Memᴰ}
use ssh.Kex.Negotiate.{choose}

-- `a` is the first of the client's algorithms that the server has too.
pub record IsFirstCommon (client server : List Bytes) (a : Bytes) : Type 0 where
  pub before : List Bytes
  pub after : List Bytes
  pub split : client ≡ before ++ a ∷ after
  pub offered : Memᴰ a server
  pub first : All (λ c. ¬ Memᴰ c server) before

-- What RFC 4253 asks of the choice between two lists.
abbrev pub IsChoice : List Bytes → List Bytes → Option Bytes → Type 0
IsChoice client server none = All (λ c. ¬ Memᴰ c server) client
IsChoice client server (some a) = IsFirstCommon client server a

has-true : (bs : List Bytes) (a : Bytes) → has bs a ≡ true → Memᴰ a bs
unfolding has
has-true [] a h = ground arith
has-true (b ∷ bs) a h = elim (Bool-cases (same b a)) [
  | inl e ↦ Memᴰ.head (sym (same→≡ b a e))
  | inr e ↦ Memᴰ.tail (has-true bs a (sym (rw e refl) ∙ h))
]

has-false : (bs : List Bytes) (a : Bytes) → has bs a ≡ false → ¬ Memᴰ a bs
unfolding has
has-false [] a h m = elim m [ ]
has-false (b ∷ bs) a h (Memᴰ.head e) =
    let t : same b a ≡ true = ap (same b) e ∙ same_refl b in ground (arith, t)
has-false (b ∷ bs) a h (Memᴰ.tail m) = elim (Bool-cases (same b a)) [
  | inl e ↦ ground arith
  | inr e ↦ has-false bs a (sym (rw e refl) ∙ h) m
]

later :
    (c : Bytes) (client server : List Bytes)
    → has server c ≡ false
    → (o : Option Bytes) → IsChoice client server o
    → IsChoice (c ∷ client) server o
later c client server h none all = (has-false server c h, all)
later c client server h (some a) f = record {
  before = c ∷ f.before;
  after = f.after;
  split = ap (◌∷◌ c) f.split;
  offered = f.offered;
  first = (has-false server c h, f.first);
}

-- For all lists, the loop finds the first of the client's algorithms that the server has, and finds
-- none only where they share none.
pub choose-IsChoice : (client server : List Bytes) → IsChoice client server (choose client server)
unfolding choose
choose-IsChoice [] server = tt
choose-IsChoice (c ∷ client) server = elim (Bool-cases (has server c)) [
  | inl e ↦ rw e (record {
    before = [];
    after = client;
    split = refl;
    offered = has-true server c e;
    first = tt;
  })
  | inr e ↦ rw e (later c client server e (choose client server) (choose-IsChoice client server))
]
