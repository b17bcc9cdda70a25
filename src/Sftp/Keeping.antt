-- ===== src/Sftp/Keeping.antt =====
-- What is done with an SFTP channel of lib/protocol/SFTP.js, and what one such step keeps.
use ssh.Common.{
  ℕ, ◌+◌, ◌<◌, ◌≡◌, refl, sym, ap, ◌∙◌, arith, Bool, true, false, Bool-cases, Option, none, some,
  List, [], ◌∷◌, ◌++◌, append_assoc, append-nil, ◌⊎◌, inl, inr, length, ◌==◌, Bytes,
}
use mathlib.Core.Option
use ssh.Channel.Send.{joined}
use ssh.Sftp.Window.{Sender, try_write, kept, send_or_buffer, drain_buffer, adjust}
use ssh.Sftp.Trying.{
  IsReady, IsArmed, IsTried, joined-append, try_write-full, try_write_total, no_window,
  drain_loop_total,
}

-- What is done with the channel: a packet is sent, or the peer adds to the window.
pub data Act : Type 0 where
  send : Bytes → Act
  credit : ℕ → Act

abbrev pub Grants : Act → Type 0
Grants (send b) = Unit
Grants (credit n) = 0 < n

abbrev pub of_pair : Option (Bool × Sender) → Option Sender
of_pair none = none
of_pair (some (b, s)) = some s

abbrev pub act : Act → Sender → Option Sender
act (send b) s = of_pair (send_or_buffer s b)
act (credit n) s = adjust n s

abbrev pub then_act : Option Sender → (Sender → Option Sender) → Option Sender
then_act none f = none
then_act (some s) f = f s

abbrev pub act_all : List Act → Sender → Option Sender
act_all [] s = some s
act_all (a ∷ as') s = then_act (act a s) (act_all as')

abbrev pub packets : List Act → List Bytes
packets [] = []
packets (send b ∷ as') = b ∷ packets as'
packets (credit n ∷ as') = packets as'

abbrev pub credits : List Act → ℕ
credits [] = 0
credits (send b ∷ as') = credits as'
credits (credit n ∷ as') = n + credits as'

-- `whole` was to be sent, and `total` is what the window gave.
pub record IsInOrder (whole : Bytes) (total : ℕ) (s : Sender) : Type 0 where
  pub keeps : joined (s.sent) ++ joined (s.buffer) ≡ whole
  pub counts : s.window + length (joined (s.sent)) ≡ total
  pub ready : IsReady s
  pub armed : IsArmed s
  pub flushed : (s.buffer ≡ []) ⊎ (s.window ≡ 0)

-- Where one of the flags is down, nothing waits.
idle :
    (s : Sender) (b : Bool)
    → (s.window ≡ 0 → b ≡ true)
    → b ≡ false
    → (s.buffer ≡ []) ⊎ (s.window ≡ 0)
    → s.buffer ≡ []
idle s b h e (inl empty) = empty
idle s b h e (inr z) = let clash : false ≡ true = sym e ∙ h z in ground arith

pub send_total :
    (b whole : Bytes) (total : ℕ) (s : Sender)
    → IsInOrder whole total s
    → (t : Sender) × (of_pair (send_or_buffer s b) ≡ some t) × IsInOrder (whole ++ b) total t
unfolding send_or_buffer
send_total b whole total s h = elim (Bool-cases (s.window == 0)) [
  | inl e ↦
      let z : s.window ≡ 0 = ground arith in
      (
        record s { wait_window = true; buffer = s.buffer ++ b ∷ [] },
        rw (try_write-full s b (h.ready.0) e) refl,
        record {
          keeps =
              ap (λ x. joined (s.sent) ++ x) (joined-append (s.buffer) (b ∷ []))
              ∙ sym (append_assoc (joined (s.sent)) (joined (s.buffer)) (b ++ []))
              ∙ ap (λ x. x ++ (b ++ [])) (h.keeps)
              ∙ ap (λ x. whole ++ x) (append-nil b);
          counts = h.counts;
          ready = h.ready;
          armed = λ _. (refl, (h.armed z).1);
          flushed = inr z;
        },
      )
  | inr e ↦
      let empty : s.buffer ≡ [] = idle s (s.window == 0) (λ z. rw z refl) e (h.flushed) in
      let (o, t, et, tried) = try_write_total s b (h.ready) (λ z. (h.armed z).1) in
      let before : joined (s.sent) ++ b ≡ whole ++ b =
        ap (λ x. x ++ b)
          (sym (append-nil (joined (s.sent)))
            ∙ ap (λ l. joined (s.sent) ++ joined l) (sym empty)
            ∙ h.keeps) in
      go o t empty et tried before
]
  where
    go :
        (o : Option Bytes) (t : Sender)
        → s.buffer ≡ []
        → try_write s b ≡ some (o, t)
        → IsTried s b o t
        → joined (s.sent) ++ b ≡ whole ++ b
        → (u : Sender) × (of_pair (Option.map kept (try_write s b)) ≡ some u)
          × IsInOrder (whole ++ b) total u
    go none t empty et tried before = (
      t,
      rw et refl,
      record {
        keeps = ap (λ l. joined (t.sent) ++ joined l) (tried.same ∙ empty) ∙ tried.keeps ∙ before;
        counts = tried.counts ∙ h.counts;
        ready = tried.ready;
        armed = tried.armed;
        flushed = inl (tried.same ∙ empty);
      },
    )
    go (some r) t empty et tried before = (
      record t { buffer = t.buffer ++ r ∷ [] },
      rw et refl,
      record {
        keeps =
            ap (λ l. joined (t.sent) ++ joined (l ++ r ∷ [])) (tried.same ∙ empty)
            ∙ ap (λ x. joined (t.sent) ++ x) (append-nil r)
            ∙ tried.keeps
            ∙ before;
        counts = tried.counts ∙ h.counts;
        ready = tried.ready;
        armed = tried.armed;
        flushed = inr (no_window r (t.window) (tried.stops));
      },
    )

woken_total :
    (n : ℕ) (whole : Bytes) (total : ℕ) (s : Sender)
    → 0 < n
    → IsInOrder whole total s
    → s.wait_window ≡ true
    → (t : Sender) × (adjust n s ≡ some t) × IsInOrder whole (total + n) t
unfolding adjust drain_buffer
woken_total n whole total s g h e = elim (Bool-cases (s.draining)) [
  | inl d ↦
      let woken = record s { window = s.window + n; wait_window = false; draining = false } in
      let (t, et, settled) =
        drain_loop_total (s.buffer) woken (h.ready) (λ z. absurd (omega arith)) in
      (
        t,
        rw (e, d, et) refl,
        record {
          keeps = settled.keeps ∙ h.keeps;
          counts = omega (arith, settled.counts, h.counts);
          ready = settled.ready;
          armed = settled.armed;
          flushed = settled.flushed;
        },
      )
  | inr d ↦
      let empty : s.buffer ≡ [] = idle s (s.draining) (λ z. (h.armed z).1) d (h.flushed) in
      (
        record s { window = s.window + n; wait_window = false },
        rw (e, d) refl,
        record {
          keeps = h.keeps;
          counts = omega (arith, h.counts);
          ready = h.ready;
          armed = λ z. absurd (omega arith);
          flushed = inl empty;
        },
      )
]

pub adjust_total :
    (n : ℕ) (whole : Bytes) (total : ℕ) (s : Sender)
    → 0 < n
    → IsInOrder whole total s
    → (t : Sender) × (adjust n s ≡ some t) × IsInOrder whole (total + n) t
unfolding adjust
adjust_total n whole total s g h = elim (Bool-cases (s.wait_window)) [
  | inl e ↦ woken_total n whole total s g h e
  | inr e ↦
      let empty : s.buffer ≡ [] = idle s (s.wait_window) (λ z. (h.armed z).0) e (h.flushed) in
      (
        record s { window = s.window + n },
        rw e refl,
        record {
          keeps = h.keeps;
          counts = omega (arith, h.counts);
          ready = h.ready;
          armed = λ z. absurd (omega arith);
          flushed = inl empty;
        },
      )
]
