-- ===== src/Sftp/Trying.antt =====
-- What one packet, and a buffer of packets, becomes when it is tried: `tryWritePayload` and the loop of
-- `drainBuffer` of lib/protocol/SFTP.js.
use ssh.Common.{
  ℕ, ◌+◌, ◌<◌, ◌≡◌, refl, sym, ap, ◌∙◌, arith, true, Bool-cases, Option, none, some, List, [], ◌∷◌,
  ◌++◌, append_assoc, append-nil, ◌⊎◌, inl, inr, length, length-append, ltb, ◌==◌, Bytes,
  if◌then◌else◌,
}
use ssh.Channel.Writing.{Sending, rounds}
use ssh.Channel.Send.{joined, IsSplit, send_slices_total}
use ssh.Sftp.Window.{Sender, try_write, after_try, drained, drain_loop}

abbrev pub left_over : Option Bytes → Bytes
left_over none = []
left_over (some b) = b

-- A channel that can make progress, and whose flags are set where it cannot.
abbrev pub IsReady : Sender → Type 0
IsReady s = (s.is_open ≡ true) × (0 < s.packet_size)

abbrev pub IsArmed : Sender → Type 0
IsArmed s = s.window ≡ 0 → (s.wait_window ≡ true) × (s.draining ≡ true)

pub record IsTried (s : Sender) (b : Bytes) (o : Option Bytes) (t : Sender) : Type 0 where
  pub keeps : joined (t.sent) ++ left_over o ≡ joined (s.sent) ++ b
  pub counts : t.window + length (joined (t.sent)) ≡ s.window + length (joined (s.sent))
  pub ready : IsReady t
  pub armed : IsArmed t
  pub stops : (o ≡ none) ⊎ (t.window ≡ 0)
  pub same : t.buffer ≡ s.buffer

pub joined-append : (xs ys : List Bytes) → joined (xs ++ ys) ≡ joined xs ++ joined ys
joined-append [] ys = refl
joined-append (x ∷ xs) ys =
    ap (λ b. x ++ b) (joined-append xs ys) ∙ sym (append_assoc x (joined xs) (joined ys))

-- What is left, if it is anything.
abbrev some_if : Bytes → Option Bytes
some_if b = if ltb 0 (length b) then some b else none

left_over-some_if : (b : Bytes) → left_over (some_if b) ≡ b
left_over-some_if [] = refl
left_over-some_if (x ∷ xs) = ground arith

some_if_stops : (b : Bytes) (w : ℕ) → (length b ≡ 0) ⊎ (w ≡ 0) → (some_if b ≡ none) ⊎ (w ≡ 0)
some_if_stops b w (inl e) = inl (rw e refl)
some_if_stops b w (inr e) = inr e

after_try-IsTried :
    (s : Sender) (b : Bytes) (r : Sending)
    → IsReady s
    → IsSplit (s.packet_size) (s.window) b r
    → IsTried s b (after_try r s).0 (after_try r s).1
after_try-IsTried s b r ready split = record {
  keeps =
      ap (λ x. joined (s.sent ++ r.slices) ++ x) (left_over-some_if (r.left))
      ∙ ap (λ x. x ++ r.left) (joined-append (s.sent) (r.slices))
      ∙ append_assoc (joined (s.sent)) (joined (r.slices)) (r.left)
      ∙ ap (λ x. joined (s.sent) ++ x) (split.keeps);
  counts = omega (
    arith,
    split.counts,
    ap length (joined-append (s.sent) (r.slices)),
    length-append (joined (s.sent)) (joined (r.slices)),
  );
  ready = ready;
  armed = λ e. rw e (refl, refl);
  stops = some_if_stops (r.left) (r.window) (split.stops);
  same = refl;
}

pub try_write-full :
    (s : Sender) (b : Bytes)
    → s.is_open ≡ true
    → (s.window == 0) ≡ true
    → try_write s b ≡ some (some b, record s { wait_window = true })
unfolding try_write
try_write-full s b is_open e = rw (is_open, e) refl

pub try_write_total :
    (s : Sender) (b : Bytes)
    → IsReady s
    → (s.window ≡ 0 → s.draining ≡ true)
    → (o : Option Bytes) × (t : Sender) × (try_write s b ≡ some (o, t)) × IsTried s b o t
unfolding try_write
try_write_total s b (is_open, size) hd = elim (Bool-cases (s.window == 0)) [
  | inl e ↦
      let zero_window : s.window ≡ 0 = ground arith in
      (
        some b,
        record s { wait_window = true },
        rw (is_open, e) refl,
        record {
          keeps = refl;
          counts = refl;
          ready = (is_open, size);
          armed = λ z. (refl, hd zero_window);
          stops = inr zero_window;
          same = refl;
        },
      )
  | inr e ↦
      let (r, er, split) =
        send_slices_total (rounds b) (s.packet_size) (s.window) b size (omega arith) in
      (
        (after_try r s).0,
        (after_try r s).1,
        rw (is_open, e, er) refl,
        after_try-IsTried s b r (is_open, size) split,
      )
]

-- Nothing waits while there is a window, and the flags are set where there is none.
pub record IsSettled (s : Sender) (rest : Bytes) (t : Sender) : Type 0 where
  pub keeps : joined (t.sent) ++ joined (t.buffer) ≡ joined (s.sent) ++ rest
  pub counts : t.window + length (joined (t.sent)) ≡ s.window + length (joined (s.sent))
  pub ready : IsReady t
  pub armed : IsArmed t
  pub flushed : (t.buffer ≡ []) ⊎ (t.window ≡ 0)

pub no_window : (r : Bytes) (w : ℕ) → (some r ≡ none) ⊎ (w ≡ 0) → w ≡ 0
no_window r w (inl e) = ground arith
no_window r w (inr e) = e

pub drain_loop_total :
    (bs : List Bytes) (s : Sender)
    → IsReady s
    → IsArmed s
    → (t : Sender) × (drain_loop bs s ≡ some t) × IsSettled s (joined bs) t
unfolding drain_loop
drain_loop_total [] s ready armed = (
  record s { buffer = [] },
  refl,
  record { keeps = refl; counts = refl; ready = ready; armed = armed; flushed = inl refl },
)
drain_loop_total (b ∷ bs) s ready armed =
    let (o, t, e, tried) = try_write_total s b ready (λ z. (armed z).1) in
    go (λ t r a. drain_loop_total bs t r a) o t e tried
  where
    go :
        ((t : Sender)
          → IsReady t
          → IsArmed t
          → (u : Sender) × (drain_loop bs t ≡ some u) × IsSettled t (joined bs) u)
        → (o : Option Bytes) (t : Sender) → try_write s b ≡ some (o, t)
        → IsTried s b o t
        → (u : Sender) × (drained bs (try_write s b) (drain_loop bs) ≡ some u)
          × IsSettled s (b ++ joined bs) u
    go again none t e tried =
        let (u, eu, settled) = again t (tried.ready) (tried.armed) in
        (
          u,
          rw e eu,
          record {
            keeps =
                settled.keeps
                ∙ ap (λ x. x ++ joined bs) (sym (append-nil (joined (t.sent))) ∙ tried.keeps)
                ∙ append_assoc (joined (s.sent)) b (joined bs);
            counts = settled.counts ∙ tried.counts;
            ready = settled.ready;
            armed = settled.armed;
            flushed = settled.flushed;
          },
        )
    go again (some r) t e tried = (
      record t { buffer = r ∷ bs },
      rw e refl,
      record {
        keeps =
            sym (append_assoc (joined (t.sent)) r (joined bs))
            ∙ ap (λ x. x ++ joined bs) (tried.keeps)
            ∙ append_assoc (joined (s.sent)) b (joined bs);
        counts = tried.counts;
        ready = tried.ready;
        armed = tried.armed;
        flushed = inr (no_window r (t.window) (tried.stops));
      },
    )
