-- ===== src/Sftp/InOrder.antt =====
-- The first bytes of the packets of lib/protocol/SFTP.js go out in order, and where they do not.
use ssh.Common.{
  ℕ, ◌+◌, ◌<◌, ◌≡◌, refl, sym, ap, ◌∙◌, arith, true, false, Option, none, some, List, [], ◌∷◌, ◌++◌,
  append-nil, ◌⊎◌, inl, inr, length, take, take-append, take_all, length-take, Bytes,
}
use mathlib.Core.Option
use ssh.Channel.Send.{joined}
use ssh.Sftp.Window.{Sender, try_write, kept, send_or_buffer, adjust}
use ssh.Sftp.Trying.{IsReady, IsTried, try_write-full, try_write_total, no_window}
use ssh.Sftp.Keeping.{send, credit, of_pair, act_all}

-- Nothing is held back or was sent yet, and the peer has opened a window.
abbrev pub IsFresh : Sender → Type 0
IsFresh s =
    (s.is_open ≡ true) × (0 < s.packet_size) × (0 < s.window) × (s.buffer ≡ []) × (s.sent ≡ [])

prefix :
    (w total : ℕ) (xs rest all : Bytes)
    → w + length xs ≡ total
    → xs ++ rest ≡ all
    → (rest ≡ []) ⊎ (w ≡ 0)
    → xs ≡ take total all
prefix w total xs rest all counts whole (inl e) =
    let xs_all : xs ≡ all = sym (append-nil xs) ∙ ap (λ r. xs ++ r) (sym e) ∙ whole in
    xs_all ∙ sym (take_all total all (omega (arith, counts, ap length xs_all)))
prefix w total xs rest all counts whole (inr e) =
    let same : length xs ≡ total = omega (arith, counts, e) in
    sym (take-append xs rest) ∙ ap (λ l. take (length xs) l) whole ∙ ap (λ n. take n all) same

-- A channel whose peer has opened no window yet, on which nothing was done.
abbrev pub IsClosedOff : Sender → Type 0
IsClosedOff s =
    (s.is_open ≡ true)
    × (0 < s.packet_size)
    × (s.window ≡ 0)
    × (s.draining ≡ false)
    × (s.buffer ≡ [])
    × (s.sent ≡ [])

behind :
    (a b : Bytes) (s : Sender)
    → IsReady s
    → 0 < s.window
    → s.buffer ≡ a ∷ []
    → s.sent ≡ []
    → (t : Sender) × (rest : List Bytes) × (of_pair (send_or_buffer s b) ≡ some t)
      × (t.buffer ≡ a ∷ rest)
      × (joined (t.sent) ≡ take (s.window) b)
      × (joined (t.sent) ++ joined rest ≡ b)
unfolding send_or_buffer
behind a b s ready opened held unsent =
    let (o, t, e, tried) = try_write_total s b ready (λ z. absurd (omega arith)) in go o t e tried
  where
    first :
        {o : Option Bytes} (t : Sender) (r : Bytes)
        → IsTried s b o t
        → joined (t.sent) ++ r ≡ b
        → (r ≡ []) ⊎ (t.window ≡ 0)
        → joined (t.sent) ≡ take (s.window) b
    first t r tried whole stop =
        prefix (t.window) (s.window) (joined (t.sent)) r b
          (tried.counts ∙ ap (λ l. s.window + length (joined l)) unsent ∙ omega arith) whole stop

    go :
        (o : Option Bytes) (t : Sender)
        → try_write s b ≡ some (o, t)
        → IsTried s b o t
        → (u : Sender) × (rest : List Bytes) × (of_pair (Option.map kept (try_write s b)) ≡ some u)
          × (u.buffer ≡ a ∷ rest)
          × (joined (u.sent) ≡ take (s.window) b)
          × (joined (u.sent) ++ joined rest ≡ b)
    go none t e tried =
        let whole = tried.keeps ∙ ap (λ l. joined l ++ b) unsent in
        (t, [], rw e refl, tried.same ∙ held, first t [] tried whole (inl refl), whole)
    go (some r) t e tried = (
      record t { buffer = t.buffer ++ r ∷ [] },
      r ∷ [],
      rw e refl,
      ap (λ l. l ++ r ∷ []) (tried.same ∙ held),
      first t r tried (tried.keeps ∙ ap (λ l. joined l ++ b) unsent)
          (inr (no_window r (t.window) (tried.stops))),
      ap (λ x. joined (t.sent) ++ x) (append-nil r) ∙ tried.keeps ∙ ap (λ l. joined l ++ b) unsent,
    )

-- Where the peer of an open SFTP channel with a positive packet size opens no window at first, the packet that is sent
-- first stays in the buffer when the window is opened, and the next one overtakes it: what goes out is as much of the
-- second as the window covers, at least a byte where it has one, and what is left of it is buffered behind the first.
pub act_all-overtakes :
    (a b : Bytes) (n : ℕ) (s : Sender)
    → IsClosedOff s
    → 0 < n
    → 0 < length b
    → (t : Sender) × (rest : List Bytes) × (act_all (send a ∷ credit n ∷ send b ∷ []) s ≡ some t)
      × (t.buffer ≡ a ∷ rest)
      × (joined (t.sent) ≡ take n b)
      × (0 < length (joined (t.sent)))
      × (joined (t.sent) ++ joined rest ≡ b)
unfolding send_or_buffer adjust
act_all-overtakes a b n s (is_open, size, closed, idle, empty, unsent) g some_byte =
    let held = record s {
      window = s.window + n;
      wait_window = false;
      draining = false;
      buffer = s.buffer ++ a ∷ [];
    } in
    let (t, rest, e, eb, ef, es) =
      behind a b held (is_open, size) (omega arith) (ap (λ l. l ++ a ∷ []) empty) unsent in
    let w_n : s.window + n ≡ n = omega (arith, closed) in
    let ft : joined (t.sent) ≡ take n b = ef ∙ ap (λ w. take w b) w_n in
    (
      t,
      rest,
      rw (try_write-full s a is_open (rw closed refl), idle, e) refl,
      eb,
      ft,
      omega (arith, some_byte, ap length ft, length-take n b),
      es,
    )
