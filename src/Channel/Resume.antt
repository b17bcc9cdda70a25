-- ===== src/Channel/Resume.antt =====
-- What CHANNEL_WINDOW_ADJUST does with a chunk that was held back.
use ssh.Common.{
  ℕ, ◌+◌, ◌≤◌, ◌<◌, ◌≡◌, refl, sym, ap, ◌∙◌, arith, true, false, Option, some, List, [], ◌∷◌, ◌++◌,
  append-nil, ◌⊎◌, inl, inr, length, Bytes, ◌>>=◌,
}
use ssh.Channel.Model.{State, Channel}
use ssh.Channel.Writing.{set_out_window, write, resume, on_window_adjust}
use ssh.Channel.Written.{data_of, sent, IsWritten, write-IsWritten}

-- `whole`, of `need` bytes, is on its way: `total` is all that is to be on the wire in the end, and
-- `credit` the window that it may use.
pub record IsPending (total : Bytes) (need credit : ℕ) (c : Channel) : Type 0 where
  pub rest : Bytes
  pub in_order : sent data_of c.log ++ rest ≡ total
  pub spends : c.outgoing.window + need ≡ credit + length rest
  pub is_op : c.outgoing.state ≡ State.open_
  pub positive : 0 < c.outgoing.packet_size
  pub waits :
      ((length rest ≡ 0) × (c.wait_window ≡ false))
      ⊎ ((c.chunk ≡ some rest) × (c.wait_window ≡ true) × (c.outgoing.window ≡ 0))

adjust_idle :
    (c : Channel) (n : ℕ)
    → c.wait_window ≡ false
    → on_window_adjust c n ≡ some (set_out_window (c.outgoing.window + n) c)
unfolding on_window_adjust
adjust_idle c n e = rw e

-- The channel as the resumed write finds it.
abbrev pub awake : Channel → ℕ → Channel
awake c n = record (set_out_window (c.outgoing.window + n) c) { wait_window = false }

pub adjust_held :
    (c : Channel) (n : ℕ) (rest : Bytes)
    → c.wait_window ≡ true
    → c.chunk ≡ some rest
    → on_window_adjust c n ≡ write (awake c n) rest c.chunkcb
unfolding on_window_adjust resume
adjust_held c n rest w e = rw (w, e)

on_window_adjust-IsPending :
    (total : Bytes) (need credit : ℕ) (c : Channel) (n : ℕ)
    → IsPending total need credit c
    → (c' : Channel) × (on_window_adjust c n ≡ some c') × IsPending total need (credit + n) c'
on_window_adjust-IsPending total need credit c n p = elim (p.waits) [
  | inl (empty, idle) ↦ (
    set_out_window (c.outgoing.window + n) c,
    adjust_idle c n idle,
    record {
      rest = p.rest;
      in_order = p.in_order;
      spends = omega (arith, p.spends);
      is_op = p.is_op;
      positive = p.positive;
      waits = inl (empty, idle);
    },
  )
  | inr (is_held, waiting, shut) ↦
      let (after, e, w) = write-IsWritten (awake c n) p.rest c.chunkcb p.is_op p.positive in
      (
        after,
        adjust_held c n p.rest waiting is_held ∙ e,
        record {
          rest = w.rest;
          in_order = w.in_order ∙ p.in_order;
          spends = omega (arith, p.spends, w.spends);
          is_op = w.same_state ∙ p.is_op;
          positive = rw w.same_size p.positive;
          waits = w.waits;
        },
      )
]

abbrev pub on_window_adjusts : List ℕ → Channel → Option Channel
on_window_adjusts [] c = some c
on_window_adjusts (n ∷ ns) c = on_window_adjust c n >>= on_window_adjusts ns

abbrev pub sum : List ℕ → ℕ
sum [] = 0
sum (n ∷ ns) = n + sum ns

on_window_adjusts-IsPending :
    (ns : List ℕ) (total : Bytes) (need credit : ℕ) (c : Channel)
    → IsPending total need credit c
    → (c' : Channel) × (on_window_adjusts ns c ≡ some c')
      × IsPending total need (credit + sum ns) c'
on_window_adjusts-IsPending [] total need credit c p =
    let e : credit + 0 ≡ credit = omega arith in (c, refl, rw e p)
on_window_adjusts-IsPending (n ∷ ns) total need credit c p =
    let (c', e, p') = on_window_adjust-IsPending total need credit c n p in
    let (c'', e', p'') = on_window_adjusts-IsPending ns total need (credit + n) c' p' in
    let re : credit + (n + sum ns) ≡ credit + n + sum ns = omega arith in (c'', rw e e', rw re p'')

write-IsPending :
    (c : Channel) (whole : Bytes) (cb : Option ℕ)
    → c.outgoing.state ≡ State.open_
    → 0 < c.outgoing.packet_size
    → c.wait_window ≡ false
    → (c' : Channel) × (write c whole cb ≡ some c')
      × IsPending (sent data_of c.log ++ whole) (length whole) c.outgoing.window c'
write-IsPending c whole cb is_op pos idle =
    let (after, e, w) = write-IsWritten c whole cb is_op pos in
    (
      after,
      e,
      record {
        rest = w.rest;
        in_order = w.in_order;
        spends = w.spends;
        is_op = w.same_state ∙ is_op;
        positive = rw w.same_size pos;
        waits = settled w;
      },
    )
  where
    settled :
        {after : Channel} (w : IsWritten whole c after)
        → ((length w.rest ≡ 0) × (after.wait_window ≡ false))
          ⊎ ((after.chunk ≡ some w.rest) × (after.wait_window ≡ true) × (after.outgoing.window ≡ 0))
    settled w = elim (w.waits) [ inl (empty, same) ↦ inl (empty, same ∙ idle) | inr h ↦ inr h ]

-- A chunk is written, and then the peer opens its window any number of times. The code never stops on
-- the way, and the bytes put on the wire, followed by those still held, are the bytes sent before and
-- then the chunk, in order, with nothing twice; what is sent and what is held account for the window.
pub write_in_order :
    (c : Channel) (whole : Bytes) (cb : Option ℕ) (ns : List ℕ)
    → c.outgoing.state ≡ State.open_
    → 0 < c.outgoing.packet_size
    → c.wait_window ≡ false
    → (c' : Channel) × ((write c whole cb >>= on_window_adjusts ns) ≡ some c')
      × IsPending (sent data_of c.log ++ whole) (length whole) (c.outgoing.window + sum ns) c'
write_in_order c whole cb ns is_op pos idle =
    let (c₁, e₁, p₁) = write-IsPending c whole cb is_op pos idle in
    let (c₂, e₂, p₂) = on_window_adjusts-IsPending ns _ _ _ c₁ p₁ in (c₂, rw e₁ e₂, p₂)

nil_of_length : (b : Bytes) → length b ≡ 0 → b ≡ []
nil_of_length [] h = refl
nil_of_length (x ∷ xs) h = absurd (omega arith)

-- Once the credit given covers the chunk, all of it has been sent.
pub write_complete :
    (c : Channel) (whole : Bytes) (cb : Option ℕ) (ns : List ℕ)
    → c.outgoing.state ≡ State.open_
    → 0 < c.outgoing.packet_size
    → c.wait_window ≡ false
    → length whole ≤ c.outgoing.window + sum ns
    → (c' : Channel) × ((write c whole cb >>= on_window_adjusts ns) ≡ some c')
      × (sent data_of c'.log ≡ sent data_of c.log ++ whole)
write_complete c whole cb ns is_op pos idle enough =
    let (c', e, p) = write_in_order c whole cb ns is_op pos idle in
    let empty : p.rest ≡ [] =
      nil_of_length p.rest
        (elim (p.waits) [ inl (z, _) ↦ z | inr (_, _, shut) ↦ omega (arith, p.spends) ]) in
    (
      c',
      e,
      sym (append-nil (sent data_of c'.log))
          ∙ ap (sent data_of c'.log ++◌) (sym empty)
          ∙ p.in_order,
    )
