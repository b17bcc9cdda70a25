-- ===== src/Channel/Phase.antt =====
-- The outgoing half of a channel against the order of messages that the protocol asks for: data, then
-- at most one end of file, then at most one close.
use ssh.Common.{
  ℕ, ◌+◌, ◌≡◌, refl, ◌∙◌, arith, Bool, true, false, Option, none, some, List, [], ◌∷◌, ◌++◌, map,
  ◌>>=◌, ◌⊎◌, inl, inr, Bool-cases, Option-cases, Bytes, ltb, length,
}
use mathlib.Core.Option
use ssh.Channel.Written.{held}
use ssh.Channel.Model.{
  State, Event, channel_data, channel_ext_data, channel_eof, channel_close, replied, called,
  Channel, is_open, emit_all,
}
use ssh.Channel.Writing.{
  Sending, set_out_window, call_option, after_write, write, after_write_stderr, write_stderr,
  resume, on_window_adjust,
}
use ssh.Channel.Control.{send_eof, close, on_finish, finish_close, fail_callbacks, on_close}

-- The protocol's side: what may be sent in which phase.
abbrev pub next : State → Event → Option State
next State.open_ (channel_data id b) = some State.open_
next State.open_ (channel_ext_data id b) = some State.open_
next State.open_ (channel_eof id) = some State.eof
next State.open_ (channel_close id) = some State.closing
next State.eof (channel_close id) = some State.closing
next s (channel_data id b) = none
next s (channel_ext_data id b) = none
next s (channel_eof id) = none
next s (channel_close id) = none
next s e = some s

abbrev pub phase : State → List Event → Option State
phase s [] = some s
phase s (e ∷ es) = next s e >>= λ t. phase t es

-- `closed` is `closing` once the peer's close has come.
abbrev pub sent_phase : State → State
sent_phase State.closed = State.closing
sent_phase s = s

abbrev pub Conforms : Channel → Type 0
Conforms c = phase State.open_ c.log ≡ some (sent_phase c.outgoing.state)

bind_assoc :
    {A B : Type 0} (o : Option State) (f : State → Option A) (g : A → Option B)
    → ((o >>= f) >>= g) ≡ (o >>= λ x. f x >>= g)
bind_assoc none f g = refl
bind_assoc (some x) f g = refl

phase-append :
    (s : State) (es ds : List Event) → phase s (es ++ ds) ≡ (phase s es >>= λ t. phase t ds)
phase-append s [] ds = refl
phase-append s (e ∷ es) ds = elim (Option-cases (next s e)) [
  | inl stop ↦ rw stop
  | inr (t, go) ↦ rw go (phase-append t es ds)
]

-- What one operation adds to the log, taken from a conforming channel.
pub extend :
    (c : Channel) (ds : List Event) (t : State)
    → Conforms c
    → phase (sent_phase c.outgoing.state) ds ≡ some t
    → phase State.open_ (c.log ++ ds) ≡ some t
extend c ds t h e = phase-append State.open_ c.log ds ∙ rw h e

phase-data :
    (id : ℕ) (ss : List Bytes) → phase State.open_ (map (channel_data id) ss) ≡ some State.open_
phase-data id [] = refl
phase-data id (s ∷ ss) = phase-data id ss

phase-ext_data :
    (id : ℕ) (ss : List Bytes) → phase State.open_ (map (channel_ext_data id) ss) ≡ some State.open_
phase-ext_data id [] = refl
phase-ext_data id (s ∷ ss) = phase-ext_data id ss

pub next-other :
    (s : State) (cb : ℕ) (b : Bool)
    → (next s (called cb) ≡ some s) × (next s (replied cb b) ≡ some s)
next-other State.open_ cb b = (refl, refl)
next-other State.eof cb b = (refl, refl)
next-other State.closing cb b = (refl, refl)
next-other State.closed cb b = (refl, refl)

phase-replied : (s : State) (cbs : List ℕ) → phase s (map (λ cb. replied cb true) cbs) ≡ some s
phase-replied s [] = refl
phase-replied s (cb ∷ cbs) = rw (next-other s cb true).1 (phase-replied s cbs)

call_option-Conforms : (cb : Option ℕ) (c : Channel) → Conforms c → Conforms (call_option cb c)
unfolding call_option
call_option-Conforms none c h = h
call_option-Conforms (some cb) c h =
    extend c (called cb ∷ []) (sent_phase c.outgoing.state) h
      (rw (next-other (sent_phase c.outgoing.state) cb true).0)

-- Data on an open channel, whatever becomes of the rest of the chunk.
data-Conforms :
    (c : Channel) (es : List Event)
    → c.outgoing.state ≡ State.open_
    → phase State.open_ es ≡ some State.open_
    → Conforms c
    → phase State.open_ (c.log ++ es) ≡ some (sent_phase c.outgoing.state)
data-Conforms c es is_op e h = extend c es State.open_ h (rw is_op e) ∙ rw is_op

after_write-Conforms :
    (cb : Option ℕ) (r : Sending) (c : Channel)
    → c.outgoing.state ≡ State.open_
    → Conforms c
    → Conforms (after_write cb r c)
unfolding after_write
after_write-Conforms cb r c is_op h =
    let es = map (channel_data c.outgoing.id) r.slices in
    let ok = data-Conforms c es is_op (phase-data c.outgoing.id r.slices) h in
    elim (Bool-cases (ltb 0 (length r.left))) [
      | inl more ↦ rw more ok
      | inr all ↦ rw all (call_option-Conforms cb (emit_all es (set_out_window r.window c)) ok)
    ]

after_write_stderr-Conforms :
    (cb : Option ℕ) (r : Sending) (c : Channel)
    → c.outgoing.state ≡ State.open_
    → Conforms c
    → Conforms (after_write_stderr cb r c)
unfolding after_write_stderr
after_write_stderr-Conforms cb r c is_op h =
    let es = map (channel_ext_data c.outgoing.id) r.slices in
    let ok = data-Conforms c es is_op (phase-ext_data c.outgoing.id r.slices) h in
    elim (Bool-cases (ltb 0 (length r.left))) [
      | inl more ↦ rw more ok
      | inr all ↦ rw all (call_option-Conforms cb (emit_all es (set_out_window r.window c)) ok)
    ]

-- A result, if there is one, conforms.
abbrev pub ConformsIf : Option Channel → Type 0
ConformsIf none = Unit
ConformsIf (some c) = Conforms c

ConformsIf-map :
    (f : Sending → Channel) (o : Option Sending)
    → ((r : Sending) → Conforms (f r))
    → ConformsIf (Option.map f o)
ConformsIf-map f none h = tt
ConformsIf-map f (some r) h = h r

pub State-cases : (s : State) → ((s ≡ State.open_) × (is_open s ≡ true)) ⊎ (is_open s ≡ false)
State-cases State.open_ = inl (refl, refl)
State-cases State.eof = inr refl
State-cases State.closing = inr refl
State-cases State.closed = inr refl

pub write-Conforms :
    (c : Channel) (b : Bytes) (cb : Option ℕ) → Conforms c → ConformsIf (write c b cb)
unfolding write
write-Conforms c b cb h = elim (State-cases c.outgoing.state) [
  | inl (is_op, e) ↦ rw e (ConformsIf-map _ _ (λ r. after_write-Conforms cb r c is_op h))
  | inr shut ↦ rw shut h
]

pub write_stderr-Conforms :
    (c : Channel) (b : Bytes) (cb : Option ℕ) → Conforms c → ConformsIf (write_stderr c b cb)
unfolding write_stderr
write_stderr-Conforms c b cb h = elim (State-cases c.outgoing.state) [
  | inl (is_op, e) ↦ rw e (ConformsIf-map _ _ (λ r. after_write_stderr-Conforms cb r c is_op h))
  | inr shut ↦ rw shut h
]

resume-Conforms : (c : Channel) → Conforms c → ConformsIf (resume c)
unfolding resume
resume-Conforms c h = ground (
  arith,
  write-Conforms c (held c.chunk) c.chunkcb h,
  write_stderr-Conforms c (held c.chunk_err) c.chunkcb_err h,
  call_option-Conforms c.chunkcb_err c h,
  call_option-Conforms c.chunkcb c h,
)

pub on_window_adjust-Conforms :
    (c : Channel) (n : ℕ) → Conforms c → ConformsIf (on_window_adjust c n)
unfolding on_window_adjust
on_window_adjust-Conforms c n h = elim (Bool-cases c.wait_window) [
  | inl w ↦ rw w (
      resume-Conforms (record (set_out_window (c.outgoing.window + n) c) { wait_window = false }) h)
  | inr w ↦ rw w h
]

pub send_eof-Conforms : (c : Channel) → Conforms c → Conforms (send_eof c)
unfolding send_eof
send_eof-Conforms c h = ground (arith, extend c (channel_eof c.outgoing.id ∷ []) State.eof)

pub close-Conforms : (c : Channel) → Conforms c → Conforms (close c)
unfolding close
close-Conforms c h = ground (arith, extend c (channel_close c.outgoing.id ∷ []) State.closing)

pub on_finish-Conforms : (c : Channel) → Conforms c → Conforms (on_finish c)
unfolding on_finish
on_finish-Conforms c h =
    ground (arith, send_eof-Conforms c h, close-Conforms (send_eof c) (send_eof-Conforms c h))

finish_close-Conforms : (c : Channel) → Conforms c → Conforms (finish_close c)
unfolding finish_close
finish_close-Conforms c h = ground arith

fail_callbacks-Conforms : (c : Channel) → Conforms c → Conforms (fail_callbacks c)
unfolding fail_callbacks
fail_callbacks-Conforms c h =
    extend c (map (λ cb. replied cb true) c.callbacks) (sent_phase c.outgoing.state) h
      (phase-replied (sent_phase c.outgoing.state) c.callbacks)

pub on_close-Conforms : (c : Channel) (dead : Bool) → Conforms c → Conforms (on_close c dead).0
unfolding on_close
on_close-Conforms c dead h =
    let c' = record c { incoming = record { window = c.incoming.window; state = State.closed } } in
    ground (
      arith,
      close-Conforms c' h,
      finish_close-Conforms c' h,
      finish_close-Conforms (close c') (close-Conforms c' h),
      fail_callbacks-Conforms (finish_close c') (finish_close-Conforms c' h),
      fail_callbacks-Conforms (finish_close (close c'))
          (finish_close-Conforms (close c') (close-Conforms c' h)),
    )
