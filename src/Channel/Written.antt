-- ===== src/Channel/Written.antt =====
-- What `_write` leaves behind on an open channel.
use ssh.Common.{
  ℕ, suc, ◌+◌, ◌<◌, ◌≡◌, refl, ap, ◌∙◌, arith, true, Option, none, some, List, [], ◌∷◌, ◌++◌, map,
  append_assoc, append-nil, ◌⊎◌, inl, inr, length, length-append, ltb, Bytes, Bool-cases,
}
use ssh.Channel.Model.{State, Event, channel_data, channel_ext_data, called, Channel}
use ssh.Channel.Writing.{Sending, call_option, after_write, write}
use ssh.Channel.Send.{joined, IsSplit, send_slices_total}

-- The bytes that a log sends on the channel's two streams.
abbrev pub data_of : Event → Bytes
data_of (channel_data id b) = b
data_of _ = []

abbrev pub ext_data_of : Event → Bytes
ext_data_of (channel_ext_data id b) = b
ext_data_of _ = []

abbrev pub sent : (Event → Bytes) → List Event → Bytes
sent f [] = []
sent f (e ∷ es) = f e ++ sent f es

pub sent-append :
    (f : Event → Bytes) (es ds : List Event) → sent f (es ++ ds) ≡ sent f es ++ sent f ds
sent-append f [] ds = refl
sent-append f (e ∷ es) ds = simp (sent-append f es ds, append_assoc)

pub sent-map_data : (id : ℕ) (ss : List Bytes) → sent data_of (map (channel_data id) ss) ≡ joined ss
sent-map_data id [] = refl
sent-map_data id (s ∷ ss) = ap (s ++◌) (sent-map_data id ss)

pub sent-map_ext : (id : ℕ) (ss : List Bytes) → sent ext_data_of (map (channel_data id) ss) ≡ []
sent-map_ext id [] = refl
sent-map_ext id (s ∷ ss) = sent-map_ext id ss

-- The chunk held back, as bytes.
abbrev pub held : Option Bytes → Bytes
held none = []
held (some b) = b

-- What a write leaves behind: `whole` is sent or held, in order; if something is held, the window is
-- used up and the channel waits for it.
pub record IsWritten (whole : Bytes) (before after : Channel) : Type 0 where
  pub rest : Bytes
  pub in_order : sent data_of after.log ++ rest ≡ sent data_of before.log ++ whole
  pub stderr_same : sent ext_data_of after.log ≡ sent ext_data_of before.log
  pub spends : after.outgoing.window + length whole ≡ before.outgoing.window + length rest
  pub same_state : after.outgoing.state ≡ before.outgoing.state
  pub same_size : after.outgoing.packet_size ≡ before.outgoing.packet_size
  pub waits :
      ((length rest ≡ 0) × (after.wait_window ≡ before.wait_window))
      ⊎ ((after.chunk ≡ some rest) × (after.wait_window ≡ true) × (after.outgoing.window ≡ 0))

-- The bytes of one write: in the log with those before it.
sent_write :
    (c : Channel) (r : Sending) (whole : Bytes)
    → joined r.slices ++ r.left ≡ whole
    → sent data_of (c.log ++ map (channel_data c.outgoing.id) r.slices) ++ r.left
      ≡ sent data_of c.log ++ whole
sent_write c r whole e =
    rw (sent-append data_of c.log (map (channel_data c.outgoing.id) r.slices)) (
      rw (sent-map_data c.outgoing.id r.slices) (
        append_assoc (sent data_of c.log) (joined r.slices) r.left ∙ ap (sent data_of c.log ++◌) e))

stderr_write :
    (c : Channel) (ss : List Bytes)
    → sent ext_data_of (c.log ++ map (channel_data c.outgoing.id) ss) ≡ sent ext_data_of c.log
stderr_write c ss =
    sent-append ext_data_of c.log (map (channel_data c.outgoing.id) ss)
    ∙ rw (sent-map_ext c.outgoing.id ss, append-nil)

sent-call_option :
    (f : Event → Bytes) (cb : Option ℕ) (c : Channel)
    → ((k : ℕ) → f (called k) ≡ [])
    → sent f (call_option cb c).log ≡ sent f c.log
unfolding call_option
sent-call_option f none c h = refl
sent-call_option f (some cb) c h =
    sent-append f c.log (called cb ∷ []) ∙ rw (h cb) (append-nil (sent f c.log))

outgoing-call_option : (cb : Option ℕ) (c : Channel) → (call_option cb c).outgoing ≡ c.outgoing
unfolding call_option
outgoing-call_option none c = refl
outgoing-call_option (some cb) c = refl

waits-call_option : (cb : Option ℕ) (c : Channel) → (call_option cb c).wait_window ≡ c.wait_window
unfolding call_option
waits-call_option none c = refl
waits-call_option (some cb) c = refl

length_split :
    (packet_size window : ℕ) (whole : Bytes) (r : Sending)
    → IsSplit packet_size window whole r
    → r.window + length whole ≡ window + length r.left
length_split packet_size window whole r s =
    omega (arith, ap length s.keeps, s.counts, length-append (joined r.slices) r.left)

after_write-IsWritten :
    (c : Channel) (cb : Option ℕ) (r : Sending) (whole : Bytes)
    → IsSplit c.outgoing.packet_size c.outgoing.window whole r
    → IsWritten whole c (after_write cb r c)
unfolding after_write
after_write-IsWritten c cb r whole s =
    let spent = length_split c.outgoing.packet_size c.outgoing.window whole r s in
    elim (Bool-cases (ltb 0 (length r.left))) [
      | inl more ↦ record {
        rest = r.left;
        in_order = rw more (sent_write c r whole s.keeps);
        stderr_same = rw more (stderr_write c r.slices);
        spends = rw more spent;
        same_state = rw more;
        same_size = rw more;
        waits = rw more (inr (refl, ground arith, ground arith));
      }
      | inr all ↦ record {
        rest = r.left;
        in_order =
            rw (all, sent-call_option data_of cb _ (λ k. refl)) (sent_write c r whole s.keeps);
        stderr_same =
            rw (all, sent-call_option ext_data_of cb _ (λ k. refl)) (stderr_write c r.slices);
        spends = rw (all, outgoing-call_option) spent;
        same_state = rw (all, outgoing-call_option);
        same_size = rw (all, outgoing-call_option);
        waits = rw all (inl (ground arith, waits-call_option cb _));
      }
    ]

-- A write on an open channel, with a peer that takes packets of at least a byte, returns.
pub write-IsWritten :
    (c : Channel) (whole : Bytes) (cb : Option ℕ)
    → c.outgoing.state ≡ State.open_
    → 0 < c.outgoing.packet_size
    → (after : Channel) × (write c whole cb ≡ some after) × IsWritten whole c after
unfolding write
write-IsWritten c whole cb is_op pos =
    let (r, e, s) =
      send_slices_total (suc (length whole)) c.outgoing.packet_size c.outgoing.window whole pos
        (omega arith) in
    (after_write cb r c, rw (is_op, e), after_write-IsWritten c cb r whole s)
