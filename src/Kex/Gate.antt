-- ===== src/Kex/Gate.antt =====
-- `onKEXPayload`: the packets let through while a key exchange runs.
use ssh.Common.{
  ℕ, suc, ◌+◌, ◌≤◌, ◌≡◌, arith, Bool, true, false, ◌&&◌, ◌||◌, List, [], ◌∷◌, ltb, ◌==◌,
  if◌then◌else◌, Bytes,
}

-- `_skipNextInboundPacket`, and the `firstPacket` of the state that the handler is bound to.
pub record Gate : Type 0 where
  pub skip_next : Bool
  pub first_packet : Bool

-- What is done with a packet.
pub data Passed : Type 0 where
  nothing : Passed
  transport : ℕ → Passed
  key_init : Bytes → Passed
  key_packet : Bytes → Passed
  extra_kexinit : Passed
  unexpected : ℕ → Passed

-- `type < 20 || type > 49`.
abbrev pub outside : ℕ → Bool
outside type = ltb type 20 || ltb 49 type

-- The switch on the type.
abbrev pub by_type : Gate → ℕ → Bytes → Gate × Passed
by_type g type payload =
    if ltb 0 type && ltb type 5
    then (g, transport type)
    else if type == 20
    then if g.first_packet
      then (record g { first_packet = false }, key_init payload)
      else (g, extra_kexinit)
    else if outside type
    then (g, unexpected type)
    else (g, key_packet payload)

-- A payload without a type passes the comparisons.
abbrev pub of_type : Gate → Bytes → Gate × Passed
of_type g [] = (g, key_packet [])
of_type g (t ∷ rest) = by_type g t (t ∷ rest)

-- `inflate` stands for `_packetRW.read.read`, which undoes the compression.
unfoldable pub on_kex_payload : (Bytes → Bytes) → Gate → Bytes → Gate × Passed
on_kex_payload inflate g [] = (g, nothing)
on_kex_payload inflate g (b ∷ bs) =
    let payload = inflate (b ∷ bs) in
    if g.skip_next then (record g { skip_next = false }, nothing) else of_type g payload

-- The packets of one key exchange, with what is done with each.
unfoldable pub on_kex_payloads : (Bytes → Bytes) → Gate → List Bytes → List Passed
unfolding on_kex_payload
on_kex_payloads inflate g [] = []
on_kex_payloads inflate g (p ∷ ps) =
    let (g', did) = on_kex_payload inflate g p in did ∷ on_kex_payloads inflate g' ps

-- The KEXINITs that are acted on.
abbrev pub kexinits : List Passed → ℕ
kexinits [] = 0
kexinits (key_init b ∷ ps) = suc (kexinits ps)
kexinits (p ∷ ps) = kexinits ps

abbrev one_if : Bool → ℕ
one_if true = 1
one_if false = 0

abbrev is_init : Passed → ℕ
is_init (key_init b) = 1
is_init p = 0

kexinits-cons : (p : Passed) (ps : List Passed) → kexinits (p ∷ ps) ≡ is_init p + kexinits ps
kexinits-cons p ps = ground arith

-- A step that acts on a KEXINIT uses the permission up.
on_kex_payload-uses :
    (inflate : Bytes → Bytes) (g : Gate) (p : Bytes)
    → is_init (on_kex_payload inflate g p).1 + one_if (on_kex_payload inflate g p).0.first_packet
      ≤ one_if g.first_packet
unfolding on_kex_payload
on_kex_payload-uses inflate g [] = omega arith
on_kex_payload-uses inflate g (b ∷ bs) = ground arith

-- Whatever packets arrive during one key exchange, and whatever the decompression does, at most one
-- KEXINIT is acted on, and none if the state says that the first packet is over.
pub kexinits-on_kex_payloads :
    (inflate : Bytes → Bytes) (g : Gate) (ps : List Bytes)
    → kexinits (on_kex_payloads inflate g ps) ≤ one_if g.first_packet
unfolding on_kex_payloads
kexinits-on_kex_payloads inflate g [] = omega arith
kexinits-on_kex_payloads inflate g (p ∷ ps) = omega (
  arith,
  on_kex_payload-uses inflate g p,
  kexinits-on_kex_payloads inflate (on_kex_payload inflate g p).0 ps,
  kexinits-cons (on_kex_payload inflate g p).1
      (on_kex_payloads inflate (on_kex_payload inflate g p).0 ps),
)
