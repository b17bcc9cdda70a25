-- ===== src/Cipher.antt =====
-- lib/protocol/crypto.js: the room that each cipher makes for a packet. The ciphers themselves are
-- Node's crypto and the native binding, which are not modelled.
mod Tests
use ssh.Common.{
  ℕ, ◌+◌, ◌-◌, ◌*◌, ◌/◌, ◌%◌, ◌≤◌, ◌<◌, ◌^◌, ◌≡◌, refl, sym, arith, Bool, true, false, ltb,
  if◌then◌else◌, bit_and, ◌⊎◌, inl, inr,
}
use mathlib.Core.Path.{subst}
use ssh.Common.Bits.{bit_and_mask}

-- A new packet: the bytes allocated, the two numbers stored in front, and where the random bytes go.
pub record Allocated : Type 0 where
  pub size : ℕ
  pub length_field : ℕ
  pub pad_len : ℕ
  pub fill_from : ℕ

-- The body that the classes share: a cipher with blocks of `block` bytes that leaves the first `aad`
-- bytes out of the encryption and wants `extra` bytes behind the packet.
abbrev pub allocated : ℕ → ℕ → ℕ → ℕ → Allocated
allocated block aad extra payload_len =
    let pkt_len = 4 + 1 + payload_len in
    let first = block - bit_and (pkt_len - aad) (block - 1) in
    let pad_len = if ltb first 4 then first + block else first in
    record {
      size = pkt_len + pad_len + extra;
      length_field = pkt_len + pad_len - 4;
      pad_len = pad_len;
      fill_from = 5 + payload_len;
    }

-- The ciphers; `block_len`, `etm` and `mac_len` are `_encBlockLen`, whether `_aadLen` is 4, and `_macLen`.
pub data Cipher : Type 0 where
  null chacha_native chacha_binding gcm_native gcm_binding : Cipher
  generic_native : ℕ → Bool → Cipher
  generic_binding : ℕ → Bool → ℕ → Cipher

abbrev pub aad_len : Bool → ℕ
aad_len etm = if etm then 4 else 0

unfoldable pub alloc_packet : Cipher → ℕ → Allocated
alloc_packet null n = allocated 8 0 0 n
alloc_packet chacha_native n = allocated 8 4 0 n
alloc_packet chacha_binding n = allocated 8 4 16 n
alloc_packet gcm_native n = allocated 16 4 0 n
alloc_packet gcm_binding n = allocated 16 4 16 n
alloc_packet (generic_native block etm) n = allocated block (aad_len etm) 0 n
alloc_packet (generic_binding block etm mac_len) n = allocated block (aad_len etm) mac_len n

-- The block of a cipher, the bytes left out of the encryption, and those wanted behind the packet.
abbrev pub block_of : Cipher → ℕ
block_of null = 8
block_of chacha_native = 8
block_of chacha_binding = 8
block_of gcm_native = 16
block_of gcm_binding = 16
block_of (generic_native block etm) = block
block_of (generic_binding block etm mac_len) = block

abbrev pub outside : Cipher → ℕ
outside null = 0
outside (generic_native block etm) = aad_len etm
outside (generic_binding block etm mac_len) = aad_len etm
outside _ = 4

abbrev pub behind : Cipher → ℕ
behind chacha_binding = 16
behind gcm_binding = 16
behind (generic_binding block etm mac_len) = mac_len
behind _ = 0

-- What RFC 4253, section 6, asks of a packet with `n` bytes of payload.
pub record IsPadded (block aad extra n : ℕ) (p : Allocated) : Type 0 where
  pub enough : 4 ≤ p.pad_len
  pub short : p.pad_len < block + 4
  pub whole : (4 + p.length_field - aad) % block ≡ 0
  pub length : p.length_field ≡ 1 + n + p.pad_len
  pub filled : p.fill_from + p.pad_len + extra ≡ p.size

unfoldable pub IsBlock : ℕ → Type 0
IsBlock b = (b ≡ 8) ⊎ (b ≡ 16)

allocated-8 : (aad extra n : ℕ) → aad ≤ 4 → IsPadded 8 aad extra n (allocated 8 aad extra n)
allocated-8 aad extra n h =
    let mask = bit_and_mask 3 (4 + 1 + n - aad) in
    record {
      enough = ground (arith, mask);
      short = ground (arith, mask);
      whole = ground (arith, mask);
      length = ground (arith, mask);
      filled = ground (arith, mask);
    }

allocated-16 : (aad extra n : ℕ) → aad ≤ 4 → IsPadded 16 aad extra n (allocated 16 aad extra n)
allocated-16 aad extra n h =
    let mask = bit_and_mask 4 (4 + 1 + n - aad) in
    record {
      enough = ground (arith, mask);
      short = ground (arith, mask);
      whole = ground (arith, mask);
      length = ground (arith, mask);
      filled = ground (arith, mask);
    }

-- The block lengths of CIPHER_INFO, which the other classes fix themselves.
unfoldable pub KnownBlock : Cipher → Type 0
KnownBlock c = IsBlock (block_of c)

allocated-IsPadded :
    (block aad extra n : ℕ)
    → IsBlock block
    → aad ≤ 4
    → IsPadded block aad extra n (allocated block aad extra n)
unfolding IsBlock
allocated-IsPadded block aad extra n (inl e) h =
    subst (λ b. IsPadded b aad extra n (allocated b aad extra n)) (sym e)
      (allocated-8 aad extra n h)
allocated-IsPadded block aad extra n (inr e) h =
    subst (λ b. IsPadded b aad extra n (allocated b aad extra n)) (sym e)
      (allocated-16 aad extra n h)

aad_len-bound : (etm : Bool) → aad_len etm ≤ 4
aad_len-bound etm = ground arith

-- Every cipher whose block is 8 or 16 bytes, for every payload length: the padding has at least four
-- bytes and less than a block more, what is encrypted is a whole number of blocks, the length field
-- counts padding length, payload and padding, and the buffer has exactly the bytes wanted.
pub alloc_packet-IsPadded :
    (c : Cipher) (n : ℕ)
    → KnownBlock c
    → IsPadded (block_of c) (outside c) (behind c) n (alloc_packet c n)
unfolding alloc_packet KnownBlock
alloc_packet-IsPadded null n h = allocated-8 0 0 n (omega arith)
alloc_packet-IsPadded chacha_native n h = allocated-8 4 0 n (omega arith)
alloc_packet-IsPadded chacha_binding n h = allocated-8 4 16 n (omega arith)
alloc_packet-IsPadded gcm_native n h = allocated-16 4 0 n (omega arith)
alloc_packet-IsPadded gcm_binding n h = allocated-16 4 16 n (omega arith)
alloc_packet-IsPadded (generic_native block etm) n h =
    allocated-IsPadded block (aad_len etm) 0 n h (aad_len-bound etm)
alloc_packet-IsPadded (generic_binding block etm mac_len) n h =
    allocated-IsPadded block (aad_len etm) mac_len n h (aad_len-bound etm)
