-- ===== src/Cipher/Tests.antt =====
-- A packet of a CTR cipher with an encrypt-then-MAC.
use ssh.Common.{refl, true, inr}
use ssh.Cipher.{
  IsBlock, generic_binding, alloc_packet, block_of, outside, behind, IsPadded,
  alloc_packet-IsPadded, KnownBlock,
}

alloc_packet-IsPadded_example :
    IsPadded
      (block_of (generic_binding 16 true 32))
      (outside (generic_binding 16 true 32))
      (behind (generic_binding 16 true 32))
      5
      (alloc_packet (generic_binding 16 true 32) 5)
unfolding IsBlock KnownBlock
alloc_packet-IsPadded_example = alloc_packet-IsPadded (generic_binding 16 true 32) 5 (inr refl)
