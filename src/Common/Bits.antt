-- ===== src/Common/Bits.antt =====
-- `x & (2 ** k - 1)` as a remainder.
use Prim.Native.Nat.{
  ℕ, zero, suc, ◌+◌, ◌*◌, ◌/◌, ◌%◌, ◌^◌, ◌-◌, ◌≤◌, ◌<◌, min, bit_and, digits, bit_and-bitwise,
}
use mathlib.Core.Path.{◌≡◌, refl, ap, ◌∙◌, sym}
use native.Mathlib.Omega.{arith}
use native.Mathlib.Nat.{div-add-mod, mod-lt, mod-eq_of_lt, add-mul-mod_self_left}

-- The native `bit_and` without its limit on the rounds.
abbrev masked : ℕ → ℕ → ℕ → ℕ
masked rounds x mask = digits (λ rest. zero) min rounds x mask

abbrev ones : ℕ → ℕ
ones k = 2 ^ k - 1

pow_pos : (k : ℕ) → 0 < 2 ^ k
pow_pos zero = omega arith
pow_pos (suc k) = omega (arith, pow_pos k)

doubled : (k : ℕ) → 2 ^ suc k ≡ 2 * 2 ^ k
doubled k = omega arith

ones-suc : (k : ℕ) → (ones (suc k) / 2 ≡ ones k) × (ones (suc k) % 2 ≡ 1)
ones-suc k = let positive = pow_pos k in (omega (arith, positive), omega (arith, positive))

-- The lowest bit of a remainder by an even number, and the bits above it.
low_bit : (m x : ℕ) → 0 < m → x % (2 * m) ≡ x / 2 % m * 2 + x % 2
low_bit m x h =
    let y = x / 2 % m * 2 + x % 2 in
    let whole : x ≡ y + 2 * m * (x / 2 / m) = omega (arith, div-add-mod (x / 2) m) in
    ap (λ z. z % (2 * m)) whole
    ∙ add-mul-mod_self_left y (2 * m) (x / 2 / m)
    ∙ mod-eq_of_lt (omega (arith, mod-lt (x / 2) h))

masked_none : (rounds x : ℕ) → masked rounds x 0 ≡ 0
masked_none zero zero = refl
masked_none zero (suc x) = refl
masked_none (suc rounds) zero = refl
masked_none (suc rounds) (suc x) = omega (arith, masked_none rounds (suc x / 2))

masked_lem : (k rounds x : ℕ) → x ≤ rounds → masked rounds x (ones k) ≡ x % 2 ^ k
masked_lem zero rounds x h = omega (arith, masked_none rounds x)
masked_lem (suc k) zero zero h = sym (mod-eq_of_lt (pow_pos (suc k)))
masked_lem (suc k) zero (suc x) h = absurd (omega arith)
masked_lem (suc k) (suc rounds) zero h = sym (mod-eq_of_lt (pow_pos (suc k)))
masked_lem (suc k) (suc rounds) (suc x) h = omega (
  arith,
  masked_lem k rounds (suc x / 2) (omega arith),
  ap (masked rounds (suc x / 2)) (ones-suc k).0,
  (ones-suc k).1,
  low_bit (2 ^ k) (suc x) (pow_pos k),
  ap (λ m. suc x % m) (doubled k),
)

-- A mask of `k` ones keeps the remainder by `2 ^ k`, whatever the width.
pub bit_and_mask : (k a : ℕ) → bit_and a (2 ^ k - 1) ≡ a % 2 ^ k
bit_and_mask k a = bit_and-bitwise a (ones k) ∙ masked_lem k a a (omega arith)
