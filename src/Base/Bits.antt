-- ===== src/Base/Bits.antt =====
-- Masks of ones: `x & (n - 1)` is `x % n` where n is a power of two.
use Prim.Native.Nat.{
  ℕ, zero, suc, ◌+◌, ◌-◌, ◌*◌, ◌/◌, ◌%◌, ◌≤◌, ◌<◌, min, bit_and, digits, bit_and-bitwise,
}
use mathlib.Core.Path.{◌≡◌, refl, subst, ◌∙◌, sym, ap}
use native.Mathlib.Omega.{arith}
use native.Mathlib.Nat.{mod-eq_of_lt, mod-lt, add-mul-mod_self_left, div-add-mod}

pub data IsPow2 : ℕ → Type 0 where
  unit : {n : ℕ} → n ≡ 1 → IsPow2 n
  twice : {n : ℕ} (m : ℕ) → IsPow2 m → n ≡ m * 2 → IsPow2 n

pub pow2_pos : {n : ℕ} → IsPow2 n → 0 < n
pow2_pos (unit e) = omega arith
pow2_pos (twice m p e) = omega (arith, pow2_pos p)

pub IsPow2-sixteen : IsPow2 16
IsPow2-sixteen = twice 8 (twice 4 (twice 2 (twice 1 (unit refl) refl) refl) refl) refl

pub IsPow2-half : {n : ℕ} → IsPow2 n → 1 < n → IsPow2 (n / 2)
IsPow2-half (unit e) h = absurd (omega arith)
IsPow2-half {n} (twice m p e) h = let half : m ≡ n / 2 = omega arith in subst IsPow2 half p

mod-twice : (a m : ℕ) → 0 < m → a / 2 % m * 2 + a % 2 ≡ a % (m * 2)
mod-twice a m h =
    sym (mod-eq_of_lt (omega (arith, mod-lt (a / 2) h)))
    ∙ sym (add-mul-mod_self_left (a / 2 % m * 2 + a % 2) (m * 2) (a / 2 / m))
    ∙ ap (λ k. k % (m * 2)) (omega (arith, div-add-mod (a / 2) m))

-- The digits of the mask are ones, so the conjunction keeps those of `a`: by the digit recursion
-- that the native operation stands for, with enough digits.
masked : (f a : ℕ) {n : ℕ} → a ≤ f → IsPow2 n → digits (λ b. zero) min f a (n - 1) ≡ a % n
masked zero zero h p = omega (arith, pow2_pos p)
masked zero (suc a) h p = absurd (omega arith)
masked (suc f) zero h p = omega (arith, pow2_pos p)
masked (suc f) (suc a) {n} h (unit e) =
    let tail = masked f (suc a / 2) {n = 1} (omega arith) (unit refl) in rw e (omega (arith, tail))
masked (suc f) (suc a) {n} h (twice m p e) =
    let tail = masked f (suc a / 2) (omega arith) p in
    let mask : (m * 2 - 1) / 2 ≡ m - 1 = omega (arith, pow2_pos p) in
    rw (e, digits, mask) (omega (arith, tail, mod-twice (suc a) m (pow2_pos p), pow2_pos p))

pub bit_and-mask : {n : ℕ} → IsPow2 n → (a : ℕ) → bit_and a (n - 1) ≡ a % n
bit_and-mask {n} p a = bit_and-bitwise a (n - 1) ∙ masked a a (omega arith) p
