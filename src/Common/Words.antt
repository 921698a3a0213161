-- ===== src/Common/Words.antt =====
-- Machine integers: `std::size_t` (64 bits) and `unsigned short` (16 bits), with their wrap-around.
use Prim.Native.Nat.{ℕ, zero, suc, ◌≤◌, ◌+◌, ◌-◌, ◌%◌, ◌^◌, ◌<◌}
use mathlib.Core.Path.{◌≡◌, subst}
use native.Mathlib.Omega.{arith, pow_step}

abbrev pub size_mod : ℕ
size_mod = 2 ^ 64

abbrev pub ushort_mod : ℕ
ushort_mod = 2 ^ 16

-- `a + b` and `a - b` on `std::size_t`
abbrev pub add_size : ℕ → ℕ → ℕ
add_size a b = (a + b) % size_mod

abbrev pub sub_size : ℕ → ℕ → ℕ
sub_size a b = (a + size_mod - b) % size_mod

pub add_size-eq_of_lt : (a b : ℕ) → a + b < size_mod → add_size a b ≡ a + b
add_size-eq_of_lt a b h = omega arith

-- Powers of 2 grow with the exponent.
pub power_mono : (i d : ℕ) → 2 ^ i ≤ 2 ^ (d + i)
power_mono i zero =
    let same : i ≡ 0 + i = omega arith in subst (λ j. 2 ^ i ≤ 2 ^ j) same (omega arith)
power_mono i (suc d) =
    let next : suc (d + i) ≡ suc d + i = omega arith in
    subst (λ j. 2 ^ i ≤ 2 ^ j) next (omega (arith, power_mono i d, pow_step 2 (d + i)))
