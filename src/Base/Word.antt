-- ===== src/Base/Word.antt =====
-- 64-bit words as native numbers below 2 ^ 64: the bits, `math/bits.Len64`, negation, and the
-- signed number that an `int64` bit pattern stands for.
use Prim.Native.Nat.{ℕ, zero, suc, ◌+◌, ◌-◌, ◌*◌, ◌/◌, ◌%◌, ◌^◌, ◌≤◌, ◌<◌}
use mathlib.Core.Path.{◌≡◌, sym, ◌∙◌, ap}
use mathlib.Core.Bool.{Bool, true, false}
use native.Mathlib.Omega.{arith}
use native.Mathlib.Nat.{
  pow-suc, one-le-pow, div-add-mod', mul-add-mod_self_right, mod-eq_of_lt, mod-lt, div-eq_of_lt,
}
use bitstar.Base.Tests.{ltb, ◌==◌, if◌then◌else◌}

-- `w & (1 << j) > 0`.
unfoldable pub bit : ℕ → ℕ → Bool
bit w j = w / 2 ^ j % 2 == 1

-- What bit `j` adds to a number.
abbrev pub weight : Bool → ℕ → ℕ
weight b j = if b then 2 ^ j else 0

-- `w | (1 << j)`; a shift by 64 or more gives 0.
unfoldable pub set_bit : ℕ → ℕ → ℕ
set_bit w j = if bit w j then w else (w + 2 ^ j) % 2 ^ 64

-- `^w + 1`, the two's complement negation.
unfoldable pub negate : ℕ → ℕ
negate w = (2 ^ 64 - w) % 2 ^ 64

-- The number of digits that `n` still has, at most `fuel`.
unfoldable pub len_digits : ℕ → ℕ → ℕ
len_digits zero n = 0
len_digits (suc fuel) n = let rest = len_digits fuel (n / 2) in if n == 0 then 0 else suc rest

-- `bits.Len64`.
unfoldable pub len64 : ℕ → ℕ
unfolding len_digits
len64 n = len_digits 64 n

-- `MinInt64` and `MaxInt64` as bit patterns.
abbrev pub min64_bit_signed : ℕ
min64_bit_signed = 2 ^ 63

abbrev pub max64_bit_signed : ℕ
max64_bit_signed = 2 ^ 63 - 1

-- Is the `int64` negative?
abbrev pub is_negative : ℕ → Bool
is_negative w = if ltb w (2 ^ 63) then false else true

-- The order of `int64` on bit patterns: adding 2 ^ 63 turns it into the order of the patterns.
abbrev pub signed_rank : ℕ → ℕ
signed_rank w = (w + 2 ^ 63) % 2 ^ 64

pub pow_pos : (j : ℕ) → 0 < 2 ^ j
pow_pos j = one-le-pow j 2 (omega arith)

-- Peeling off the top bit of a low part.
low_split : (q r p : ℕ) → r < p → (q * p + r) % (p * 2) ≡ r + (q % 2) * p
low_split q r p h =
    ap (λ (t : ℕ). t % (p * 2)) (regroup q r p)
    ∙ mul-add-mod_self_right (q / 2) (p * 2) (q % 2 * p + r)
    ∙ mod-eq_of_lt (in_range (q % 2) r p (omega arith) h)
    ∙ omega arith
  where
    regroup : (q r p : ℕ) → q * p + r ≡ q / 2 * (p * 2) + (q % 2 * p + r)
    regroup q r p =
        let halves : q ≡ q / 2 * 2 + q % 2 = omega arith in
        omega (arith, ap (λ (t : ℕ). t * p) halves)

    in_range : (b r p : ℕ) → b < 2 → r < p → b * p + r < p * 2
    in_range b r p hb hr = let most : b ≤ 1 = omega arith in grind arith

pub mod-pow-suc : (w j : ℕ) → w % 2 ^ suc j ≡ w % 2 ^ j + weight (bit w j) j
unfolding bit
mod-pow-suc w j = rw (pow-suc 2 j) (
    let split = low_split (w / 2 ^ j) (w % 2 ^ j) (2 ^ j) (mod-lt w (pow_pos j)) in
    ap (λ (t : ℕ). t % (2 ^ j * 2)) (sym (div-add-mod' w (2 ^ j)))
    ∙ split
    ∙ last (w / 2 ^ j % 2) (omega arith))
  where
    last : (b : ℕ) → b < 2 → w % 2 ^ j + b * 2 ^ j ≡ w % 2 ^ j + weight (b == 1) j
    last zero h = omega arith
    last (suc zero) h = omega arith
    last (suc (suc b)) h = absurd (omega arith)

-- A bit that is not below the length of a number is clear.
pub bit_of_lt : (w j : ℕ) → w < 2 ^ j → bit w j ≡ false
unfolding bit
bit_of_lt w j h = let none_left : w / 2 ^ j ≡ 0 = div-eq_of_lt h in ground arith

pub set_bit_of_lt : (w j : ℕ) → w < 2 ^ j → set_bit w j ≡ (w + 2 ^ j) % 2 ^ 64
unfolding set_bit
set_bit_of_lt w j h = ground (arith, bit_of_lt w j h)

-- `Len64` is the length: every word fits in that many bits.
pub lt-len_digits : (fuel n : ℕ) → n < 2 ^ fuel → n < 2 ^ len_digits fuel n
unfolding len_digits
lt-len_digits zero n h = h
lt-len_digits (suc fuel) n h =
    let less : n / 2 < 2 ^ fuel = omega (arith, pow-suc 2 fuel) in
    ground (arith, lt-len_digits fuel (n / 2) less, pow-suc 2 (len_digits fuel (n / 2)))

pub len_digits-le : (fuel n : ℕ) → len_digits fuel n ≤ fuel
unfolding len_digits
len_digits-le zero n = omega arith
len_digits-le (suc fuel) n = ground (arith, len_digits-le fuel (n / 2))

pub lt-len64 : (n : ℕ) → n < 2 ^ 64 → n < 2 ^ len64 n
unfolding len64
lt-len64 n h = lt-len_digits 64 n h

pub len64-le : (n : ℕ) → len64 n ≤ 64
unfolding len64
len64-le n = len_digits-le 64 n
