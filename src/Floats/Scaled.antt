-- ===== src/Floats/Scaled.antt =====
-- An instance of the interface that computes: numbers with ten decimals, as signed natural numbers.
use ai_trading_backend.Common.{
  ℕ, zero, suc, ◌+◌, ◌-◌, ◌*◌, ◌/◌, ◌≡◌, refl, Bool, true, false, if◌then◌else◌, leb, ltb, arith,
}
use ai_trading_backend.Floats.{Floats}

-- `pos n` is n / 10 ^ 10, and `negsuc n` is -(n + 1) / 10 ^ 10.
pub data Scaled : Type 0 where
  pos negsuc : ℕ → Scaled

abbrev power_of_ten : ℕ → ℕ
power_of_ten zero = 1
power_of_ten (suc k) = 10 * power_of_ten k

abbrev one : ℕ
one = 10000000000

abbrev magnitude : Scaled → ℕ
magnitude (pos n) = n
magnitude (negsuc n) = suc n

abbrev is_neg : Scaled → Bool
is_neg (pos n) = false
is_neg (negsuc n) = true

abbrev negate : ℕ → Scaled
negate zero = pos 0
negate (suc n) = negsuc n

-- The number of a sign and a magnitude.
abbrev signed : Bool → ℕ → Scaled
signed true n = negate n
signed false n = pos n

abbrev opposite : Scaled → Scaled
opposite (pos n) = negate n
opposite (negsuc n) = pos (suc n)

abbrev from_diff : ℕ → ℕ → Scaled
from_diff a b = if leb b a then pos (a - b) else negate (b - a)

abbrev plus : Scaled → Scaled → Scaled
plus (pos a) (pos b) = pos (a + b)
plus (pos a) (negsuc b) = from_diff a (suc b)
plus (negsuc a) (pos b) = from_diff b (suc a)
plus (negsuc a) (negsuc b) = negsuc (suc (a + b))

abbrev differ : Bool → Bool → Bool
differ true b = if b then false else true
differ false b = b

abbrev times : Scaled → Scaled → Scaled
times a b = signed (differ (is_neg a) (is_neg b)) (magnitude a * magnitude b / one)

abbrev over : Scaled → Scaled → Scaled
over a b = signed (differ (is_neg a) (is_neg b)) (magnitude a * one / magnitude b)

abbrev floor_of : Scaled → Scaled
floor_of (pos n) = pos (n / one * one)
floor_of (negsuc n) = negate (suc (n / one) * one)

abbrev round_to : Scaled → ℕ → Scaled
round_to a k =
    let unit = power_of_ten (10 - k) in signed (is_neg a) ((magnitude a + unit / 2) / unit * unit)

abbrev less : Scaled → Scaled → Bool
less (pos a) (pos b) = ltb a b
less (pos a) (negsuc b) = false
less (negsuc a) (pos b) = true
less (negsuc a) (negsuc b) = ltb b a

abbrev at_most : Scaled → Scaled → Bool
at_most (pos a) (pos b) = leb a b
at_most (pos a) (negsuc b) = false
at_most (negsuc a) (pos b) = true
at_most (negsuc a) (negsuc b) = leb b a

pub at_most_refl : (a : Scaled) → at_most a a ≡ true
at_most_refl (pos a) = ground arith
at_most_refl (negsuc a) = ground arith

pub less_irrefl : (a : Scaled) → less a a ≡ false
less_irrefl (pos a) = ground arith
less_irrefl (negsuc a) = ground arith

pub less_trans : (a b c : Scaled) → less a b ≡ true → less b c ≡ true → less a c ≡ true
less_trans (pos a) (pos b) (pos c) h k = ground arith
less_trans (pos a) (pos b) (negsuc c) h k = k
less_trans (pos a) (negsuc b) c h k = ground arith
less_trans (negsuc a) (pos b) (pos c) h k = refl
less_trans (negsuc a) (pos b) (negsuc c) h k = ground arith
less_trans (negsuc a) (negsuc b) (pos c) h k = refl
less_trans (negsuc a) (negsuc b) (negsuc c) h k = ground arith

pub less-at_most : (a b : Scaled) → less a b ≡ true → at_most a b ≡ true
less-at_most (pos a) (pos b) h = ground arith
less-at_most (pos a) (negsuc b) h = h
less-at_most (negsuc a) (pos b) h = refl
less-at_most (negsuc a) (negsuc b) h = ground arith

pub at_most_trans : (a b c : Scaled) → at_most a b ≡ true → at_most b c ≡ true → at_most a c ≡ true
at_most_trans (pos a) (pos b) (pos c) h k = ground arith
at_most_trans (pos a) (pos b) (negsuc c) h k = k
at_most_trans (pos a) (negsuc b) c h k = ground arith
at_most_trans (negsuc a) (pos b) (pos c) h k = refl
at_most_trans (negsuc a) (pos b) (negsuc c) h k = ground arith
at_most_trans (negsuc a) (negsuc b) (pos c) h k = refl
at_most_trans (negsuc a) (negsuc b) (negsuc c) h k = ground arith

pub less_asymm : (a b : Scaled) → less a b ≡ true → at_most b a ≡ false
less_asymm (pos a) (pos b) h = ground arith
less_asymm (pos a) (negsuc b) h = ground arith
less_asymm (negsuc a) (pos b) h = refl
less_asymm (negsuc a) (negsuc b) h = ground arith

abbrev pub scaled : Floats
scaled = record {
  F = Scaled;
  lit = λ m k. pos (m * power_of_ten (10 - k));
  add = plus;
  sub = λ a b. plus a (opposite b);
  mul = times;
  div = over;
  abs = λ a. pos (magnitude a);
  neg = opposite;
  floor = floor_of;
  round = round_to;
  lt = less;
  le = at_most;
  le_lit = λ m k. at_most_refl (pos (m * power_of_ten (10 - k)));
  lt_irrefl = less_irrefl;
  lt_trans = less_trans;
  lt_le = less-at_most;
  le_trans = at_most_trans;
  lt_asymm = less_asymm;
}
