-- ===== src/RateLimit/Float64.antt =====
-- What internal/ratelimit uses of `float64` and of the conversions to and from `time.Duration`.
-- The numbers and their operations are a parameter; NaN and the negative zero are not covered.
use api_gateway_go.Base.{
  ℕ, ◌+◌, ◌-◌, ◌*◌, ◌/◌, ◌≤◌, ◌≡◌, refl, Bool, true, false, leb, le→leb, ℤ, pos, arith,
}

pub record Float64 : Type 1 where
  pub F : Type 0
  -- `float64(n)` of an integer that is not negative
  pub of_ℕ : ℕ → F
  pub add : F → F → F
  pub sub : F → F → F
  pub mul : F → F → F
  pub div : F → F → F
  -- not an infinity
  pub is_finite : F → Bool
  -- `a <= b`
  pub le : F → F → Bool
  -- `now.Sub(last).Seconds()` of two times in nanoseconds
  pub elapsed : ℕ → ℕ → F
  -- `d.Seconds()`
  pub seconds : ℕ → F
  -- `time.Duration(x * float64(time.Second))`, in nanoseconds
  pub duration : F → ℕ
  -- `int(math.Floor(x))`
  pub floor : F → ℤ

-- The integers up to this one are represented exactly.
abbrev pub max_exact : ℕ
max_exact = 9007199254740992

-- Properties of IEEE 754 arithmetic: rounding is monotone, and integers below 2^53 are exact.
pub record IsIeee (fl : Float64) : Type 0 where
  pub le_refl : (a : fl.F) → fl.le a a ≡ true
  pub le_trans : (a b c : fl.F) → fl.le a b ≡ true → fl.le b c ≡ true → fl.le a c ≡ true
  pub le_total : (a b : fl.F) → fl.le a b ≡ false → fl.le b a ≡ true
  pub zero_add_le : (a b : fl.F) → fl.le (fl.of_ℕ 0) b ≡ true → fl.le a (fl.add a b) ≡ true
  pub zero_mul_le :
      (a b : fl.F)
      → fl.le (fl.of_ℕ 0) a ≡ true
      → fl.le (fl.of_ℕ 0) b ≡ true
      → fl.le (fl.of_ℕ 0) (fl.mul a b) ≡ true
  pub zero_sub_le : (a b : fl.F) → fl.le b a ≡ true → fl.le (fl.of_ℕ 0) (fl.sub a b) ≡ true
  pub sub_le : (a b : fl.F) → fl.le (fl.of_ℕ 0) b ≡ true → fl.le (fl.sub a b) a ≡ true
  pub zero_elapsed_le : (now last : ℕ) → last ≤ now → fl.le (fl.of_ℕ 0) (fl.elapsed now last) ≡ true
  pub elapsed_self : (now : ℕ) → fl.elapsed now now ≡ fl.of_ℕ 0
  pub zero_mul :
      (a : fl.F)
      → fl.is_finite a ≡ true
      → fl.le (fl.of_ℕ 0) a ≡ true
      → fl.mul (fl.of_ℕ 0) a ≡ fl.of_ℕ 0
  -- The quotient of an integer and of a duration of at least a nanosecond does not overflow.
  pub rate :
      (n d : ℕ)
      → n ≤ max_exact
      → 1 ≤ d
      → (fl.is_finite (fl.div (fl.of_ℕ n) (fl.seconds d)) ≡ true)
        × (fl.le (fl.of_ℕ 0) (fl.div (fl.of_ℕ n) (fl.seconds d)) ≡ true)
  pub add_zero : (a : fl.F) → fl.add a (fl.of_ℕ 0) ≡ a
  pub of_ℕ-le : (m n : ℕ) → m ≤ max_exact → n ≤ max_exact → fl.le (fl.of_ℕ m) (fl.of_ℕ n) ≡ leb m n
  pub of_ℕ-sub :
      (m n : ℕ) → m ≤ max_exact → n ≤ m → fl.sub (fl.of_ℕ m) (fl.of_ℕ n) ≡ fl.of_ℕ (m - n)
  pub floor-of_ℕ : (n : ℕ) → n ≤ max_exact → fl.floor (fl.of_ℕ n) ≡ pos n

-- Whole numbers, with time in whole seconds: a model of the interface, and of its properties.
abbrev pub whole : Float64
whole = record {
  F = ℕ;
  of_ℕ = λ n. n;
  add = λ a b. a + b;
  sub = λ a b. a - b;
  mul = λ a b. a * b;
  div = λ a b. a / b;
  is_finite = λ a. true;
  le = leb;
  elapsed = λ now last. now - last;
  seconds = λ d. d / 1000000000;
  duration = λ x. x * 1000000000;
  floor = pos;
}

le_mul : (a b : ℕ) → leb 0 (a * b) ≡ true
le_mul a b = le→leb 0 (a * b) (omega arith)

pub whole-IsIeee : IsIeee whole
unfolding le_mul
whole-IsIeee = record {
  le_refl = λ a. ground arith;
  le_trans = λ a b c h k. ground arith;
  le_total = λ a b h. ground arith;
  zero_add_le = λ a b h. ground arith;
  zero_mul_le = λ a b h k. le_mul a b;
  zero_sub_le = λ a b h. ground arith;
  sub_le = λ a b h. ground arith;
  zero_elapsed_le = λ now last h. ground arith;
  elapsed_self = λ now. omega arith;
  zero_mul = λ a h k. omega arith;
  rate = λ n d h k. (refl, ground arith);
  add_zero = λ a. omega arith;
  of_ℕ-le = λ m n h k. refl;
  of_ℕ-sub = λ m n h k. refl;
  floor-of_ℕ = λ n h. refl;
}
