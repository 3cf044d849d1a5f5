-- ===== src/Durations.antt =====
-- src/convert.rs, lines 28 to 51 and 871 to 911: seconds as a Python `float`, converted to a
-- `Duration` in nanoseconds, and the retry policy that takes some of them.
mod Tests
use processkit_py.Common.{
  ℕ, ◌+◌, ◌*◌, ◌/◌, ◌%◌, ◌^◌, ◌≤◌, ◌<◌, ◌≡◌, ◌∙◌, ◌⊎◌, Bool, true, false, not, ◌&&◌, ◌||◌, Option,
  none, some, ltb, ◌==◌, Bool-cases, inl, inr, refl, if◌then◌else◌, Result, ok, err, ◌>>=◌, arith,
}
use processkit_py.Errors.{PyErr, value_error}

-- A binary64 number; `finite negative m e` is m * 2 ^ e / 2 ^ 1074, with the sign.
pub data F64 : Type 0 where
  nan : F64
  infinity : Bool → F64
  finite : Bool → ℕ → ℕ → F64

unfoldable pub is_finite : F64 → Bool
is_finite nan = false
is_finite (infinity negative) = false
is_finite (finite negative m e) = true

-- `x <= 0.0` and `x < 0.0`
unfoldable pub at_most_zero : F64 → Bool
at_most_zero nan = false
at_most_zero (infinity negative) = negative
at_most_zero (finite negative m e) = negative || m == 0

below_zero : F64 → Bool
below_zero nan = false
below_zero (infinity negative) = negative
below_zero (finite negative m e) = negative && not (m == 0)

abbrev pub nanos_per_sec : ℕ
nanos_per_sec = 1000000000

-- the nanoseconds, and the unit of their denominator
unfoldable pub scaled : ℕ → ℕ → ℕ
scaled m e = m * 2 ^ e * nanos_per_sec

unfoldable pub unit : ℕ
unit = 2 ^ 1074

-- `n / d`, to the nearest, and to the even one of two that are equally near
unfoldable pub round_half_even : ℕ → ℕ → ℕ
round_half_even n d =
    let q = n / d in
    let r = n % d in
    if ltb (2 * r) d then q else if ltb d (2 * r) then q + 1 else if q % 2 == 0 then q else q + 1

-- `Duration::MAX` is below 2 ^ 64 seconds.
unfoldable pub duration_end : ℕ
duration_end = 2 ^ 64 * nanos_per_sec

in_range : ℕ → Option ℕ
unfolding duration_end
in_range nanos = if ltb nanos duration_end then some nanos else none

-- `Duration::try_from_secs_f64`
unfoldable pub try_from_secs_f64 : F64 → Option ℕ
unfolding round_half_even in_range scaled unit duration_end
try_from_secs_f64 nan = none
try_from_secs_f64 (infinity negative) = none
try_from_secs_f64 (finite negative m e) =
    if negative && not (m == 0) then none else in_range (round_half_even (scaled m e) unit)

or_value_error : Option ℕ → Result PyErr ℕ
or_value_error none = err value_error
or_value_error (some nanos) = ok nanos

unfoldable pub positive_duration : F64 → Result PyErr ℕ
unfolding is_finite at_most_zero try_from_secs_f64 or_value_error
positive_duration seconds =
    if not (is_finite seconds) || at_most_zero seconds
    then err value_error
    else or_value_error (try_from_secs_f64 seconds)

unfoldable pub nonnegative_duration : F64 → Result PyErr ℕ
unfolding is_finite below_zero try_from_secs_f64 or_value_error
nonnegative_duration seconds =
    if not (is_finite seconds) || below_zero seconds
    then err value_error
    else or_value_error (try_from_secs_f64 seconds)

-- The crate's `RetryPolicy`, by the arguments of its builders.
pub record RetryPolicy : Type 0 where
  pub max_retries : ℕ
  pub initial_backoff : ℕ
  pub multiplier : F64
  pub max_backoff : ℕ
  pub jitter : Bool

-- An optional knob, set by a builder if it is given.
abbrev pub knob :
    {A : Type 0}
    → (A → RetryPolicy → Result PyErr RetryPolicy)
    → Option A
    → RetryPolicy
    → Result PyErr RetryPolicy
knob set none policy = ok policy
knob set (some a) policy = set a policy

-- `fresh` is `RetryPolicy::default()`.
unfoldable pub build_retry_policy :
    RetryPolicy
    → Option ℕ
    → Option F64
    → Option F64
    → Option F64
    → Option Bool
    → Result PyErr RetryPolicy
unfolding nonnegative_duration
build_retry_policy fresh max_retries initial_backoff multiplier max_backoff jitter = do
  p1 ← knob (λ n p. ok (record p { max_retries = n })) max_retries fresh
  p2 ←
      knob (λ s p. nonnegative_duration s >>= λ d. ok (record p { initial_backoff = d }))
        initial_backoff p1
  p3 ← knob (λ f p. ok (record p { multiplier = f })) multiplier p2
  p4 ←
      knob (λ s p. nonnegative_duration s >>= λ d. ok (record p { max_backoff = d })) max_backoff p3
  knob (λ b p. ok (record p { jitter = b })) jitter p4

-- Half-even rounding is off by at most half.
pub round_half_even_near :
    (n d : ℕ)
    → 0 < d
    → (2 * n ≤ 2 * (round_half_even n d * d) + d) × (2 * (round_half_even n d * d) ≤ 2 * n + d)
unfolding round_half_even
round_half_even_near n d h = grind arith

unit_pos : 0 < unit
unfolding unit
unit_pos = omega arith

over_end : (b d u n : ℕ) → b ≤ d → 2 * (d * u) ≤ 2 * n + u → 2 * (b * u) ≤ 2 * n + u
over_end b d u n h k = grind arith

checked : ℕ → Result PyErr ℕ
unfolding in_range or_value_error
checked d = or_value_error (in_range d)

checked-cases :
    (d : ℕ)
    → (d < duration_end × (checked d ≡ ok d)) ⊎ (duration_end ≤ d × (checked d ≡ err value_error))
unfolding checked duration_end
checked-cases d = ground arith

positive_duration-finite :
    (m e : ℕ)
    → (m == 0) ≡ false
    → positive_duration (finite false m e) ≡ checked (round_half_even (scaled m e) unit)
unfolding positive_duration checked
positive_duration-finite m e h = rw (h) refl

positive_duration-zero :
    (m e : ℕ) → (m == 0) ≡ true → positive_duration (finite false m e) ≡ err value_error
unfolding positive_duration
positive_duration-zero m e h = rw (h) refl

nan_refused : positive_duration nan ≡ err value_error
unfolding positive_duration
nan_refused = refl

infinity_refused : (n : Bool) → positive_duration (infinity n) ≡ err value_error
unfolding positive_duration
infinity_refused n = refl

negative_refused : (m e : ℕ) → positive_duration (finite true m e) ≡ err value_error
unfolding positive_duration
negative_refused m e = refl

-- A duration that is a positive number of seconds, to half a nanosecond.
abbrev pub Near : F64 → ℕ → Type 0
Near nan d = true ≡ false
Near (infinity negative) d = true ≡ false
Near (finite negative m e) d =
    (negative ≡ false)
    × 0 < m
    × d < duration_end
    × 2 * scaled m e ≤ 2 * (d * unit) + unit
    × 2 * (d * unit) ≤ 2 * scaled m e + unit

-- No number at all, none above zero, or one that is rounded to 2 ^ 64 seconds or more.
abbrev pub Unfit : F64 → Type 0
Unfit nan = true ≡ true
Unfit (infinity negative) = true ≡ true
Unfit (finite negative m e) =
    (negative ≡ true) ⊎ (m ≡ 0) ⊎ (2 * (duration_end * unit) ≤ 2 * scaled m e + unit)

module _ (m e : ℕ) (above : (m == 0) ≡ false) where
  finite-cases :
      ((d : ℕ) × (positive_duration (finite false m e) ≡ ok d) × Near (finite false m e) d)
      ⊎ ((positive_duration (finite false m e) ≡ err value_error) × Unfit (finite false m e))
  finite-cases =
      let d = round_half_even (scaled m e) unit in
      let near = round_half_even_near (scaled m e) unit unit_pos in
      let checks = positive_duration-finite m e above in
      elim (checked-cases d) [
        | inl h ↦ inl (d, checks ∙ h.1, (refl, ground arith, h.0, near.0, near.1))
        | inr h ↦
            inr (checks ∙ h.1, inr (inr (over_end duration_end d unit (scaled m e) h.0 near.1)))
      ]

-- `positive_duration` accepts a float exactly when it is a finite number above zero that is rounded
-- to less than 2 ^ 64 seconds; the duration is then the nearest number of nanoseconds, off by at
-- most half of one. Any other float raises a `ValueError`.
pub positive_duration-cases :
    (s : F64)
    → ((d : ℕ) × (positive_duration s ≡ ok d) × Near s d)
      ⊎ ((positive_duration s ≡ err value_error) × Unfit s)
positive_duration-cases nan = inr (nan_refused, refl)
positive_duration-cases (infinity n) = inr (infinity_refused n, refl)
positive_duration-cases (finite true m e) = inr (negative_refused m e, inl refl)
positive_duration-cases (finite false m e) = elim (Bool-cases (m == 0)) [
  | inl none_left ↦ inr (positive_duration-zero m e none_left, inr (inl (ground arith)))
  | inr above ↦ finite-cases m e above
]
