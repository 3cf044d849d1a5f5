-- ===== src/Durations/Tests.antt =====
-- Runs of src/convert.rs on concrete seconds.
use processkit_py.Common.{ℕ, ◌≡◌, ◌⊎◌, refl, true, false, ok, err}
use processkit_py.Errors.{value_error}
use processkit_py.Durations.{
  F64, finite, Near, Unfit, positive_duration-cases, positive_duration, nonnegative_duration,
}

-- 1.5 seconds
abbrev one_and_half : F64
one_and_half = finite false 3 1073

one_and_half_accepted : positive_duration one_and_half ≡ ok 1500000000
unfolding positive_duration
one_and_half_accepted = refl

-- a positive number of seconds that is below half a nanosecond
tiny_is_zero : positive_duration (finite false 1 1040) ≡ ok 0
unfolding positive_duration
tiny_is_zero = refl

zero_refused : positive_duration (finite false 0 0) ≡ err value_error
unfolding positive_duration
zero_refused = refl

minus_zero_accepted : nonnegative_duration (finite true 0 0) ≡ ok 0
unfolding nonnegative_duration
minus_zero_accepted = refl

positive_duration-cases_example :
    ((d : ℕ) × (positive_duration one_and_half ≡ ok d) × Near one_and_half d)
    ⊎ ((positive_duration one_and_half ≡ err value_error) × Unfit one_and_half)
positive_duration-cases_example = positive_duration-cases one_and_half
