-- ===== src/Indexer/Http/RetryAfter.antt =====
-- internal/indexer/httpx/retry.go: what a Retry-After header asks for.
use tortui.Base.{
  Text, space_trimmed, ℕ, ◌/◌, ◌==◌, Option, ◌^◌, if◌then◌else◌, ◌-◌, [], some, ℤ, ltb, none, ◌≡◌,
  ◌*◌, false, negsuc, ◌%◌, min, pos, arith, pos_part, text_eq, nat_eq, Option-cases, inl, inr, refl,
}

-- strconv.ParseInt(s, 10, 64), a value out of range clamped, and `none` for a syntax error; and
-- http.ParseTime, in nanoseconds.
pub record HeaderForms : Type 0 where
  pub parse_int : Text → Option ℤ
  pub parse_time : Text → Option ℕ

abbrev pub max_duration : ℕ
max_duration = 2 ^ 63 - 1

abbrev pub one_second : ℕ
one_second = 10 ^ 9

abbrev pub max_retry_after_seconds : ℕ
max_retry_after_seconds = max_duration / one_second

-- parseRetryAfter; a product of int64 wraps, and time.Time.Sub saturates.
unfoldable pub parse_retry_after : HeaderForms → Text → ℕ → Option ℕ
unfolding space_trimmed
parse_retry_after forms value now =
    let v = space_trimmed value in
    if v == [] then none else elim (forms.parse_int v) [
      | some (negsuc n) ↦ some 0
      | some (pos n) ↦
          if n == 0
          then some 0
          else if ltb max_retry_after_seconds n
          then some max_duration
          else some (n * one_second % 2 ^ 64)
      | none ↦ elim (forms.parse_time v) [
        | none ↦ none
        | some at ↦ some (min (at - now) max_duration)
      ]
    ]

seconds_saturate :
    (n : ℕ)
    → (if n == 0
        then some 0
        else if ltb max_retry_after_seconds n
        then some max_duration
        else some (n * one_second % 2 ^ 64))
      ≡ some (min (n * one_second) max_duration)
seconds_saturate n = ground arith

-- A number of seconds is waited for as it is, up to the largest duration, and never wraps; a date is
-- the time that is left until it, no time at all once it has passed; and anything else is no advice.
pub parse_retry_after_lem :
    (forms : HeaderForms) (value : Text) (now : ℕ)
    → (space_trimmed value == []) ≡ false
    → parse_retry_after forms value now ≡ (elim (forms.parse_int (space_trimmed value)) [
      | some n ↦ some (min (pos_part n * one_second) max_duration)
      | none ↦ elim (forms.parse_time (space_trimmed value)) [
        | none ↦ none
        | some at ↦ some (min (at - now) max_duration)
      ]
    ])
unfolding parse_retry_after
parse_retry_after_lem forms value now h =
    elim (Option-cases (forms.parse_int (space_trimmed value))) [
      | inl q ↦ rw (parse_retry_after, h, q) refl
      | inr (pos n, q) ↦ rw (parse_retry_after, h, q) (seconds_saturate n)
      | inr (negsuc n, q) ↦ rw (parse_retry_after, h, q) refl
    ]
