-- ===== src/Indexer/Http.antt =====
-- internal/indexer/httpx: the HTTP client's per-host limiter (ratelimit.go), its retries
-- (retry.go, client.go). Durations are nanoseconds.
pub mod RetryAfter
pub mod Redirects
pub mod Confinement
pub mod Spacing
pub mod Backoff
pub mod Attempts
use tortui.Base.{
  ℕ, Bool, List, Map, Option, Text, [], ◌^◌, if◌then◌else◌, max, ◌∷◌, ◌==◌, ltb, none, some, suc,
  ◌*◌, ◌+◌, ◌-◌, insert, not, ◌||◌, ◌%◌, leb, nat_eq, text_eq, ◌&&◌, zero,
}

-- hostLimiter; a host that was never claimed has the zero time.
pub record Limiter : Type 0 where
  pub interval : ℕ
  pub next : Map Text ℕ

-- claim: the limiter and the delay, at the clock's reading.
unfoldable pub claim : Text → ℕ → Limiter → Limiter × ℕ
claim host now l =
    let at = max (elim (l.next host) [ none ↦ 0 | some t ↦ t ]) now in
    (record l { next = insert host (at + l.interval) l.next }, at - now)

-- maxDurationHalf
abbrev pub max_duration_half : ℕ
max_duration_half = 2 ^ 61

-- isRetryableStatus
unfoldable pub is_retryable_status : ℕ → Bool
is_retryable_status code = code == 429 || (leb 500 code && leb code 599)

-- The loop of backoffFor with so many rounds left; `*=` is on a 64-bit integer.
unfoldable pub doubled : ℕ → ℕ → ℕ → ℕ
doubled zero delay max_delay = if ltb max_delay delay then max_delay else delay
doubled (suc n) delay max_delay =
    let rest = doubled n (delay * 2 % 2 ^ 64) max_delay in
    if leb max_delay delay || ltb max_duration_half delay then max_delay else rest

-- backoffFor
unfoldable pub backoff_for : ℕ → ℕ → ℕ → ℕ
unfolding doubled
backoff_for n base max_delay = if base == 0 then 0 else doubled (n - 1) base max_delay

pub record Client : Type 0 where
  pub max_attempts : ℕ
  pub base_backoff : ℕ
  pub max_backoff : ℕ
  pub max_retry_after : ℕ
  pub jitter : ℕ → ℕ

-- What attempt returns: a response, a status with its Retry-After, or an error.
pub data Reply : Type 0 where
  response : Reply
  status : ℕ → Option ℕ → Reply
  broken : Reply

-- retryDelay: `none` when the wait asked for is too long.
unfoldable pub retry_delay : Client → ℕ → Option ℕ → Option ℕ
unfolding backoff_for
retry_delay c n (some after) = if ltb c.max_retry_after after then none else some after
retry_delay c n none = some (c.jitter (backoff_for n c.base_backoff c.max_backoff))

-- What one round of the loop meets: whether the limiter's wait ends in time, the reply, which
-- waits fit the deadline, and whether the sleep ends before the context does.
pub record Round : Type 0 where
  pub admitted : Bool
  pub reply : Reply
  pub fits_deadline : ℕ → Bool
  pub slept : Bool

pub data Ending : Type 0 where
  answered : Ending
  gave_up : ℕ → Ending
  not_retrying : ℕ → Ending
  failed : Ending
  -- never reached with enough fuel
  out_of_fuel : Ending

-- What Do did: how it ended, the requests it sent and the waits between them, oldest first.
pub record Run : Type 0 where
  pub ending : Ending
  pub requests : List Reply
  pub waits : List ℕ

abbrev pub ended : Ending → List Reply → Run
ended e replies = record { ending = e; requests = replies; waits = [] }

abbrev pub then_wait : Reply → ℕ → Run → Run
then_wait reply delay run = record run {
  requests = reply ∷ run.requests;
  waits = delay ∷ run.waits;
}

-- The loop behind a status that may be retried.
unfoldable pub after_status : Client → ℕ → ℕ → Option ℕ → Round → Run → Run
unfolding retry_delay
after_status c attempt code after round rest = elim (retry_delay c attempt after) [
  | none ↦ ended (not_retrying code) (status code after ∷ [])
  | some delay ↦
      if not (round.fits_deadline delay)
      then ended (not_retrying code) (status code after ∷ [])
      else if not round.slept
      then record { ending = failed; requests = status code after ∷ []; waits = delay ∷ [] }
      else then_wait (status code after) delay rest
]

-- The loop behind attempt; `rest` is what the next rounds do.
unfoldable pub after_reply : Client → ℕ → Round → Run → Reply → Run
unfolding after_status is_retryable_status
after_reply c attempt round rest response = ended answered (response ∷ [])
after_reply c attempt round rest broken = ended failed (broken ∷ [])
after_reply c attempt round rest (status code after) =
    if leb c.max_attempts attempt || not (is_retryable_status code)
    then ended (gave_up code) (status code after ∷ [])
    else after_status c attempt code after round rest

-- Do's loop, from an attempt on.
unfoldable pub do_from : ℕ → Client → ℕ → (ℕ → Round) → Run
unfolding after_reply
do_from zero c attempt rounds = ended out_of_fuel []
do_from (suc fuel) c attempt rounds =
    let rest = do_from fuel c (attempt + 1) rounds in
    let round = rounds attempt in
    if not round.admitted then ended failed [] else after_reply c attempt round rest round.reply

-- Do, behind the address's resolution: one unit of fuel for each attempt that is allowed.
unfoldable pub do_request : Client → (ℕ → Round) → Run
unfolding do_from
do_request c rounds = do_from (max 1 c.max_attempts) c 1 rounds
