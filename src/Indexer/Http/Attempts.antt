-- ===== src/Indexer/Http/Attempts.antt =====
-- internal/indexer/httpx/client.go: how often Do sends a request.
use tortui.Indexer.Http.{
  do_from, Reply, Client, Run, Round, status, is_retryable_status, out_of_fuel, Ending, after_reply,
  after_status, do_request, failed, answered, ended, gave_up, response, broken,
}
use tortui.Base.{
  List, ℕ, Bool, true, ◌≢◌, ◌<◌, ◌∷◌, ◌&&◌, ◌+◌, false, length, [], ◌≤◌, ◌≡◌, arith, suc, zero,
  Bool-cases, inl, inr, refl, Option, max, leb, ◌||◌, not,
}

abbrev retryable : Reply → Bool
retryable (status code after) = is_retryable_status code
retryable _ = false

-- Each request but the last was answered by a status that is retried.
abbrev pub only_retried : List Reply → Bool
only_retried [] = true
only_retried (r ∷ []) = true
only_retried (r ∷ s ∷ rest) = retryable r && only_retried (s ∷ rest)

-- What holds of a run that may still send so many requests.
record IsBounded (n : ℕ) (r : Run) : Type 0 where
  ends : r.ending ≢ out_of_fuel
  few : length r.requests ≤ n
  retried : only_retried r.requests ≡ true

only_retried_cons :
    (r : Reply) (rest : List Reply)
    → retryable r ≡ true
    → only_retried rest ≡ true
    → only_retried (r ∷ rest) ≡ true
only_retried_cons r [] h k = refl
only_retried_cons r (s ∷ rest) h k = ground arith

after_status-IsBounded :
    (c : Client) (attempt code n : ℕ) (after : Option ℕ) (round : Round) (rest : Run)
    → is_retryable_status code ≡ true
    → IsBounded n rest
    → IsBounded (suc n) (after_status c attempt code after round rest)
unfolding after_status
after_status-IsBounded c attempt code n after round rest retry h = record {
  ends = λ e. ground (arith, h.ends);
  few = ground (arith, h.few);
  retried = ground (arith, only_retried_cons (status code after) rest.requests retry h.retried);
}

-- A run of one request.
single-IsBounded :
    (n : ℕ) (e : Ending) (r : Reply) → e ≢ out_of_fuel → IsBounded (suc n) (ended e (r ∷ []))
single-IsBounded n e r h = record { ends = h; few = omega arith; retried = refl }

after_reply-IsBounded :
    (c : Client) (attempt n : ℕ) (round : Round) (rest : Run) (reply : Reply)
    → (attempt < c.max_attempts → IsBounded n rest)
    → IsBounded (suc n) (after_reply c attempt round rest reply)
unfolding after_reply
after_reply-IsBounded c attempt n round rest response h =
    single-IsBounded n answered response (λ e. ground arith)
after_reply-IsBounded c attempt n round rest broken h =
    single-IsBounded n failed broken (λ e. ground arith)
after_reply-IsBounded c attempt n round rest (status code after) h =
    elim (Bool-cases (leb c.max_attempts attempt || not (is_retryable_status code))) [
      | inl e ↦ rw e (single-IsBounded n (gave_up code) (status code after) (λ q. ground arith))
      | inr e ↦ rw e (
          after_status-IsBounded c attempt code n after round rest (ground arith)
            (h (ground arith)))
    ]

do_from-IsBounded :
    (fuel : ℕ) (c : Client) (attempt : ℕ) (rounds : ℕ → Round)
    → 0 < fuel
    → c.max_attempts < attempt + fuel
    → IsBounded fuel (do_from fuel c attempt rounds)
unfolding do_from
do_from-IsBounded zero c attempt rounds positive h = ground arith
do_from-IsBounded (suc fuel) c attempt rounds positive h =
    let rest = do_from fuel c (attempt + 1) rounds in
    elim (Bool-cases (rounds attempt).admitted) [
      | inl a ↦ rw a (
          after_reply-IsBounded c attempt fuel (rounds attempt) rest (rounds attempt).reply
            (λ more. do_from-IsBounded fuel c (attempt + 1) rounds (omega arith) (omega arith)))
      | inr a ↦ rw a (record {
        ends = λ (e : failed ≡ out_of_fuel). ground arith;
        few = omega arith;
        retried = refl;
      })
    ]

-- Do always ends, after at most max_attempts requests (or one), and sends another request only
-- after a status that is retried (429 or 5xx).
pub do_request-bounded :
    (c : Client) (rounds : ℕ → Round)
    → ((do_request c rounds).ending ≢ out_of_fuel)
      × (length (do_request c rounds).requests ≤ max 1 c.max_attempts)
      × (only_retried (do_request c rounds).requests ≡ true)
unfolding do_request
do_request-bounded c rounds =
    let b = do_from-IsBounded (max 1 c.max_attempts) c 1 rounds (ground arith) (ground arith) in
    (b.ends, b.few, b.retried)
