-- ===== src/Worker/Poller/Runs.antt =====
-- The state of the poller after any rounds of its loop.
use khronos.Prelude.{
  ℕ, suc, ◌+◌, ◌<◌, ◌^◌, Bool, true, false, List, [], ◌∷◌, ◌≡◌, refl, ap, ◌∙◌, arith, length, ◌&&◌,
  not, if◌then◌else◌,
}
use khronos.Values.{as_u32}
use khronos.Server.Worker.Handlers.{TaskMessage}
use khronos.Table.{exists}
use khronos.Worker.Poller.{
  Floats, ConnectionState, connected, disconnected, PollResult, Round, task, idle, poll_error,
  Poller, start, Action, forward, sleep, run,
}

abbrev is_error : PollResult → Bool
is_error poll_error = true
is_error _ = false

abbrev all_errors : List PollResult → Bool
all_errors [] = true
all_errors (r ∷ results) = is_error r && all_errors results

-- the number of errors since the last poll that was answered
abbrev pub errors_at_end : List PollResult → ℕ
errors_at_end [] = 0
errors_at_end (r ∷ results) =
    let rest = errors_at_end results in
    if is_error r && all_errors results then suc (length results) else rest

-- what the polls gave
abbrev pub results : List Round → List PollResult
results [] = []
results ((r, there) ∷ rounds) = r ∷ results rounds

-- a task that no receiver takes
abbrev pub refused : Round → Bool
refused (task t, there) = not there
refused (_, there) = false

-- the rounds before the first that meets a test
abbrev pub before : (Round → Bool) → List Round → List Round
before test [] = []
before test (r ∷ rounds) = if test r then [] else r ∷ before test rounds

length-results : (rounds : List Round) → length (results rounds) ≡ length rounds
length-results [] = refl
length-results ((r, there) ∷ rounds) = ap suc (length-results rounds)

-- the tasks that the server gave, and those that were forwarded
abbrev pub given : List PollResult → List TaskMessage
given [] = []
given (task t ∷ results) = t ∷ given results
given (_ ∷ results) = given results

abbrev pub forwarded : List Action → List TaskMessage
forwarded [] = []
forwarded (forward t ∷ actions) = t ∷ forwarded actions
forwarded (sleep d ∷ actions) = forwarded actions

only_errors :
    (results : List PollResult) → all_errors results ≡ true → errors_at_end results ≡ length results
only_errors [] h = refl
only_errors (r ∷ results) h = ground (arith, only_errors results)

-- after a poll that is answered, the count starts anew
abbrev counted : ℕ → List PollResult → ℕ
counted k results = if all_errors results then k + length results else errors_at_end results

counted-zero : (results : List PollResult) → counted 0 results ≡ errors_at_end results
counted-zero results = ground (arith, only_errors results)

module _ (fl : Floats) where
  abbrev at : ConnectionState → ℕ → ℕ → Poller
  at state k counter = record { state = state; reconnect_attempt = k; counter = counter }

  attempts :
      (rounds : List Round) (state : ConnectionState) (k counter : ℕ)
      → k + length rounds < 2 ^ 32
      → (state ≡ connected → k ≡ 0)
      → (run fl rounds (at state k counter)).1.reconnect_attempt
        ≡ (if exists refused rounds then 0 else counted k (results rounds))
  unfolding run exists
  attempts [] state k counter small reset = omega arith
  attempts ((task t, true) ∷ rounds) state k counter small reset =
      attempts rounds connected 0 counter (omega (arith, small)) (λ _. refl)
      ∙ ap (λ n. if exists refused rounds then 0 else n) (counted-zero (results rounds))
  attempts ((task t, false) ∷ rounds) state k counter small reset = refl
  attempts ((idle, there) ∷ rounds) state k counter small reset =
      attempts rounds connected 0 counter (omega (arith, small)) (λ _. refl)
      ∙ ap (λ n. if exists refused rounds then 0 else n) (counted-zero (results rounds))
  attempts ((poll_error, there) ∷ rounds) connected k counter small reset =
      attempts rounds disconnected 1 (counter + 1) (omega (arith, small)) (λ e. cc)
      ∙ ground (arith, reset refl, length-results rounds)
  attempts ((poll_error, there) ∷ rounds) disconnected k counter small reset =
      let word : as_u32 (k + 1) ≡ k + 1 = omega (arith, small) in
      rw word (
        attempts rounds disconnected (k + 1) (counter + 1) (omega (arith, small)) (λ e. cc)
        ∙ ground (arith, length-results rounds))

  forwards :
      (rounds : List Round) (p : Poller)
      → forwarded (run fl rounds p).0 ≡ given (results (before refused rounds))
  unfolding run
  forwards [] p = refl
  forwards ((task t, true) ∷ rounds) p = ap (λ ts. t ∷ ts) (forwards rounds _)
  forwards ((task t, false) ∷ rounds) p = refl
  forwards ((idle, there) ∷ rounds) p = forwards rounds _
  forwards ((poll_error, there) ∷ rounds) p = forwards rounds _

  ends : (rounds : List Round) (p : Poller) → (run fl rounds p).2 ≡ exists refused rounds
  unfolding run exists
  ends [] p = refl
  ends ((task t, true) ∷ rounds) p = ends rounds _
  ends ((task t, false) ∷ rounds) p = refl
  ends ((idle, there) ∷ rounds) p = ends rounds _
  ends ((poll_error, there) ∷ rounds) p = ends rounds _

  -- The poller's loop, over fewer than 2^32 rounds, ends exactly if the receiver is gone where a task is sent. It
  -- forwards the tasks that the server gave before the first such round, in their order and no others. Its count of
  -- attempts is 0 where it has ended, and else the number of errors since the last poll that was answered.
  pub run_lem :
      (rounds : List Round)
      → length rounds < 2 ^ 32
      → ((run fl rounds start).2 ≡ exists refused rounds)
        × (forwarded (run fl rounds start).0 ≡ given (results (before refused rounds)))
        × ((run fl rounds start).1.reconnect_attempt
            ≡ (if exists refused rounds then 0 else errors_at_end (results rounds)))
  run_lem rounds small = (
    ends rounds start,
    forwards rounds start,
    attempts rounds disconnected 0 0 (omega (arith, small)) (λ e. refl)
        ∙ ap (λ n. if exists refused rounds then 0 else n) (counted-zero (results rounds)),
  )
