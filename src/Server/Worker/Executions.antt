-- ===== src/Server/Worker/Executions.antt =====
-- How many executions the retry policy of a step allows.
use khronos.Prelude.{
  ℕ, Bool, suc, Option, String, ◌≡◌, refl, false, true, some, arith, ◌+◌, ◌*◌, ◌<◌, ◌≤◌, ◌^◌, ltb,
  if◌then◌else◌, sym, ◌∙◌,
}
use mathlib.Core.Path.{subst}
use khronos.Values.{Uuid, as_u32}
use khronos.Core.Activity.{RetryPolicy}
use khronos.Core.Workflow.{WorkflowStepInstance}
use khronos.External.{External, Now}
use khronos.Table.{find, exists}
use khronos.Db.Schema.{StepRow, has_step, has_activity}
use khronos.Server.State.{Server}
use khronos.Server.Worker.Handlers.{hand_out, report_activity_failure}
use khronos.Server.Worker.Attempts.{hand_out-report_activity_failure}

-- a step's row may change meanwhile, but not in its attempt and state: a retry timer clears its time, say
pub record Kept (r t : StepRow) : Type 0 where
  pub kept_attempt : t.attempt ≡ r.attempt
  pub kept_state : t.state ≡ r.state

-- what `get_pending_steps` reads from the row of a pending step, with a policy that parses
pub record Pending (x : External) (policy : RetryPolicy) (step : WorkflowStepInstance) (r : StepRow)
    : Type 0 where
  pub is_pending : r.state ≡ "pending"
  pub read_attempt : step.attempt ≡ as_u32 r.attempt
  pub read_policy : x.retry_from_str r.retry_policy_json ≡ some policy

module _ (x : External) (policy : RetryPolicy) (step_id : String) where
  abbrev pub step_row : Server → Option StepRow
  step_row s = find (has_step step_id) s.db.workflow_steps

  -- n executions of the step that fail, with whatever keeps its attempt and state between them
  pub data Failing (start : Server) : ℕ → Server → Type 0 where
    untried : Failing start 0 start
    meanwhile :
        (n : ℕ) (s t : Server) (r r' : StepRow)
        → Failing start n s
        → step_row s ≡ some r
        → step_row t ≡ some r'
        → Kept r r'
        → Failing start n t
    tried :
        (n : ℕ) (s : Server) (now later : Now) (id : Uuid) (step : WorkflowStepInstance)
        (error_message : String) (r : StepRow)
        → Failing start n s
        → x.uuid_to_string step.id ≡ step_id
        → exists (has_activity (x.uuid_to_string id)) s.db.activities ≡ false
        → step_row s ≡ some r
        → Pending x policy step r
        → Failing start
            (suc n)
            (report_activity_failure x later
              (x.uuid_to_string id)
              error_message
              (hand_out x now id step s).1).1

  -- the row after n executions, of which there are about half the policy's maximum
  pub record Tally (n : ℕ) (r : StepRow) : Type 0 where
    pub counted : r.attempt ≡ 2 * n
    pub settled : r.state ≡ (if ltb (2 * n) policy.maximum_attempts then "pending" else "failed")
    pub bounded : 2 * n ≤ policy.maximum_attempts + 1

  Tallied : ℕ → Server → Type 0
  Tallied n s = (r : StepRow) × (step_row s ≡ some r) × Tally n r

  same_row : {o : Option StepRow} {r r' : StepRow} → o ≡ some r → o ≡ some r' → r ≡ r'
  same_row e f = cc

  tally-meanwhile :
      (n : ℕ) (s t : Server) (r r' : StepRow)
      → Tallied n s
      → step_row s ≡ some r
      → step_row t ≡ some r'
      → Kept r r'
      → Tallied n t
  unfolding Tallied
  tally-meanwhile n s t r r' (r1, e, tally) f f' kept =
      let same : r1 ≡ r = same_row e f in
      let tally' : Tally n r = subst (Tally n) same tally in
      (
        r',
        f',
        record {
          counted = kept.kept_attempt ∙ tally'.counted;
          settled = kept.kept_state ∙ tally'.settled;
          bounded = tally'.bounded;
        },
      )

  still_pending :
      (below : Bool) (state : String)
      → state ≡ (if below then "pending" else "failed")
      → state ≡ "pending"
      → below ≡ true
  still_pending true state settled pending = refl
  still_pending false state settled pending = cc

  -- a pending row has not used up the policy's attempts
  below-maximum :
      (n : ℕ) (r : StepRow) → Tally n r → r.state ≡ "pending" → 2 * n < policy.maximum_attempts
  below-maximum n r tally pending =
      let below =
        still_pending (ltb (2 * n) policy.maximum_attempts) r.state tally.settled pending in
      ground (arith, below)

  tally-tried :
      (n : ℕ) (s : Server) (now later : Now) (id : Uuid) (step : WorkflowStepInstance)
      (error_message : String) (r : StepRow)
      → policy.maximum_attempts + 2 ≤ 2 ^ 32
      → Tallied n s
      → x.uuid_to_string step.id ≡ step_id
      → exists (has_activity (x.uuid_to_string id)) s.db.activities ≡ false
      → step_row s ≡ some r
      → Pending x policy step r
      → Tallied
          (suc n)
          (report_activity_failure x later
            (x.uuid_to_string id)
            error_message
            (hand_out x now id step s).1).1
  unfolding Tallied same_row
  tally-tried n s now later id step error_message r small (r1, e, tally) named fresh f ready =
      let tally' : Tally n r = subst (Tally n) (same_row e f) tally in
      let below : 2 * n < policy.maximum_attempts = below-maximum n r tally' ready.is_pending in
      let twice : step.attempt ≡ 2 * n =
        ready.read_attempt ∙ rw tally'.counted (omega (arith, below, small)) in
      let (r', f', counted, settled) =
        hand_out-report_activity_failure x now later id step error_message s r policy fresh
          (rw named f) ready.read_policy (omega (arith, twice, below, small)) in
      let more : step.attempt + 2 ≡ 2 * suc n = omega (arith, twice) in
      (
        r',
        rw (sym named) f',
        record {
          counted = counted ∙ more;
          settled = rw (sym more) settled;
          bounded = omega (arith, below);
        },
      )

  -- Executions of a step that fail, from attempt 0 on, with a policy of maximum m above 0 and at most
  -- 2^32 - 2, and between them
  -- whatever keeps the step's attempt and state: after n of them the
  -- attempt is 2 * n, the step is pending if 2 * n is below m and failed otherwise, and 2 * n is at most m + 1, so
  -- a step is executed about m / 2 times and no more.
  pub Failing-Tally :
      (start : Server) (n : ℕ) (s : Server) (r : StepRow)
      → Failing start n s
      → step_row start ≡ some r
      → r.attempt ≡ 0
      → r.state ≡ "pending"
      → 0 < policy.maximum_attempts
      → policy.maximum_attempts + 2 ≤ 2 ^ 32
      → (r' : StepRow) × (step_row s ≡ some r') × Tally n r'
  unfolding Tallied
  Failing-Tally start _ _ r untried f zeroth pending positive small = (
    r,
    f,
    record { counted = zeroth; settled = ground (arith, pending, positive); bounded = omega arith },
  )
  Failing-Tally start _ _ r (meanwhile n s t r1 r2 run e e' kept) f zeroth pending positive small =
      tally-meanwhile n s t r1 r2 (Failing-Tally start n s r run f zeroth pending positive small) e
        e' kept
  Failing-Tally start _ _ r (tried n s now later id step error_message r1 run named fresh e ready) f
        zeroth pending positive small =
      tally-tried n s now later id step error_message r1 small
        (Failing-Tally start n s r run f zeroth pending positive small) named fresh e ready
