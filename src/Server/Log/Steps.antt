-- ===== src/Server/Log/Steps.antt =====
-- The steps of the built-in definitions, and the steps and results that the calls build.
use khronos.Prelude.{
  String, Bool, true, false, Option, none, some, List, [], ◌∷◌, ◌==◌, ◌≡◌, unwrap_or, All, refl,
  inl, inr, if◌then◌else◌,
}
use khronos.Values.{Value, Args, string, null, f64_two}
use khronos.Core.Workflow.{ActivityStep}
use khronos.External.{External}
use khronos.Server.Definitions.{Chars, get_workflow_definition, cron_job_steps, step_def, normalize}
use khronos.Server.Workflows.{step_args}
use khronos.Server.Temporal.Tasks.{payload_result}
use khronos.Server.Scheduler.Start.{job_step_args}
use khronos.Server.Log.Statements.{
  IsBuiltIn, StepArgs, no_args, merged, no_job, job, Stored, parsed, plain, empty_result,
}

abbrev pub HasBuiltIn : ActivityStep → Type 0
HasBuiltIn step = IsBuiltIn step.retry_policy

pub All-if {ℓ κ} :
    {A : Type ℓ} (P : A → Type κ) (b : Bool) (xs ys : List A)
    → All P xs
    → All P ys
    → All P (if b then xs else ys)
All-if P true xs ys p q = p
All-if P false xs ys p q = q

pub cron_job_steps-HasBuiltIn : All HasBuiltIn cron_job_steps
cron_job_steps-HasBuiltIn = (inr refl, (inl refl, (inr refl, (inl refl, (inl refl, tt)))))

pub get_workflow_definition-HasBuiltIn :
    (chars : Chars) (name : String) → All HasBuiltIn (get_workflow_definition chars name)
unfolding get_workflow_definition
get_workflow_definition-HasBuiltIn chars name =
    All-if HasBuiltIn (normalize chars true name == "cron_job_workflow") cron_job_steps
      (step_def name 3 f64_two 300 (some 60) ∷ []) cron_job_steps-HasBuiltIn (inr refl, tt)

module _ (x : External) where
  pub step_args-StepArgs : (args template : Args) → StepArgs x (step_args x args template)
  step_args-StepArgs [] template = no_args
  step_args-StepArgs (a ∷ args) template = merged _

  read_or_plain :
      (o : Option Value) (s : String)
      → x.value_from_str s ≡ o
      → Stored x (some (unwrap_or o (string s)))
  read_or_plain none s e = plain s
  read_or_plain (some v) s e = parsed s v e

  pub payload_result-Stored :
      (result : Option (List String)) → Stored x (some (payload_result x result))
  payload_result-Stored none = empty_result
  payload_result-Stored (some []) = empty_result
  payload_result-Stored (some (s ∷ payloads)) = read_or_plain (x.value_from_str s) s refl

  pub job_step_args-StepArgs : (id : String) → StepArgs x (job_step_args id)
  job_step_args-StepArgs id = elim (id == "") as (λ b. StepArgs x (if b then null else string id)) [
    | true ↦ no_job
    | false ↦ job id
  ]
