-- ===== src/Server/Worker/Oldest.antt =====
-- Which step a poll hands out.
use khronos.Prelude.{
  String, Bool, List, [], ◌∷◌, ◌≡◌, refl, sym, ap, ◌∙◌, true, false, some, arith, inl, inr, not,
  ◌&&◌, Bool-cases, contains, text_leb,
}
use khronos.Prelude.Texts.{text_leb_total, text_leb_trans}
use khronos.Prelude.Result.{
  Result, ok, err, collect, map_ok, ok-injective, >>=-eq-ok, ◌>>=◌, ok_or, transpose,
}
use mathlib.Core.Path.{subst}
use mathlib.Core.Option
use khronos.Values.{Uuid, as_64, as_u32}
use khronos.Core.Workflow.{WorkflowStepInstance}
use khronos.External.{External, Now}
use khronos.Table.{find, exists, select}
use khronos.Table.Sorting.{order_by, IsSorted, order_by-IsSorted}
use khronos.Table.Rows.{In, All-In, select-In, In-select, order_by-In, In-order_by, exists-false}
use khronos.Db.Error.{json, invalid_uuid}
use khronos.Db.States.{str_to_workflow_state}
use khronos.Db.Dates.{parse_step_datetime}
use khronos.Db.Schema.{StepRow, has_activity, has_step}
use khronos.Db.Activities.{get_pending_steps, row_to_step, is_due, created_asc}
use khronos.Server.State.{Server}
use khronos.Server.Worker.Handlers.{PollActivityRequest, handles, poll_activity, task_of}
use khronos.Server.Worker.Outcomes.{hand_out_lem}

module _ {A B E : Type 0} (f : A → B) where
  map_ok-eq-ok : (r : Result A E) {y : B} → map_ok f r ≡ ok y → (v : A) × (r ≡ ok v) × (f v ≡ y)
  map_ok-eq-ok (ok v) h = (v, refl, ok-injective h)
  map_ok-eq-ok (err e) h = cc

module _ {Row B E : Type 0} (le : Row → Row → Bool) (le_refl : (r : Row) → le r r ≡ true)
    (f : Row → Result B E) (h : B → Bool) (k : Row → Bool)
    (agree : (r : Row) (b : B) → f r ≡ ok b → h b ≡ k r) where
  -- the first item that meets a test comes from a row that no row with the test comes before
  collect-find :
      (rows : List Row) (ys : List B) {y : B}
      → IsSorted le rows
      → collect f rows ≡ ok ys
      → find h ys ≡ some y
      → (r : Row) × In r rows × (f r ≡ ok y) × ((z : Row) → In z rows → k z ≡ true → le r z ≡ true)
  unfolding find
  collect-find [] ys {y} sorted e found =
      let none_found : find h [] ≡ some y =
        subst (λ l. find h l ≡ some y) (sym (ok-injective e)) found in
      cc
  collect-find (a ∷ rows) ys {y} sorted e found =
      let (b, e1, ea) = >>=-eq-ok (f a) (λ b. map_ok (λ ys. b ∷ ys) (collect f rows)) {y = ys} e in
      let (zs, ez, same) = map_ok-eq-ok (λ ys. b ∷ ys) (collect f rows) {y = ys} e1 in
      let found' : find h (b ∷ zs) ≡ some y = subst (λ l. find h l ≡ some y) (sym same) found in
      elim (Bool-cases (h b)) [
        | inl on ↦
            let here : b ≡ y = ground arith in
            (
              a,
              inl refl,
              ea ∙ ap ok here,
              λ z i _. elim i [
                | inl p ↦ subst (λ w. le a w ≡ true) p (le_refl a)
                | inr j ↦ All-In (λ w. le a w ≡ true) z rows sorted.0 j
              ],
            )
        | inr off ↦
            let later : find h zs ≡ some y = ground arith in
            let (r, i, er, least) = collect-find rows zs {y = y} sorted.1 ez later in
            (
              r,
              inr i,
              er,
              λ z j kz. elim j [
                | inl p ↦ absurd (false_true (sym off ∙ agree a b ea ∙ ap k p ∙ kz))
                | inr j ↦ least z j kz
              ],
            )
      ]
    where
      false_true : false ≡ true → ⊥
      false_true p = cc

created_refl : (r : StepRow) → created_asc r r ≡ true
created_refl r = elim (Bool-cases (created_asc r r)) [
  | inl e ↦ e
  | inr e ↦ text_leb_total r.created_at r.created_at e
]

module _ {A B C D F G H S E : Type 0} {N : Type 0} (name_of : S → N) (name : N)
    (make : A → B → C → D → F → G → H → S)
    (named : (a : A) (b : B) (c : C) (d : D) (f : F) (g : G) (h : H)
      → name_of (make a b c d f g h) ≡ name) where
  -- what a chain of seven conversions makes, if all succeed
  chain-name :
      (a : Result A E) (b : Result B E) (c : Result C E) (d : Result D E) (f : Result F E)
      (g : Result G E) (h : Result H E) {s : S}
      → (a >>= λ a.
          b >>= λ b. c >>= λ c. d >>= λ d. f >>= λ f. g >>= λ g. h >>= λ h. ok (make a b c d f g h))
        ≡ ok s
      → name_of s ≡ name
  chain-name (ok a) (ok b) (ok c) (ok d) (ok f) (ok g) (ok h) e =
      ap name_of (sym (ok-injective e)) ∙ named a b c d f g h
  chain-name (ok a) (ok b) (ok c) (ok d) (ok f) (ok g) (err z) e = cc
  chain-name (ok a) (ok b) (ok c) (ok d) (ok f) (err z) h e = cc
  chain-name (ok a) (ok b) (ok c) (ok d) (err z) g h e = cc
  chain-name (ok a) (ok b) (ok c) (err z) f g h e = cc
  chain-name (ok a) (ok b) (err z) d f g h e = cc
  chain-name (ok a) (err z) c d f g h e = cc
  chain-name (err z) b c d f g h e = cc

module _ (x : External) where
  row_to_step-activity_name :
      (r : StepRow) (step : WorkflowStepInstance)
      → row_to_step x r ≡ ok step
      → step.activity_name ≡ r.activity_name
  unfolding row_to_step
  row_to_step-activity_name r step e =
      chain-name (λ (s : WorkflowStepInstance). s.activity_name) r.activity_name
        (λ id run state args policy result at. record {
          id = id;
          workflow_run_id = run;
          step_index = as_64 r.step_index;
          activity_name = r.activity_name;
          args_json = args;
          retry_policy = policy;
          timeout_secs = as_64 r.timeout_secs;
          heartbeat_timeout_secs = Option.map as_64 r.heartbeat_timeout_secs;
          state = state;
          attempt = as_u32 r.attempt;
          result_json = result;
          next_retry_at = at;
        })
        (λ _ _ _ _ _ _ _. refl) (ok_or (x.uuid_parse_str r.id) invalid_uuid)
        (ok_or (x.uuid_parse_str r.workflow_run_id) invalid_uuid) (str_to_workflow_state r.state)
        (ok_or (x.value_from_str r.args_json) json)
        (ok_or (x.retry_from_str r.retry_policy_json) json)
        (transpose (λ s. ok_or (x.value_from_str s) json) r.result_json)
        (transpose (parse_step_datetime x) r.next_retry_at) e

  -- rows that a poll for these activities may take, and that come before a row
  abbrev pub is_before : String → List String → StepRow → StepRow → Bool
  is_before now types r y =
      is_due now y && contains types y.activity_name && not (text_leb r.created_at y.created_at)

  none_before :
      (now : String) (types : List String) (r y : StepRow)
      → (is_due now y ≡ true
          → contains types y.activity_name ≡ true
          → text_leb r.created_at y.created_at ≡ true)
      → is_before now types r y ≡ false
  none_before now types r y h = elim (Bool-cases (is_due now y)) [
    | inl due ↦ elim (Bool-cases (contains types y.activity_name)) [
      | inl on ↦ rw (due, on, h due on) refl
      | inr off ↦ rw (due, off) refl
    ]
    | inr idle ↦ rw idle refl
  ]

  -- A poll hands out the oldest step: where it finds one, given that its query succeeds, that the activity's id is
  -- new and that the step is found by the text of its id, the step is read from a row that is due, and no row that is
  -- due and that the worker has a type for was created before that row.
  pub poll_activity-oldest :
      (now : Now) (id : Uuid) (req : PollActivityRequest) (s : Server)
      (steps : List WorkflowStepInstance) (step : WorkflowStepInstance)
      → get_pending_steps x now.sql s.db ≡ ok steps
      → find (handles req.activity_types) steps ≡ some step
      → exists (has_activity (x.uuid_to_string id)) s.db.activities ≡ false
      → exists (has_step (x.uuid_to_string step.id)) s.db.workflow_steps ≡ true
      → ((poll_activity x now id req s).0
          ≡ ok (record { task = some (task_of x id step); has_task = true }))
        × ((r : StepRow) × In r s.db.workflow_steps
            × (row_to_step x r ≡ ok step)
            × (is_due now.sql r ≡ true)
            × (exists (is_before now.sql req.activity_types r) s.db.workflow_steps ≡ false))
  unfolding poll_activity get_pending_steps
  poll_activity-oldest now id req s steps step q f fresh there =
      let types = req.activity_types in
      let rows = s.db.workflow_steps in
      let due = select (is_due now.sql) rows in
      let (r, i, e, least) =
        collect-find created_asc created_refl (row_to_step x) (handles types)
          (λ r. contains types r.activity_name)
          (λ r b e. ap (contains types) (row_to_step-activity_name r b e))
          (order_by created_asc due) steps {y = step}
          (order_by-IsSorted created_asc (λ a b. text_leb_total a.created_at b.created_at)
            (λ a b c. text_leb_trans a.created_at b.created_at c.created_at) due)
          q f in
      let (j, h) = select-In (is_due now.sql) r rows (order_by-In created_asc r due i) in
      (
        rw (q, f, hand_out_lem x now id step s fresh there) refl,
        (
          r,
          j,
          e,
          h,
          exists-false (is_before now.sql types r) rows (λ y k.
              none_before now.sql types r y (λ d on.
                least y (In-order_by created_asc y due (In-select (is_due now.sql) y rows k d))
                  on)),
        ),
      )
