-- ===== src/Lifecycle/Tests.antt =====
-- Runs of the sample flow whose builds a human approves.
use donkeyspace.Prelude.{
  if◌then◌else◌, ◌∙◌, sym, ap, ℕ, ◌≤◌, ◌-◌, ◌≡◌, ◌≢◌, refl, sym, ap, Bool, true, false, List, [],
  ◌∷◌, none, some, Result, ok, err, keys, is_distinct, contains, Memᴰ, text_eq, arith, ◌==◌, Option,
}
use donkeyspace.Text.{Text, lit}
use donkeyspace.Plugin.{PluginFlow, PluginApprovalMode}
use donkeyspace.Plugin.Samples.{sample_flow, sample_items, build_task, plan_task, stray_flow}
use donkeyspace.RunResult.{RunResult, Outcome, Confidence, Risk, PluginTaskResult}
use donkeyspace.Approvals.{required}
use donkeyspace.TaskGraph.{
  TaskKey, key_Eq, TaskGraph, waiting, running, completed, completed_keys, is_complete,
}
use donkeyspace.Lifecycle.{LifecycleState, Exit, Outside, paused, no_runnable_tasks}
use donkeyspace.Lifecycle.Wave.{settle_wave, run}
use donkeyspace.Lifecycle.Wave.Runs.{run_ends}
use donkeyspace.Lifecycle.Wave.Runs.Left.{left}
use donkeyspace.Lifecycle.Wave.Runs.Limits.{IsWithin, run-IsWithin}
use donkeyspace.Lifecycle.Wave.Runs.Gates.{RequiresApproval, run-RequiresApproval}
use donkeyspace.Lifecycle.Wave.Pauses.{paused_approvals, paused_clarifications}
use donkeyspace.Lifecycle.Wave.Pauses.Required.{required_entry}
use donkeyspace.Lifecycle.Wave.Pauses.Complete.{settle_wave_lists, settle_wave-required}

abbrev gated_flow : PluginFlow
gated_flow = record sample_flow {
  tasks =
      (lit "build", record build_task { approval = PluginApprovalMode.required })
      ∷ (lit "plan", plan_task)
      ∷ [];
}

abbrev plan_key : TaskKey
plan_key = record { work_item = none; task = lit "plan" }

abbrev build_key : Text → TaskKey
build_key id = record { work_item = some id; task = lit "build" }

abbrev result_of : Outcome → List Text → RunResult
result_of outcome questions = record {
  outcome = outcome;
  summary = [];
  confidence = Confidence.high;
  risk = Risk.low;
  questions = questions;
  tests = [];
  changed_files = [];
  human_review_reason = none;
  blocked_reason = none;
}

abbrev task_result : Outcome → List Text → PluginTaskResult
task_result outcome questions = record {
  result = result_of outcome questions;
  handoff = none;
  work_items = none;
}

-- Every task is implemented.
abbrev willing : Outside Text
willing = record {
  execute = λ s k. ok (task_result Outcome.implemented []);
  save = λ s approvals. ok tt;
  read_registry = λ s. ok sample_items;
  has_specification = λ path. true;
}

abbrev planned : TaskGraph
planned = record {
  states =
      (plan_key, completed) ∷ (build_key (lit "a"), waiting) ∷ (build_key (lit "b"), waiting) ∷ [];
  dependencies =
      (plan_key, [])
      ∷ (build_key (lit "a"), plan_key ∷ [])
      ∷ (build_key (lit "b"), plan_key ∷ build_key (lit "a") ∷ [])
      ∷ [];
}

abbrev begun : LifecycleState Text
begun = record {
  execution_plan = none;
  attempt = 0;
  accumulated_tests = [];
  aggregate_risk = Risk.low;
  aggregate_confidence = Confidence.high;
  last_result = result_of Outcome.implemented [];
  graph = planned;
  handoffs = [];
  work_items = sample_items;
}

-- The first build waits for its approval.
abbrev waits : LifecycleState Text
waits = record begun {
  attempt = 1;
  graph = record planned {
    states =
        (plan_key, completed)
        ∷ (build_key (lit "a"), running)
        ∷ (build_key (lit "b"), waiting)
        ∷ [];
  };
}

gated_run :
    run willing gated_flow 1 65 begun
    ≡ some (err (paused waits (record { key = build_key (lit "a"); trigger = required } ∷ []) []))
unfolding run is_complete donkeyspace.TaskGraph.ready donkeyspace.Prelude.lookup
    donkeyspace.Prelude.list_eq lit donkeyspace.RunResult.Merge.max_risk
    donkeyspace.RunResult.Merge.min_confidence donkeyspace.Prelude.assign
gated_run = refl

run_ends_example :
    (r : Result (Exit Text) (LifecycleState Text)) × (run willing gated_flow 1 65 begun ≡ some r)
run_ends_example = run_ends willing gated_flow 1 begun 65 (omega arith)

-- Without the approvals the run completes in two waves.
abbrev ended : LifecycleState Text
ended = record begun {
  attempt = 2;
  graph = record planned {
    states =
        (plan_key, completed)
        ∷ (build_key (lit "a"), completed)
        ∷ (build_key (lit "b"), completed)
        ∷ [];
  };
}

abbrev completion : Result (Exit Text) (LifecycleState Text)
completion = ok ended

none_counted : IsWithin 1 begun.handoffs
unfolding IsWithin donkeyspace.Prelude.lookup
none_counted e n h = cc

run-IsWithin_example : IsWithin 1 waits.handoffs
run-IsWithin_example =
    run-IsWithin willing gated_flow 1 65 begun {t = waits} gated_run refl none_counted

-- The first build is approved, and the second waits.
abbrev approved : LifecycleState Text
approved = record begun {
  attempt = 1;
  graph = record planned {
    states =
        (plan_key, completed)
        ∷ (build_key (lit "a"), completed)
        ∷ (build_key (lit "b"), waiting)
        ∷ [];
  };
}

abbrev waits_again : LifecycleState Text
waits_again = record begun {
  attempt = 2;
  graph = record planned {
    states =
        (plan_key, completed)
        ∷ (build_key (lit "a"), completed)
        ∷ (build_key (lit "b"), running)
        ∷ [];
  };
}

approved_run :
    run willing gated_flow 1 65 approved
    ≡ some (
        err (paused waits_again (record { key = build_key (lit "b"); trigger = required } ∷ []) []))
unfolding run is_complete donkeyspace.TaskGraph.ready donkeyspace.Prelude.lookup
    donkeyspace.Prelude.list_eq lit donkeyspace.RunResult.Merge.max_risk
    donkeyspace.RunResult.Merge.min_confidence donkeyspace.Prelude.assign
approved_run = refl

build-RequiresApproval : RequiresApproval gated_flow (build_key (lit "a"))
unfolding RequiresApproval donkeyspace.Prelude.lookup donkeyspace.Prelude.list_eq lit
build-RequiresApproval = (record build_task { approval = PluginApprovalMode.required }, refl, refl)

not_plan : ((build_key (lit "a")).task == gated_flow.start) ≡ false
unfolding donkeyspace.Prelude.list_eq lit
not_plan = refl

still_completed : contains (completed_keys waits_again.graph) (build_key (lit "a")) ≡ true
unfolding completed_keys donkeyspace.Prelude.list_eq lit
still_completed = refl

run-RequiresApproval_example : contains (completed_keys approved.graph) (build_key (lit "a")) ≡ true
run-RequiresApproval_example =
    run-RequiresApproval willing gated_flow 1 65 approved {t = waits_again} approved_run refl
      (build_key (lit "a")) build-RequiresApproval not_plan still_completed

-- A wave with a question and a task for a human.
abbrev mixed : List (TaskKey × PluginTaskResult)
mixed =
    (build_key (lit "a"), task_result Outcome.needs_info (lit "which?" ∷ []))
    ∷ (build_key (lit "b"), task_result Outcome.needs_human [])
    ∷ []

left-mixed : left (settle_wave willing gated_flow 1 begun mixed) ≡ some begun
unfolding settle_wave donkeyspace.Prelude.lookup donkeyspace.Prelude.list_eq lit
    donkeyspace.Prelude.insert_key donkeyspace.TaskGraph.key_before donkeyspace.Prelude.assign
left-mixed = refl

is_distinct-mixed : is_distinct (keys mixed) ≡ true
unfolding donkeyspace.Prelude.list_eq lit
is_distinct-mixed = refl

settle_wave_lists_example :
    Memᴰ
      (build_key (lit "a"), lit "which?" ∷ [])
      (paused_clarifications (settle_wave willing gated_flow 1 begun mixed))
settle_wave_lists_example =
    settle_wave_lists willing gated_flow 1 begun mixed {t = begun} left-mixed is_distinct-mixed
      (build_key (lit "a")) (task_result Outcome.needs_info (lit "which?" ∷ [])) (Memᴰ.head refl)

-- A wave with a build to approve.
abbrev built : List (TaskKey × PluginTaskResult)
built = (build_key (lit "a"), task_result Outcome.implemented []) ∷ []

left-built : left (settle_wave willing gated_flow 1 begun built) ≡ some begun
unfolding settle_wave donkeyspace.Prelude.lookup donkeyspace.Prelude.list_eq lit
left-built = refl

no_changes :
    (j : TaskKey) (y : PluginTaskResult)
    → Memᴰ (j, y) built
    → y.result.outcome ≢ Outcome.needs_changes
no_changes j y (Memᴰ.head q) e =
    let wrong : Outcome.implemented ≡ Outcome.needs_changes =
      sym (ap (λ b. b.1.result.outcome) q) ∙ e in
    cc
no_changes j y (Memᴰ.tail n) e = elim n [ ]

settle_wave-required_example :
    Memᴰ
      (required_entry (build_key (lit "a")))
      (paused_approvals (settle_wave willing gated_flow 1 begun built))
settle_wave-required_example =
    settle_wave-required willing gated_flow 1 begun built {t = begun} left-built no_changes
      (build_key (lit "a")) (task_result Outcome.implemented []) (Memᴰ.head refl) refl
      build-RequiresApproval

-- Every build hands off to the notes, which it does not depend on.
abbrev handing_off : Outside Text
handing_off = record willing {
  execute = λ s k.
      if k.task == lit "build"
      then ok (record (task_result Outcome.needs_changes []) {
        handoff = some (record { target = lit "notes"; reason = [] });
      })
      else ok (task_result Outcome.implemented []);
}

abbrev notes_key : TaskKey
notes_key = record { work_item = none; task = lit "notes" }

abbrev stray_begun : LifecycleState Text
stray_begun = record begun {
  graph = record {
    states =
        (notes_key, waiting)
        ∷ (plan_key, completed)
        ∷ (build_key (lit "a"), waiting)
        ∷ (build_key (lit "b"), waiting)
        ∷ [];
    dependencies =
        (notes_key, plan_key ∷ [])
        ∷ (plan_key, [])
        ∷ (build_key (lit "a"), plan_key ∷ [])
        ∷ (build_key (lit "b"), plan_key ∷ build_key (lit "a") ∷ [])
        ∷ [];
  };
}

-- The notes are restarted, and the build that handed off is never ready again.
stray_run : run handing_off stray_flow 1 65 stray_begun ≡ some (err no_runnable_tasks)
unfolding run is_complete donkeyspace.TaskGraph.ready donkeyspace.Prelude.lookup
    donkeyspace.Prelude.list_eq lit donkeyspace.Prelude.assign donkeyspace.TaskGraph.mark_completed
    donkeyspace.Approvals.normalize_handoff_target
stray_run = refl
