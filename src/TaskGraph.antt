-- ===== src/TaskGraph.antt =====
-- crates/donkeyspace-worker/src/plugin_task_graph.rs: the scheduler's graph of tasks and work
-- items, with `TaskKey` of crates/donkeyspace-core/src/approval.rs.
mod Tests
pub mod Progress
pub mod Build
pub mod Affected
pub mod Updates
pub mod Completed
use mathlib.Core.Option
use donkeyspace.Prelude.{
  keep, ℕ, zero, suc, ◌≡◌, Bool, true, false, not, ◌&&◌, ◌||◌, List, [], ◌∷◌, ◌++◌, Option, none,
  some, Result, ok, err, ok_or, fail_if, ◌>>=◌, ◌>>◌, Eq, Ord, ◌==◌, ==_iff, text_eq, option_eq,
  option_eq_iff, ltb, nat_eq, map, length, contains, any, all, find, if◌then◌else◌, lookup, insert,
  assign, contains_key, keys, insert_key, arith, ◌↔◌, Memᴰ, values,
}
use donkeyspace.Text.{Text, lit}
use donkeyspace.Plugin.{
  PluginFlow, PluginTask, PluginTaskScope, PluginWorkItem, workflow, work_item, TextMap,
}
use donkeyspace.Plugin.WorkItems.{ids, find_item}

pub record TaskKey : Type 0 where
  pub work_item : Option Text
  pub task : Text

abbrev pub key_eq : TaskKey → TaskKey → Bool
key_eq a b = option_eq a.work_item b.work_item && a.task == b.task

pub key_eq_iff : (a b : TaskKey) → (key_eq a b ≡ true) ↔ (a ≡ b)
key_eq_iff a b = (
  λ h. ground (arith, option_eq_iff a.work_item b.work_item, ==_iff a.task b.task),
  λ h. ground (arith, option_eq_iff a.work_item b.work_item, ==_iff a.task b.task),
)

instance abbrev pub key_Eq : Eq TaskKey
key_Eq = record { eq = key_eq; eq_iff = key_eq_iff }

-- The derived order of `TaskKey`: by work item, `None` first, then by task. Texts are ordered by
-- their code points, which is the order of their UTF-8 bytes.
unfoldable pub text_before : Text → Text → Bool
text_before [] [] = false
text_before [] (d ∷ t) = true
text_before (c ∷ s) [] = false
text_before (c ∷ s) (d ∷ t) = let rest = text_before s t in ltb c d || (nat_eq c d && rest)

unfoldable pub item_before : Option Text → Option Text → Bool
unfolding text_before
item_before none none = false
item_before none (some t) = true
item_before (some s) none = false
item_before (some s) (some t) = text_before s t

unfoldable pub key_before : TaskKey → TaskKey → Bool
unfolding item_before text_before
key_before a b =
    item_before a.work_item b.work_item
    || (option_eq a.work_item b.work_item && text_before a.task b.task)

instance abbrev pub key_Ord : Ord TaskKey
key_Ord = record { before = key_before }

-- `TaskKey::target`.
target_of : Option Text → Text → Text
target_of none task = task
target_of (some item) task = task ++ (lit "/" ++ item)

unfoldable pub target : TaskKey → Text
unfolding target_of
target k = target_of k.work_item k.task

pub data TaskState : Type 0 where
  waiting running completed : TaskState

abbrev pub is_waiting : TaskState → Bool
is_waiting waiting = true
is_waiting _ = false

abbrev pub is_running : TaskState → Bool
is_running running = true
is_running _ = false

abbrev pub is_done : TaskState → Bool
is_done completed = true
is_done _ = false

pub record TaskGraph : Type 0 where
  pub states : List (TaskKey × TaskState)
  pub dependencies : List (TaskKey × List TaskKey)

-- `states.get(key) == Some(&TaskState::Completed)`.
abbrev pub done_state : Option TaskState → Bool
done_state none = false
done_state (some s) = is_done s

unfoldable pub is_completed : TaskGraph → TaskKey → Bool
is_completed g k = done_state (lookup k g.states)

missing_dependencies : Text
missing_dependencies = lit "task graph is missing dependencies"

unknown_task : Text
unknown_task = lit "task graph has no such task"

-- The `filter_map` of `ready`, which stops at the first error. The message is shortened: it leaves
-- out the debug form of the key.
pub ready_from : TaskGraph → List (TaskKey × TaskState) → Result Text (List TaskKey)
unfolding is_completed missing_dependencies
ready_from g [] = ok []
ready_from g ((k, s) ∷ more) = do
  ds ← ok_or (lookup k g.dependencies) missing_dependencies
  rest ← ready_from g more
  ok (if is_waiting s && all (is_completed g) ds then k ∷ rest else rest)

unfoldable pub ready : TaskGraph → Result Text (List TaskKey)
unfolding ready_from
ready g = ready_from g g.states

unfoldable pub set_state : TaskGraph → TaskKey → TaskState → Result Text TaskGraph
unfolding unknown_task
set_state g k s =
    if contains_key k g.states
    then ok (record g { states = assign k s g.states })
    else err unknown_task

unfoldable pub mark_running : TaskGraph → TaskKey → Result Text TaskGraph
unfolding set_state
mark_running g k = set_state g k running

unfoldable pub mark_completed : TaskGraph → TaskKey → Result Text TaskGraph
unfolding set_state
mark_completed g k = set_state g k completed

-- A loop of `set_state`, in `restore_completed` and `restart_from`.
unfoldable pub set_all : TaskState → TaskGraph → List TaskKey → Result Text TaskGraph
unfolding set_state
set_all s g [] = ok g
set_all s g (k ∷ ks) = set_state g k s >>= λ h. set_all s h ks

unfoldable pub restore_completed : TaskGraph → List TaskKey → Result Text TaskGraph
unfolding set_all
restore_completed g ks = set_all completed g ks

unfoldable pub is_complete : TaskGraph → Bool
is_complete g = all is_done (values g.states)

abbrev is_of_item : Text → TaskKey → Bool
is_of_item item k = option_eq k.work_item (some item)

unfoldable pub work_item_is_complete : TaskGraph → Text → Bool
work_item_is_complete g item =
    all (λ (b : TaskKey × TaskState). not (is_of_item item b.0) || is_done b.1) g.states

-- One round of the loop of `affected_by` over the dependency sets, in place.
unfoldable pub affected_round : List (TaskKey × List TaskKey) → List TaskKey → List TaskKey
affected_round [] found = found
affected_round ((k, ds) ∷ more) found =
    affected_round more (if any (contains found) ds then insert_key k found else found)

-- The loop, until a round adds nothing.
affected_loop : ℕ → List (TaskKey × List TaskKey) → List TaskKey → Option (List TaskKey)
unfolding affected_round
affected_loop zero deps found = none
affected_loop (suc fuel) deps found =
    let next = affected_round deps found in
    let rest = affected_loop fuel deps next in
    if nat_eq (length next) (length found) then some next else rest

-- The outer `none` says that the fuel ran out, which one round more than there are tasks prevents.
unfoldable pub affected_by : TaskGraph → TaskKey → Option (Result Text (List TaskKey))
unfolding affected_loop unknown_task
affected_by g k = elim (contains_key k g.states) [
  | false ↦ some (err unknown_task)
  | true ↦ elim (affected_loop (suc (length g.dependencies)) g.dependencies (k ∷ [])) [
    | none ↦ none
    | some found ↦ some (ok found)
  ]
]

-- The updated graph and the tasks that wait again.
abbrev pub restart : TaskGraph → List TaskKey → Result Text (TaskGraph × List TaskKey)
restart g ks = set_all waiting g ks >>= λ h. ok (h, ks)

-- The outer `none` is that of `affected_by`.
unfoldable pub restart_from : TaskGraph → TaskKey → Option (Result Text (TaskGraph × List TaskKey))
unfolding affected_by set_all
restart_from g k =
    Option.map (λ (found : Result Text (List TaskKey)). found >>= restart g) (affected_by g k)

unfoldable pub completed_keys : TaskGraph → List TaskKey
completed_keys g =
    map (λ (b : TaskKey × TaskState). b.0)
      (keep (λ (b : TaskKey × TaskState). is_done b.1) g.states)
