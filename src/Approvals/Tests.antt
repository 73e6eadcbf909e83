-- ===== src/Approvals/Tests.antt =====
-- Decisions at small inputs.
use donkeyspace.Prelude.{
  ◌≡◌, refl, true, false, List, [], ◌∷◌, none, some, Result, ok, err, text_eq, ◌==◌, Memᴰ, Bool,
}
use donkeyspace.Text.{Text, lit}
use donkeyspace.TaskGraph.{target}
use donkeyspace.Approvals.{PendingApproval, required, approve, revise, select_pending_approvals}
use donkeyspace.Approvals.Selection.{has_slash, select_pending_approvals-target}

abbrev build_of : Text → PendingApproval
build_of id = record {
  key = record { work_item = some id; task = lit "build" };
  trigger = required;
}

abbrev two_builds : List PendingApproval
two_builds = build_of (lit "a") ∷ build_of (lit "b") ∷ []

named : (a : PendingApproval) → Memᴰ a two_builds → has_slash a.key.task ≡ false
unfolding lit
named a (Memᴰ.head q) = rw q refl
named a (Memᴰ.tail (Memᴰ.head q)) = rw q refl
named a (Memᴰ.tail (Memᴰ.tail n)) = elim n [ ]

not_all : (target (build_of (lit "b")).key == lit "all") ≡ false
unfolding donkeyspace.Prelude.list_eq target lit
not_all = refl

select_pending_approvals-target_example :
    (b : PendingApproval) × (select_pending_approvals two_builds
        (approve (some (target (build_of (lit "b")).key)))
      ≡ ok (b ∷ []))
    × Memᴰ b two_builds
    × (b.key ≡ (build_of (lit "b")).key)
select_pending_approvals-target_example =
    select_pending_approvals-target two_builds (approve (some (target (build_of (lit "b")).key)))
      (build_of (lit "b")).key named refl not_all (build_of (lit "b")) (Memᴰ.tail (Memᴰ.head refl))
      refl

-- A task name with a slash has the target of another task, and the first of them is selected.
abbrev alike : List PendingApproval
alike =
    record { key = record { work_item = none; task = lit "a/b" }; trigger = required }
    ∷ record { key = record { work_item = some (lit "b"); task = lit "a" }; trigger = required }
    ∷ []

first_selected :
    select_pending_approvals alike (approve (some (lit "a/b")))
    ≡ ok (record { key = record { work_item = none; task = lit "a/b" }; trigger = required } ∷ [])
unfolding select_pending_approvals donkeyspace.Prelude.list_eq lit
first_selected = refl

ambiguous :
    select_pending_approvals two_builds (approve none)
    ≡ err (lit "an approval target is required when multiple tasks are pending")
unfolding select_pending_approvals
ambiguous = refl

one_revised :
    select_pending_approvals two_builds (revise (some (lit "all")) [])
    ≡ err (lit "revision feedback must target one task")
unfolding select_pending_approvals donkeyspace.Prelude.list_eq lit
one_revised = refl
