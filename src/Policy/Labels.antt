-- ===== src/Policy/Labels.antt =====
-- `WorkflowPolicy` and `AutomationDecision` of crates/donkeyspace-core/src/policy.rs: which labels
-- of an issue allow or block automation.
use donkeyspace.Prelude.{
  ◌≡◌, refl, Bool, true, false, not, ◌&&◌, List, [], ◌∷◌, ◌++◌, Option, none, some, Memᴰ, ◌⊎◌, inl,
  inr, is_empty-nil, contains, contains_mem, mem_contains, text_eq, is_empty, any, any_intro,
  any_elim, find, if◌then◌else◌, arith, Option-cases, Bool-cases,
}
use donkeyspace.Text.{Text, lit, join}
use donkeyspace.Policy.Engagement.{EngagementPolicy}

pub record WorkflowPolicy : Type 0 where
  pub state_labels : List (Text × Text)
  pub block_labels : List Text
  pub allow_labels : List Text
  pub engagement : EngagementPolicy

pub data AutomationDecision : Type 0 where
  allowed : AutomationDecision
  blocked_by_label : Text → AutomationDecision
  missing_allow_label : List Text → AutomationDecision

unfoldable pub is_allowed : AutomationDecision → Bool
is_allowed allowed = true
is_allowed _ = false

unfoldable pub reason : AutomationDecision → Text
reason allowed = lit "policy allows automation"
reason (blocked_by_label label) = lit "blocked by policy label `" ++ (label ++ lit "`")
reason (missing_allow_label (label ∷ [])) =
    lit "missing required policy allow label `" ++ (label ++ lit "`")
reason (missing_allow_label labels) =
    lit "missing one of required policy allow labels: " ++ join (lit ", ") labels

-- What follows once no label blocks.
allow_decision : WorkflowPolicy → List Text → AutomationDecision
allow_decision p labels =
    if not (is_empty p.allow_labels) && not (any (contains p.allow_labels) labels)
    then missing_allow_label p.allow_labels
    else allowed

decide_blocked : WorkflowPolicy → List Text → Option Text → AutomationDecision
unfolding allow_decision
decide_blocked p labels none = allow_decision p labels
decide_blocked p labels (some label) = blocked_by_label label

unfoldable pub automation_decision_for_labels : WorkflowPolicy → List Text → AutomationDecision
unfolding decide_blocked
automation_decision_for_labels p labels =
    decide_blocked p labels (find (contains p.block_labels) labels)

module _ (p : WorkflowPolicy) (labels : List Text) where
  abbrev pub IsBlocked : Type 0
  IsBlocked = (l : Text) × Memᴰ l labels × Memᴰ l p.block_labels

  abbrev pub IsAdmitted : Type 0
  IsAdmitted = (p.allow_labels ≡ []) ⊎ ((l : Text) × Memᴰ l labels × Memᴰ l p.allow_labels)

  find_blocked :
      (ls : List Text) {l : Text}
      → find (contains p.block_labels) ls ≡ some l
      → Memᴰ l ls × Memᴰ l p.block_labels
  find_blocked [] h = cc
  find_blocked (k ∷ ls) {l} h = elim (Bool-cases (contains p.block_labels k)) [
    | inl b ↦
        let same : l ≡ k = ground arith in
        (Memᴰ.head same, rw same (contains_mem p.block_labels k b))
    | inr b ↦ let (m, n) = find_blocked ls {l = l} (ground arith) in (Memᴰ.tail m, n)
  ]

  find_not_blocked :
      (ls : List Text)
      → find (contains p.block_labels) ls ≡ none
      → (l : Text) → Memᴰ l ls
      → Memᴰ l p.block_labels
      → ⊥
  find_not_blocked [] h l m n = elim m [ ]
  find_not_blocked (k ∷ ls) h l m n = elim (Bool-cases (contains p.block_labels k)) [
    | inl b ↦ absurd (ground arith)
    | inr b ↦ here b m (find_not_blocked ls (ground arith) l)
  ]
    where
      here :
          contains p.block_labels k ≡ false
          → Memᴰ l (k ∷ ls)
          → (Memᴰ l ls → Memᴰ l p.block_labels → ⊥)
          → ⊥
      here b (Memᴰ.head e) ih = let c = mem_contains n in ground (arith, c)
      here b (Memᴰ.tail k) ih = ih k n

  -- What each decision says of the labels.
  abbrev pub Justifies : AutomationDecision → Type 0
  Justifies allowed = (¬ IsBlocked) × IsAdmitted
  Justifies (blocked_by_label l) = Memᴰ l labels × Memᴰ l p.block_labels
  Justifies (missing_allow_label ls) = (¬ IsBlocked) × (ls ≡ p.allow_labels) × (¬ IsAdmitted)

  allow_decision-Justifies : (¬ IsBlocked) → Justifies (allow_decision p labels)
  unfolding allow_decision
  allow_decision-Justifies free = elim (Bool-cases (is_empty p.allow_labels)) [
    | inl e ↦ rw e (free, inl (is_empty-nil p.allow_labels e))
    | inr e ↦ elim (Bool-cases (any (contains p.allow_labels) labels)) [
      | inl a ↦
          let (l, m, c) = any_elim (contains p.allow_labels) labels a in
          rw (e, a) (free, inr (l, m, contains_mem p.allow_labels l c))
      | inr a ↦ rw (e, a) (free, refl, unadmitted e a)
    ]
  ]
    where
      unadmitted :
          is_empty p.allow_labels ≡ false
          → any (contains p.allow_labels) labels ≡ false
          → ¬ IsAdmitted
      unadmitted e a (inl q) = absurd (ground arith)
      unadmitted e a (inr (l, m, n)) =
          let b = any_intro (contains p.allow_labels) m (mem_contains n) in
          absurd (ground (arith, b))

  -- Automation is allowed only if no label of the issue is a block label and, where allow labels
  -- are configured, one of them is on the issue. A block label wins over any allow label; a missing
  -- allow label is reported only if none blocks.
  pub automation_decision_justified : Justifies (automation_decision_for_labels p labels)
  unfolding automation_decision_for_labels
  automation_decision_justified = elim (Option-cases (find (contains p.block_labels) labels)) [
    | inl e ↦
        rw (e, decide_blocked)
          (allow_decision-Justifies (λ b. find_not_blocked labels e b.0 b.1 b.2))
    | inr (l, e) ↦ rw (e, decide_blocked) (find_blocked labels e)
  ]
