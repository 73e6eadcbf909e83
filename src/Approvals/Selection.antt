-- ===== src/Approvals/Selection.antt =====
-- What a human decision selects from the pending approvals.
use donkeyspace.Prelude.{
  ◌≡◌, refl, ap, ◌∙◌, subst, Bool, true, false, ◌||◌, List, [], ◌∷◌, ◌++◌, Option, none, some, ok,
  text_eq, ◌==◌, ==_iff, find, find_sound, find_finds, nat_eq, arith, Memᴰ,
}
use donkeyspace.Text.{Text, lit}
use donkeyspace.TaskGraph.{TaskKey, target}
use donkeyspace.Approvals.{
  PendingApproval, HumanDecision, target_of_decision, select_pending_approvals, select_for,
  select_target,
}

-- No `/`, which separates the task from its work item in a target.
abbrev pub has_slash : Text → Bool
has_slash [] = false
has_slash (c ∷ s) = let rest = has_slash s in nat_eq c 47 || rest

cons_inj {ℓ} : {A : Type ℓ} {x y : A} {xs ys : List A} → x ∷ xs ≡ y ∷ ys → (x ≡ y) × (xs ≡ ys)
cons_inj h = (cc, cc)

has_slash-append : (s u : Text) → has_slash (s ++ (47 ∷ u)) ≡ true
has_slash-append [] u = refl
has_slash-append (c ∷ s) u = ground (arith, has_slash-append s u)

target_parts :
    (s t u v : Text)
    → has_slash s ≡ false
    → has_slash t ≡ false
    → s ++ (47 ∷ u) ≡ t ++ (47 ∷ v)
    → (s ≡ t) × (u ≡ v)
target_parts [] [] u v a b h = (refl, (cons_inj h).1)
target_parts [] (d ∷ t) u v a b h = let (e, _) = cons_inj h in absurd (ground arith)
target_parts (c ∷ s) [] u v a b h = let (e, _) = cons_inj h in absurd (ground arith)
target_parts (c ∷ s) (d ∷ t) u v a b h =
    let (e, f) = cons_inj h in
    let (p, q) = target_parts s t u v (ground arith) (ground arith) f in (cc, q)

-- Keys with task names without a slash have different targets.
target_inj :
    (j k : TaskKey)
    → has_slash j.task ≡ false
    → has_slash k.task ≡ false
    → target j ≡ target k
    → j ≡ k
unfolding target lit
target_inj j k a b h = of_parts j.work_item k.work_item j.task k.task a b h
  where
    key : Option Text → Text → TaskKey
    key w t = record { work_item = w; task = t }

    of_parts :
        (x y : Option Text) (s t : Text)
        → has_slash s ≡ false
        → has_slash t ≡ false
        → target (key x s) ≡ target (key y t)
        → key x s ≡ key y t
    of_parts none none s t a b h = ap (key none) h
    of_parts none (some v) s t a b h = cc (a, h, has_slash-append t v)
    of_parts (some u) none s t a b h = cc (b, h, has_slash-append s u)
    of_parts (some u) (some v) s t a b h =
        let (p, q) = target_parts s t u v a b h in
        ap (λ w. key w s) (ap some q) ∙ ap (key (some v)) p

select_found :
    (pending : List PendingApproval) (d : HumanDecision) (name : Text) (b : PendingApproval)
    → target_of_decision d ≡ some name
    → (name == lit "all") ≡ false
    → find (λ (c : PendingApproval). target c.key == name) pending ≡ some b
    → select_pending_approvals pending d ≡ ok (b ∷ [])
unfolding select_pending_approvals select_for select_target
select_found pending d name b e n f = rw (e, n, f) refl

-- With task names without a slash, a decision that gives the target of a pending task selects the
-- approval of that task and no other; the target is not `all`, which selects every task.
pub select_pending_approvals-target :
    (pending : List PendingApproval) (d : HumanDecision) (k : TaskKey)
    → ((a : PendingApproval) → Memᴰ a pending → has_slash a.key.task ≡ false)
    → target_of_decision d ≡ some (target k)
    → (target k == lit "all") ≡ false
    → (a : PendingApproval) → Memᴰ a pending
    → a.key ≡ k
    → (b : PendingApproval) × (select_pending_approvals pending d ≡ ok (b ∷ []))
      × Memᴰ b pending
      × (b.key ≡ k)
select_pending_approvals-target pending d k named e n a m q =
    let (b, f) =
      find_finds (λ (c : PendingApproval). target c.key == target k) m
        (ground (arith, ==_iff (target a.key) (target k), ap target q)) in
    let (i, g) = find_sound (λ (c : PendingApproval). target c.key == target k) pending f in
    (
      b,
      select_found pending d (target k) b e n f,
      i,
      target_inj b.key k (named b i) (subst (λ j. has_slash j.task ≡ false) q (named a m))
          ((==_iff (target b.key) (target k)).0 g),
    )
