-- ===== src/TaskGraph/Affected.antt =====
-- `affected_by` finds exactly the tasks that depend on the given one, directly or through others,
-- and its loop ends.
use donkeyspace.Prelude.{
  ℕ, zero, suc, ◌≤◌, ◌<◌, ◌≡◌, refl, ap, ◌∙◌, true, false, not, ◌||◌, List, [], ◌∷◌, some, ok,
  arith, Memᴰ, any, any_elim, any_intro, keep, length, length-keep-lt, length-keep-le, Bool-cases,
  inl, inr, ◌⊎◌, ◌↔◌, ==_iff, ◌==◌, contains, keys, contains_key, insert_key, contains-insert_key,
  length-insert_key, insert_key_same,
}
use donkeyspace.TaskGraph.{
  TaskKey, key_Eq, key_Ord, TaskGraph, affected_round, affected_loop, affected_by,
}

abbrev Dependencies : Type 0
Dependencies = List (TaskKey × List TaskKey)

-- `IsAffected deps k j`: `j` is `k`, or one of its dependencies is affected.
pub data IsAffected (deps : List (TaskKey × List TaskKey)) (k : TaskKey) : TaskKey → Type 0 where
  itself : IsAffected deps k k
  through :
      {j d : TaskKey} {ds : List TaskKey}
      → Memᴰ (j, ds) deps
      → Memᴰ d ds
      → IsAffected deps k d
      → IsAffected deps k j

-- A round adds nothing for these entries.
IsClosedUnder : Dependencies → List TaskKey → Type 0
IsClosedUnder more found =
    (j : TaskKey) (ds : List TaskKey)
    → Memᴰ (j, ds) more
    → any (contains found) ds ≡ true
    → contains found j ≡ true

round_mono :
    (more : Dependencies) (found : List TaskKey)
    → (length found ≤ length (affected_round more found))
      × ((j : TaskKey) → contains found j ≡ true → contains (affected_round more found) j ≡ true)
unfolding affected_round
round_mono [] found = (omega arith, λ j h. h)
round_mono ((k, ds) ∷ more) found = elim (Bool-cases (any (contains found) ds)) [
  | inl b ↦
      let (l, m) = round_mono more (insert_key k found) in
      (
        rw b (ground (arith, length-insert_key k found)),
        λ j h. rw b (m j (ground (arith, contains-insert_key k found j))),
      )
  | inr b ↦ let (l, m) = round_mono more found in (rw b l, λ j h. rw b (m j h))
]

-- A round adds nothing and finds nothing to add, or it adds a key that was not there.
RoundCases : Dependencies → List TaskKey → Type 0
unfolding affected_round IsClosedUnder
RoundCases more found =
    ((affected_round more found ≡ found) × IsClosedUnder more found)
    ⊎ ((length found < length (affected_round more found))
        × ((j : TaskKey) × Memᴰ j (keys more)
            × (contains found j ≡ false)
            × (contains (affected_round more found) j ≡ true)))

round_cases : (more : Dependencies) (found : List TaskKey) → RoundCases more found
unfolding RoundCases affected_round IsClosedUnder
round_cases [] found = inl (refl, λ j ds m. elim m [ ])
round_cases ((k, ds) ∷ more) found = elim (Bool-cases (any (contains found) ds)) [
  | inr b ↦ skip (rw b refl) (λ a. cc) (round_cases more found)
  | inl b ↦ elim (Bool-cases (contains found k)) [
    | inl c ↦ skip (rw (b, insert_key_same k found c) refl) (λ a. c) (round_cases more found)
    | inr c ↦
        let (l, m) = round_mono more (insert_key k found) in
        inr (
          rw b (ground (arith, length-insert_key k found)),
          (
            k,
            Memᴰ.head refl,
            c,
            rw b (m k (ground (arith, contains-insert_key k found k, ==_iff k k))),
          ),
        )
  ]
]
  where
    skip :
        affected_round ((k, ds) ∷ more) found ≡ affected_round more found
        → (any (contains found) ds ≡ true → contains found k ≡ true)
        → RoundCases more found
        → RoundCases ((k, ds) ∷ more) found
    skip e h (inl (q, c)) = inl (e ∙ q, closed)
      where
        closed :
            (j : TaskKey) (es : List TaskKey)
            → Memᴰ (j, es) ((k, ds) ∷ more)
            → any (contains found) es ≡ true
            → contains found j ≡ true
        closed j es (Memᴰ.head s) a =
            let same = ap (λ (p : TaskKey × List TaskKey). p.0) s in
            let these = ap (λ (p : TaskKey × List TaskKey). p.1) s in rw same (h (rw (← these) a))
        closed j es (Memᴰ.tail m) a = c j es m a
    skip e h (inr (l, (j, m, n, i))) = inr (rw e l, (j, Memᴰ.tail m, n, rw e i))

AllAffected : Dependencies → TaskKey → List TaskKey → Type 0
AllAffected deps k found = (j : TaskKey) → contains found j ≡ true → IsAffected deps k j

round_sound :
    (deps : Dependencies) (k : TaskKey) (more : Dependencies) (found : List TaskKey)
    → ((j : TaskKey) (ds : List TaskKey) → Memᴰ (j, ds) more → Memᴰ (j, ds) deps)
    → AllAffected deps k found
    → AllAffected deps k (affected_round more found)
unfolding affected_round AllAffected
round_sound deps k [] found inside h = h
round_sound deps k ((i, ds) ∷ more) found inside h = elim (Bool-cases (any (contains found) ds)) [
  | inl b ↦ rw b (
      round_sound deps k more (insert_key i found) (λ j es m. inside j es (Memᴰ.tail m))
        (λ j q. added b j (rw (← (contains-insert_key i found j)) q)))
  | inr b ↦ rw b (round_sound deps k more found (λ j es m. inside j es (Memᴰ.tail m)) h)
]
  where
    added :
        any (contains found) ds ≡ true
        → (j : TaskKey) → (i == j || contains found j) ≡ true
        → IsAffected deps k j
    added b j q = elim (Bool-cases (contains found j)) [
      | inl c ↦ h j c
      | inr c ↦
          let (d, m, e) = any_elim (contains found) ds b in
          let same : i ≡ j = ground (arith, ==_iff i j) in
          rw (← same) (IsAffected.through (inside i ds (Memᴰ.head refl)) m (h d e))
    ]

-- How many keys are still missing; every round but the last makes it smaller.
missing : Dependencies → List TaskKey → ℕ
missing deps found = length (keep (λ j. not (contains found j)) (keys deps))

missing-round :
    (deps : Dependencies) (found : List TaskKey)
    → (j : TaskKey) × Memᴰ j (keys deps)
      × (contains found j ≡ false)
      × (contains (affected_round deps found) j ≡ true)
    → missing deps (affected_round deps found) < missing deps found
unfolding missing
missing-round deps found (j, m, n, i) =
    length-keep-lt (λ i. not (contains (affected_round deps found) i)) (λ i. not (contains found i))
      (λ x h. ground (arith, (round_mono deps found).1 x)) m (ground arith) (ground arith)

-- What the loop gives: a set that is closed, affected throughout, and no smaller.
record IsResult (deps : Dependencies) (k : TaskKey) (found result : List TaskKey) : Type 0 where
  closed : IsClosedUnder deps result
  sound : AllAffected deps k result
  larger : (j : TaskKey) → contains found j ≡ true → contains result j ≡ true

loop-IsResult :
    (deps : Dependencies) (k : TaskKey) (fuel : ℕ) (found : List TaskKey)
    → AllAffected deps k found
    → missing deps found < fuel
    → (result : List TaskKey) × (affected_loop fuel deps found ≡ some result)
      × IsResult deps k found result
unfolding affected_loop RoundCases
loop-IsResult deps k zero found h l = absurd (omega (arith, l))
loop-IsResult deps k (suc fuel) found h l =
    by_round (λ g h l. loop-IsResult deps k fuel g h l) (round_cases deps found)
  where
    by_round :
        ((g : List TaskKey)
          → AllAffected deps k g
          → missing deps g < fuel
          → (result : List TaskKey) × (affected_loop fuel deps g ≡ some result)
            × IsResult deps k g result)
        → RoundCases deps found
        → (result : List TaskKey) × (affected_loop (suc fuel) deps found ≡ some result)
          × IsResult deps k found result
    by_round again (inl (e, c)) = (
      affected_round deps found,
      rw e (ground arith),
      record { closed = rw e c; sound = rw e h; larger = λ j q. rw e q },
    )
    by_round again (inr (g, w)) =
        let smaller = missing-round deps found w in
        let (result, e, r) =
          again (affected_round deps found) (round_sound deps k deps found (λ j ds m. m) h)
            (omega (arith, smaller, l)) in
        (
          result,
          ground (arith, e, g),
          record {
            closed = r.closed;
            sound = r.sound;
            larger = λ j q. r.larger j ((round_mono deps found).1 j q);
          },
        )

-- A closed set that has `k` has every task that depends on it.
closed_complete :
    (deps : Dependencies) (k : TaskKey) (found : List TaskKey)
    → IsClosedUnder deps found
    → contains found k ≡ true
    → (j : TaskKey) → IsAffected deps k j
    → contains found j ≡ true
unfolding IsClosedUnder
closed_complete deps k found c h j IsAffected.itself = h
closed_complete deps k found c h j (IsAffected.through {d} {ds} m n a) =
    c j ds m (any_intro (contains found) n (closed_complete deps k found c h d a))

affected_by_loop :
    (g : TaskGraph) (k : TaskKey) (found : List TaskKey)
    → contains_key k g.states ≡ true
    → affected_loop (suc (length g.dependencies)) g.dependencies (k ∷ []) ≡ some found
    → affected_by g k ≡ some (ok found)
unfolding affected_by
affected_by_loop g k found c e = ground (arith, c, e)

-- For a task of the graph `affected_by` ends within one round more than there are tasks, and its
-- result is exactly the task itself and the tasks that depend on it, directly or through others.
pub affected_by_iff :
    (g : TaskGraph) (k : TaskKey)
    → contains_key k g.states ≡ true
    → (found : List TaskKey) × (affected_by g k ≡ some (ok found))
      × ((j : TaskKey) → (contains found j ≡ true) ↔ IsAffected g.dependencies k j)
unfolding missing AllAffected
affected_by_iff g k c =
    let (found, e, r) =
      loop-IsResult g.dependencies k (suc (length g.dependencies)) (k ∷ []) start enough in
    (
      found,
      affected_by_loop g k found c e,
      λ j. (
        r.sound j,
        closed_complete g.dependencies k found r.closed (r.larger k (ground (arith, ==_iff k k))) j,
      ),
    )
  where
    start : (j : TaskKey) → contains (k ∷ []) j ≡ true → IsAffected g.dependencies k j
    start j h = let same : k ≡ j = ground (arith, ==_iff k j) in rw (← same) IsAffected.itself

    length-keys : (m : Dependencies) → length (keys m) ≡ length m
    length-keys [] = refl
    length-keys ((i, ds) ∷ m) = ap suc (length-keys m)

    enough :
        length (keep (λ j. not (contains (k ∷ []) j)) (keys g.dependencies))
        < suc (length g.dependencies)
    enough = omega (
      arith,
      length-keep-le (λ j. not (contains (k ∷ []) j)) (keys g.dependencies),
      length-keys g.dependencies,
    )
