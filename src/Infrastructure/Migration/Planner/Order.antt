-- ===== src/Infrastructure/Migration/Planner/Order.antt =====
-- The order of the steps in a plan (dynamic/planner.rs).
use luminair_service_aws_dsq.Base.{
  ℕ, ◌≤◌, ◌<◌, Bool, true, false, List, [], ◌∷◌, ◌++◌, ◌≡◌, refl, sym, ◌∙◌, subst, ◌==◌, nat_eq,
  if◌then◌else◌, retain, contains, IsNodup, All, Bool-cases, inl, inr, arith,
}
use luminair_service_aws_dsq.Infrastructure.Migration.Diff.{MigrationStep}
use luminair_service_aws_dsq.Infrastructure.Migration.Planner.{
  Vector, rank, vector_of, push, distribute, plan_migrations, drop_indexes,
  drop_published_link_tables, drop_draft_link_tables, drop_published_tables, drop_entity_tables,
  drop_columns, create_entity_tables, create_published_tables, create_draft_link_tables,
  create_published_link_tables, add_columns, create_indexes,
}
use mathlib.Core.List.{append_assoc, append-nil}

abbrev pub phase : MigrationStep → ℕ
phase step = rank (vector_of step)

-- The steps of a phase, in their order.
abbrev pub of_phase : ℕ → List MigrationStep → List MigrationStep
of_phase k steps = retain (λ step. phase step == k) steps

retain-append :
    (p : MigrationStep → Bool) (xs ys : List MigrationStep)
    → retain p (xs ++ ys) ≡ retain p xs ++ retain p ys
unfolding retain
retain-append p [] ys = refl
retain-append p (x ∷ xs) ys = ground (arith, retain-append p xs ys)

distribute-of_phase :
    (steps : List MigrationStep) (vectors : Vector → List MigrationStep) (v : Vector)
    → distribute steps vectors v ≡ vectors v ++ of_phase (rank v) steps
unfolding distribute push retain
distribute-of_phase [] vectors v = sym (append-nil (vectors v))
distribute-of_phase (step ∷ steps) vectors v =
    distribute-of_phase steps (push step vectors) v ∙ elim (Bool-cases (phase step == rank v)) [
      | inl here ↦ rw here (append_assoc (vectors v) (step ∷ []) (of_phase (rank v) steps))
      | inr elsewhere ↦ rw elsewhere refl
    ]

-- The phases of a list, one after the other.
abbrev pub by_phase : List ℕ → List MigrationStep → List MigrationStep
by_phase [] steps = []
by_phase (k ∷ ks) steps = of_phase k steps ++ by_phase ks steps

of_phase-of_phase :
    (j k : ℕ) (steps : List MigrationStep)
    → of_phase j (of_phase k steps) ≡ (if j == k then of_phase k steps else [])
unfolding retain
of_phase-of_phase j k [] = ground arith
of_phase-of_phase j k (step ∷ steps) = ground (arith, of_phase-of_phase j k steps)

of_phase-by_phase :
    (j : ℕ) (ks : List ℕ) (steps : List MigrationStep)
    → IsNodup ks
    → of_phase j (by_phase ks steps) ≡ (if contains ks j then of_phase j steps else [])
of_phase-by_phase j [] steps u = unfold retain in refl
of_phase-by_phase j (k ∷ ks) steps (fresh, u) =
    retain-append (λ step. phase step == j) (of_phase k steps) (by_phase ks steps)
    ∙ rw (of_phase-of_phase j k steps, of_phase-by_phase j ks steps u)
        (ground (arith, append-nil (of_phase k steps)))

-- No step comes before one of an earlier phase.
abbrev pub IsOrdered : List MigrationStep → Type 0
IsOrdered [] = Unit
IsOrdered (x ∷ xs) = All (λ y. phase x ≤ phase y) xs × IsOrdered xs

abbrev all_phases : List ℕ
all_phases = 1 ∷ 2 ∷ 3 ∷ 4 ∷ 5 ∷ 6 ∷ 7 ∷ 8 ∷ 9 ∷ 10 ∷ 11 ∷ 12 ∷ []

plan-by_phase : (raw : List MigrationStep) → plan_migrations raw ≡ by_phase all_phases raw
unfolding plan_migrations
plan-by_phase raw =
    let e = λ (v : Vector). distribute-of_phase raw (λ _. []) v in
    rw
      (
        e drop_indexes,
        e drop_published_link_tables,
        e drop_draft_link_tables,
        e drop_published_tables,
        e drop_entity_tables,
        e drop_columns,
        e create_entity_tables,
        e create_published_tables,
        e create_draft_link_tables,
        e create_published_link_tables,
        e add_columns,
        e create_indexes,
        append-nil (of_phase 12 raw),
      )
      (simp append_assoc)

-- Ascending phases.
abbrev IsAscending : List ℕ → Type 0
IsAscending [] = Unit
IsAscending (k ∷ ks) = All (λ j. k < j) ks × IsAscending ks

not_both : {b : Bool} → b ≡ true → b ≡ false → ⊥
not_both h g = cc

rank_known : (v : Vector) → contains all_phases (rank v) ≡ true
unfolding nat_eq
rank_known drop_indexes = refl
rank_known drop_published_link_tables = refl
rank_known drop_draft_link_tables = refl
rank_known drop_published_tables = refl
rank_known drop_entity_tables = refl
rank_known drop_columns = refl
rank_known create_entity_tables = refl
rank_known create_published_tables = refl
rank_known create_draft_link_tables = refl
rank_known create_published_link_tables = refl
rank_known add_columns = refl
rank_known create_indexes = refl

no_phase :
    (k : ℕ) (steps : List MigrationStep) → contains all_phases k ≡ false → of_phase k steps ≡ []
unfolding retain
no_phase k [] h = refl
no_phase k (step ∷ steps) h = elim (nat_eq.dec (phase step) k) [
  | yes e ↦
      absurd
        (not_both (subst (λ j. contains all_phases j ≡ true) e (rank_known (vector_of step))) h)
  | no differ ↦ ground (arith, no_phase k steps)
]

known_phases :
    (k : ℕ) (raw : List MigrationStep)
    → (if contains all_phases k then of_phase k raw else []) ≡ of_phase k raw
known_phases k raw = elim (Bool-cases (contains all_phases k)) [
  | inl known ↦ rw known refl
  | inr unknown ↦ rw (unknown, no_phase k raw unknown) refl
]

-- A plan has just the steps that are given, those of each phase in the order in which they are
-- given.
pub plan_is_stable :
    (raw : List MigrationStep) (k : ℕ) → of_phase k (plan_migrations raw) ≡ of_phase k raw
plan_is_stable raw k =
    rw (plan-by_phase raw)
      (of_phase-by_phase k all_phases raw (unfold nat_eq in ground arith) ∙ known_phases k raw)
