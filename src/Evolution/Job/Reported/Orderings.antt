-- ===== src/Evolution/Job/Reported/Orderings.antt =====
-- Steps without dependencies give no ordering of tools.
use chat_aiagent.Prelude.{
  ℕ, ◌≡◌, refl, inl, inr, true, some, List, [], ◌∷◌, Text, All, is_empty, Option-cases, Bool-cases,
  arith,
}
use chat_aiagent.History.{PlanStep, PlanHistory}
use chat_aiagent.Evolution.Patterns.{
  Step, Graph, Library, Counts, edges_of, ids, graph_of, count_orderings,
  extract_consistent_orderings,
}
use chat_aiagent.Evolution.Job.{steps_of, plans_of}
use chat_aiagent.Evolution.Job.Reported.Loose.{loose, is_loose}

no_items : (ts : List Text) → is_empty ts ≡ true → ts ≡ []
no_items [] h = refl
no_items (t ∷ ts) h = absurd (ground arith)

abbrev pub Free : List Step → Type 0
Free ss = All (λ s. s.dependencies ≡ []) ss

steps_of-Free :
    (ps : List PlanStep) (ss : List Step) → loose ps ≡ true → steps_of ps ≡ some ss → Free ss
steps_of-Free [] [] l h = tt
steps_of-Free [] (s ∷ ss) l h = ground arith
steps_of-Free (p ∷ ps) ss l h = elim (Option-cases p.id) [
  | inl e ↦ absurd (ground (arith, e))
  | inr (id, e) ↦ elim (Option-cases (steps_of ps)) [
    | inl n ↦ absurd (ground (arith, e, n))
    | inr (rest, n) ↦
        let step : Step = record {
          id = id;
          tool_name = p.tool_name;
          dependencies = p.dependencies;
        } in
        let same : ss ≡ step ∷ rest = ground (arith, e, n) in
        rw same (no_items p.dependencies (ground arith), steps_of-Free ps rest (ground arith) n)
  ]
]

pub plans_of-Free :
    (rows : List PlanHistory) (plans : List (List Step))
    → All (λ r. is_loose r ≡ true) rows
    → plans_of rows ≡ some plans
    → All Free plans
plans_of-Free [] [] l h = tt
plans_of-Free [] (x ∷ xs) l h = ground arith
plans_of-Free (r ∷ rows) plans l h = elim (Option-cases (steps_of r.steps)) [
  | inl e ↦ absurd (ground (arith, e))
  | inr (ss, e) ↦ elim (Option-cases (plans_of rows)) [
    | inl n ↦ absurd (ground (arith, e, n))
    | inr (rest, n) ↦
        let same : plans ≡ ss ∷ rest = ground (arith, e, n) in
        rw same (steps_of-Free r.steps ss l.0 e, plans_of-Free rows rest l.1 n)
  ]
]

edges_of-Free : (ss : List Step) (ns : List Text) → Free ss → edges_of ss ns ≡ []
edges_of-Free [] ns h = refl
edges_of-Free (s ∷ ss) ns h = rw h.0 (edges_of-Free ss ns h.1)

-- A closure adds no edge to a graph without edges.
abbrev pub Closes : Library → Type 0
Closes lib = (g : Graph) → g.edges ≡ [] → lib.transitive_closure g ≡ []

module _ (lib : Library) (closes : Closes lib) where
  count_orderings-Free :
      (plans : List (List Step)) (counts : Counts)
      → All Free plans
      → count_orderings lib plans counts ≡ counts
  unfolding graph_of
  count_orderings-Free [] counts h = refl
  count_orderings-Free (ss ∷ plans) counts h = elim (Bool-cases (is_empty ss)) [
    | inl e ↦ rw e (count_orderings-Free plans counts h.1)
    | inr e ↦ rw e (
        rw (closes (graph_of ss) (edges_of-Free ss (ids ss) h.0))
          (count_orderings-Free plans counts h.1))
  ]

  pub no_orderings :
      (min : ℕ) (plans : List (List Step))
      → All Free plans
      → extract_consistent_orderings lib min plans ≡ []
  unfolding extract_consistent_orderings
  no_orderings min plans h = elim (Bool-cases (is_empty plans)) [
    | inl e ↦ rw e refl
    | inr e ↦ rw e (rw (count_orderings-Free plans [] h) refl)
  ]
