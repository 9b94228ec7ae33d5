-- ===== src/Evolution/Job/Reported/Added.antt =====
-- Which rows the job adds for candidates that are all parallel tools.
use chat_aiagent.Prelude.{
  ℕ, ◌≡◌, refl, sym, inl, inr, String, some, List, [], ◌∷◌, ◌++◌, filter, All, is_empty, length,
  List-cases, Option-cases, Bool-cases, arith,
}
use chat_aiagent.Evolution.Patterns.{
  Step, Library, Candidate, hard_ordering, soft_parallel, Counts, parallels,
  extract_parallel_patterns, count_parallels, is_frequent,
}
use chat_aiagent.Evolution.Job.{PlaybookSuggestion, settles, new_row, write_suggestions}
use chat_aiagent.Evolution.Job.Blocked.{Parallel, written_new, written_skipped, written_stopped}

-- The rows that were there, with rows of parallel tools behind them.
pub data Parallels (before : List PlaybookSuggestion) : List PlaybookSuggestion → Type 0 where
  same_rows : Parallels before before
  more :
      (later : List PlaybookSuggestion) (r : PlaybookSuggestion)
      → Parallels before later
      → r.rule_type ≡ "soft_parallel"
      → Parallels before (later ++ r ∷ [])

module _ (action domain : String) (before : List PlaybookSuggestion) where
  new_row-Parallel :
      (c : Candidate) → Parallel c → (new_row action domain c).rule_type ≡ "soft_parallel"
  new_row-Parallel (hard_ordering a b f) y = absurd y
  new_row-Parallel (soft_parallel ts f) y = refl

  pub write_suggestions-Parallels :
      (cs : List Candidate) (rows : List PlaybookSuggestion)
      → All Parallel cs
      → Parallels before rows
      → Parallels before (write_suggestions action domain cs rows).0
  unfolding write_suggestions
  write_suggestions-Parallels [] rows y h = h
  write_suggestions-Parallels (c ∷ cs) rows y h =
      elim (List-cases (filter (settles action domain c) rows)) [
        | inl e ↦ rw (written_new action domain c cs rows e) (
            write_suggestions-Parallels cs (rows ++ new_row action domain c ∷ []) y.1
              (more rows _ h (new_row-Parallel c y.0)))
        | inr (r, rs, e) ↦ elim (List-cases rs) [
          | inl n ↦
              rw (written_skipped action domain c cs rows r (rw (sym n) e))
                (write_suggestions-Parallels cs rows y.1 h)
          | inr (s, ss, n) ↦ rw (written_stopped action domain c cs rows ss r s (rw (sym n) e)) h
        ]
      ]

parallels-Parallel : (min n : ℕ) (counts : Counts) → All Parallel (parallels min n counts)
parallels-Parallel min n [] = tt
parallels-Parallel min n (((a, b), c) ∷ rest) = elim (Bool-cases (is_frequent min n c)) [
  | inl e ↦ rw e (tt, parallels-Parallel min n rest)
  | inr e ↦ rw e (parallels-Parallel min n rest)
]

pub extract_parallel_patterns-Parallel :
    (lib : Library) (min : ℕ) (plans : List (List Step)) (cs : List Candidate)
    → extract_parallel_patterns lib min plans ≡ some cs
    → All Parallel cs
unfolding extract_parallel_patterns
extract_parallel_patterns-Parallel lib min plans cs h = elim (Bool-cases (is_empty plans)) [
  | inl e ↦ let same : cs ≡ [] = ground (arith, e) in rw same tt
  | inr e ↦ elim (Option-cases (count_parallels lib plans [])) [
    | inl n ↦ absurd (ground (arith, e, n))
    | inr (counts, n) ↦
        let same : cs ≡ parallels min (length plans) counts = ground (arith, e, n) in
        rw same (parallels-Parallel min (length plans) counts)
  ]
]
