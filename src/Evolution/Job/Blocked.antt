-- ===== src/Evolution/Job/Blocked.antt =====
-- What the settled suggestions of an action and a domain keep the job from writing.
mod Tests
use chat_aiagent.Prelude.{
  ℕ, ◌≡◌, refl, sym, ◌∙◌, inl, inr, String, Bool, true, false, ◌||◌, List, [], ◌∷◌, ◌++◌, Text, any,
  filter, List-cases, Bool-cases, arith, if◌then◌else◌, ◌=s=◌, Option, none, some, take, length,
  ltb,
}
use chat_aiagent.History.{PlanHistory}
use chat_aiagent.Evolution.Patterns.{Library, Frequency, Candidate, hard_ordering, soft_parallel}
use chat_aiagent.Evolution.Job.{
  PlaybookSuggestion, settles, new_row, write_suggestions, written, candidates, plans_of,
  is_completed, batch_size, run,
}

abbrev pub Parallel : Candidate → Type 0
Parallel (hard_ordering a b f) = ⊥
Parallel (soft_parallel ts f) = Unit

-- What the loop does with a candidate, by how many rows settle it.
module _ (action domain : String) where
  pub written_new :
      (c : Candidate) (cs : List Candidate) (rows : List PlaybookSuggestion)
      → filter (settles action domain c) rows ≡ []
      → write_suggestions action domain (c ∷ cs) rows
        ≡ write_suggestions action domain cs (rows ++ new_row action domain c ∷ [])
  unfolding write_suggestions
  written_new c cs rows e = ground (arith, e)

  pub written_skipped :
      (c : Candidate) (cs : List Candidate) (rows : List PlaybookSuggestion)
      (r : PlaybookSuggestion)
      → filter (settles action domain c) rows ≡ r ∷ []
      → write_suggestions action domain (c ∷ cs) rows ≡ write_suggestions action domain cs rows
  unfolding write_suggestions
  written_skipped c cs rows r e = ground (arith, e)

  pub written_stopped :
      (c : Candidate) (cs : List Candidate) (rows rs : List PlaybookSuggestion)
      (r s : PlaybookSuggestion)
      → filter (settles action domain c) rows ≡ r ∷ s ∷ rs
      → write_suggestions action domain (c ∷ cs) rows ≡ (rows, false)
  unfolding write_suggestions
  written_stopped c cs rows rs r s e = ground (arith, e)

abbrev pub is_parallel : PlaybookSuggestion → Bool
is_parallel r = r.rule_type =s= "soft_parallel"

filter_snoc :
    (rows : List PlaybookSuggestion) (r : PlaybookSuggestion)
    → is_parallel r ≡ false
    → filter is_parallel (rows ++ r ∷ []) ≡ filter is_parallel rows
filter_snoc [] r h = rw h refl
filter_snoc (x ∷ rows) r h = elim (Bool-cases (is_parallel x)) [
  | inl e ↦ ground (arith, e, filter_snoc rows r h)
  | inr e ↦ ground (arith, e, filter_snoc rows r h)
]

any_snoc :
    (p : PlaybookSuggestion → Bool) (rows : List PlaybookSuggestion) (r : PlaybookSuggestion)
    → any p rows ≡ true
    → any p (rows ++ r ∷ []) ≡ true
any_snoc p [] r h = absurd (ground arith)
any_snoc p (x ∷ rows) r h = elim (Bool-cases (p x)) [
  | inl e ↦ ground (arith, e)
  | inr e ↦ ground (arith, e, any_snoc p rows r (ground (arith, e)))
]

none_hit :
    (p : PlaybookSuggestion → Bool) (rows : List PlaybookSuggestion)
    → any p rows ≡ true
    → filter p rows ≡ []
    → ⊥
none_hit p [] h e = absurd (ground arith)
none_hit p (x ∷ rows) h e = elim (Bool-cases (p x)) [
  | inl y ↦ absurd (ground (arith, y))
  | inr n ↦ none_hit p rows (ground (arith, n)) (ground (arith, n))
]

-- A candidate writes no row of parallel tools where one is settled.
module _ (action domain : String) (ts : List Text) (f : Frequency) where
  abbrev IsSettled : List PlaybookSuggestion → Type 0
  IsSettled rows = any (settles action domain (soft_parallel ts f)) rows ≡ true

  new_blocked :
      (c : Candidate) (cs : List Candidate) (rows : List PlaybookSuggestion)
      → IsSettled rows
      → filter (settles action domain c) rows ≡ []
      → (IsSettled (rows ++ new_row action domain c ∷ [])
          → filter is_parallel
              (write_suggestions action domain cs (rows ++ new_row action domain c ∷ [])).0
            ≡ filter is_parallel (rows ++ new_row action domain c ∷ []))
      → filter is_parallel
          (write_suggestions action domain cs (rows ++ new_row action domain c ∷ [])).0
        ≡ filter is_parallel rows
  new_blocked (hard_ordering a b g) cs rows h e rest =
      rest (
        any_snoc (settles action domain (soft_parallel ts f)) rows
          (new_row action domain (hard_ordering a b g)) h)
      ∙ filter_snoc rows (new_row action domain (hard_ordering a b g)) refl
  new_blocked (soft_parallel us g) cs rows h e rest =
      absurd (none_hit (settles action domain (soft_parallel us g)) rows h e)

  write_suggestions_blocked :
      (cs : List Candidate) (rows : List PlaybookSuggestion)
      → IsSettled rows
      → filter is_parallel (write_suggestions action domain cs rows).0 ≡ filter is_parallel rows
  unfolding write_suggestions
  write_suggestions_blocked [] rows h = refl
  write_suggestions_blocked (c ∷ cs) rows h =
      elim (List-cases (filter (settles action domain c) rows)) [
        | inl e ↦ rw (written_new action domain c cs rows e) (
            new_blocked c cs rows h e
              (λ k. write_suggestions_blocked cs (rows ++ new_row action domain c ∷ []) k))
        | inr (r, rs, e) ↦ elim (List-cases rs) [
          | inl n ↦
              rw (written_skipped action domain c cs rows r (rw (sym n) e))
                (write_suggestions_blocked cs rows h)
          | inr (s, ss, n) ↦ rw (written_stopped action domain c cs rows ss r s (rw (sym n) e)) refl
        ]
      ]

  written_blocked :
      (k : Option (List Candidate)) (rows : List PlaybookSuggestion)
      → IsSettled rows
      → filter is_parallel (written action domain rows k).0 ≡ filter is_parallel rows
  written_blocked none rows h = refl
  written_blocked (some cs) rows h = write_suggestions_blocked cs rows h

  -- Once one suggestion of parallel tools has been accepted or rejected for an action and a domain, no
  -- run of the job for them writes a suggestion of parallel tools any more, whichever tools they are
  -- for: the tools are not compared.
  pub parallels_blocked :
      (lib : Library) (order : List PlanHistory → List PlanHistory) (history : List PlanHistory)
      (rows : List PlaybookSuggestion)
      → any (settles action domain (soft_parallel ts f)) rows ≡ true
      → filter is_parallel (run lib order action domain history rows).0 ≡ filter is_parallel rows
  unfolding run
  parallels_blocked lib order history rows h =
      let plans = take batch_size (order (filter (is_completed action domain) history)) in
      elim (Bool-cases (ltb (length plans) batch_size)) [
        | inl y ↦ rw y refl
        | inr n ↦ rw n (written_blocked (candidates lib (plans_of plans)) rows h)
      ]
