-- ===== src/Nodes/Intents/Nearest.antt =====
-- The nearest registered name.
use chat_aiagent.Prelude.{
  ℕ, ◌≡◌, ap, ◌≤◌, ◌⊎◌, inl, inr, refl, String, true, false, List, [], ◌∷◌, Text, codes, lower, ltb,
  All, arith, eq_refl, Bool-cases,
}
use chat_aiagent.Nodes.Intents.{nearest_from, cosine_nearest, member}

module _ (ratio : Text → Text → ℕ) (a : Text) where
  -- Where the loop stands: the score bounds those of the candidates that were passed, and it is that
  -- of one of them, or the one the loop began with.
  record IsNearest (cs : List String) (b : String × ℕ) (r : String × ℕ) : Type 0 where
    grown : b.1 ≤ r.1
    bounds : All (λ c. ratio a (lower (codes c)) ≤ r.1) cs
    source : (r ≡ b) ⊎ ((member r.0 cs ≡ true) × (r.1 ≡ ratio a (lower (codes r.0))))

  abbrev similarity : String → ℕ
  similarity c = ratio a (lower (codes c))

  -- A candidate of a greater score takes the place of the best; another one leaves it.
  IsNearest-better :
      (c : String) (cs : List String) (b r : String × ℕ)
      → ltb b.1 (similarity c) ≡ true
      → IsNearest cs (c, similarity c) r
      → IsNearest (c ∷ cs) b r
  IsNearest-better c cs b r e n = record {
    grown = ground (arith, n.grown);
    bounds = (n.grown, n.bounds);
    source = elim n.source [
      | inl p ↦ inr (rw p (rw (eq_refl c)), rw p)
      | inr q ↦ inr (ground (arith), q.1)
    ];
  }

  IsNearest-kept :
      (c : String) (cs : List String) (b r : String × ℕ)
      → ltb b.1 (similarity c) ≡ false
      → IsNearest cs b r
      → IsNearest (c ∷ cs) b r
  IsNearest-kept c cs b r e n = record {
    grown = n.grown;
    bounds = (ground (arith, n.grown), n.bounds);
    source = elim n.source [ inl p ↦ inl p | inr q ↦ inr (ground (arith), q.1) ];
  }

  nearest_from-IsNearest :
      (cs : List String) (b : String × ℕ) → IsNearest cs b (nearest_from ratio a cs b)
  unfolding nearest_from
  nearest_from-IsNearest [] b = record { grown = omega arith; bounds = tt; source = inl refl }
  nearest_from-IsNearest (c ∷ cs) (n, score) = elim (Bool-cases (ltb score (similarity c))) [
    | inl e ↦
        rw e (IsNearest-better c cs (n, score) _ e (nearest_from-IsNearest cs (c, similarity c)))
    | inr e ↦ rw e (IsNearest-kept c cs (n, score) _ e (nearest_from-IsNearest cs (n, score)))
  ]

-- The name that is chosen is one of the candidates, no candidate is more similar to the action, and
-- the score is its own similarity, or 0 where none is similar at all.
pub cosine_nearest_lem :
    (ratio : Text → Text → ℕ) (action c : String) (cs : List String)
    → let (name, score) = cosine_nearest ratio action c cs in
      let a = lower (codes action) in
      (member name (c ∷ cs) ≡ true)
      × All (λ n. ratio a (lower (codes n)) ≤ score) (c ∷ cs)
      × ((score ≡ 0) ⊎ (score ≡ ratio a (lower (codes name))))
unfolding cosine_nearest
cosine_nearest_lem ratio action c cs =
    let n = nearest_from-IsNearest ratio (lower (codes action)) (c ∷ cs) (c, 0) in
    let r = nearest_from ratio (lower (codes action)) (c ∷ cs) (c, 0) in
    (
      elim n.source [ inl p ↦ member_head r.0 (ap (λ (q : String × ℕ). q.0) p) | inr q ↦ q.0 ],
      n.bounds,
      elim n.source [ inl p ↦ inl (ap (λ (q : String × ℕ). q.1) p) | inr q ↦ inr q.1 ],
    )
  where
    member_head : (name : String) → name ≡ c → member name (c ∷ cs) ≡ true
    member_head name e = rw e (rw (eq_refl c))
