-- ===== src/History/Serves.antt =====
-- Which plans of the history may stand for a request, said apart from the query.
use chat_aiagent.Prelude.{
  ℕ, ◌≤◌, ◌+◌, ◌*◌, ◌≡◌, refl, ap, ◌∙◌, ◌⊎◌, ◌↔◌, inl, inr, eq_iff, String, true, ◌&&◌, Option,
  none, some, List, [], ◌∷◌, All, count, ltb, arith, Bool-cases, Option-cases,
}
use chat_aiagent.History.{PlanHistory, is_candidate, tenant_ok}

-- The plans that may stand for a request: completed ones of its action and domain, that were made at
-- most `ttl_days` days ago, and of its tenant, if it names one.
pub record Serves (now ttl_days : ℕ) (action domain : String) (tenant : Option String)
    (row : PlanHistory) : Type 0 where
  pub of_action : row.action ≡ action
  pub of_domain : row.domain ≡ domain
  pub is_completed : row.outcome ≡ "COMPLETED"
  pub is_young : now ≤ row.created_at + ttl_days * 86400
  pub of_tenant : (tenant ≡ none) ⊎ (row.tenant_id ≡ tenant)

tenant_ok_iff :
    (tenant : Option String) (row : PlanHistory)
    → (tenant_ok tenant row ≡ true) ↔ ((tenant ≡ none) ⊎ (row.tenant_id ≡ tenant))
tenant_ok_iff none row = (λ h. inl refl, λ h. refl)
tenant_ok_iff (some t) row = elim (Option-cases row.tenant_id) [
  | inl e ↦ (λ h. absurd (ground (arith, e)), λ h. ground (arith, e, h))
  | inr (u, e) ↦ (
    λ h. inr (e ∙ ap some ((eq_iff u t).0 (ground (arith, e)))),
    λ h. ground (arith, e, h, eq_iff u t),
  )
]

pub is_candidate-Serves :
    (now ttl_days : ℕ) (action domain : String) (tenant : Option String) (row : PlanHistory)
    → is_candidate now ttl_days action domain tenant row ≡ true
    → Serves now ttl_days action domain tenant row
is_candidate-Serves now ttl action domain tenant row h = record {
  of_action = ground (arith, eq_iff row.action action);
  of_domain = ground (arith, eq_iff row.domain domain);
  is_completed = ground (arith, eq_iff row.outcome "COMPLETED");
  is_young = ground arith;
  of_tenant = (tenant_ok_iff tenant row).0 (ground arith);
}

Serves-is_candidate :
    (now ttl_days : ℕ) (action domain : String) (tenant : Option String) (row : PlanHistory)
    → Serves now ttl_days action domain tenant row
    → is_candidate now ttl_days action domain tenant row ≡ true
Serves-is_candidate now ttl action domain tenant row s = ground (
  arith,
  (eq_iff row.action action).1 s.of_action,
  (eq_iff row.domain domain).1 s.of_domain,
  (eq_iff row.outcome "COMPLETED").1 s.is_completed,
  s.is_young,
  (tenant_ok_iff tenant row).1 s.of_tenant,
)

-- Of the rows of which none is a candidate and newer, those that serve are not newer.
pub none_newer :
    (now ttl_days : ℕ) (action domain : String) (tenant : Option String) (time : ℕ)
    (rows : List PlanHistory)
    → count (λ r. is_candidate now ttl_days action domain tenant r && ltb time r.created_at) rows
      ≡ 0
    → All (λ r. (¬ Serves now ttl_days action domain tenant r) ⊎ (r.created_at ≤ time)) rows
none_newer now ttl action domain tenant time [] h = tt
none_newer now ttl action domain tenant time (r ∷ rows) h =
    elim (Bool-cases (is_candidate now ttl action domain tenant r)) [
      | inl e ↦ (
        inr (ground (arith, e)),
        none_newer now ttl action domain tenant time rows (ground (arith, e)),
      )
      | inr e ↦ (
        inl (λ s. absurd (ground (arith, e, Serves-is_candidate now ttl action domain tenant r s))),
        none_newer now ttl action domain tenant time rows (ground (arith, e)),
      )
    ]
