-- ===== src/Service/Plans/Unseen.antt =====
-- What the list of plans leaves out.
mod Tests
use chat_aiagent.Prelude.{
  ℕ, ◌≡◌, refl, sym, ◌∙◌, inl, inr, zero, suc, take, String, Bool, true, false, not, Option, none,
  some, List, [], ◌∷◌, All, filter, count, List-cases, Bool-cases, arith,
}
use chat_aiagent.History.{PlanHistory, same_tenant, tenant_ok, get_all_recent}
use chat_aiagent.History.Ordered.{IsOrderDesc, count-All}
use chat_aiagent.Service.Plans.{table, get_history}

filter_none :
    (p : PlanHistory → Bool) (rows : List PlanHistory)
    → All (λ r. p r ≡ false) rows
    → filter p rows ≡ []
filter_none p [] h = refl
filter_none p (r ∷ rows) h = rw h.0 (filter_none p rows h.1)

take-nil : (n : ℕ) → ◌≡◌ {A = List PlanHistory} (take n []) []
take-nil zero = refl
take-nil (suc n) = refl

order_empty : (order : List PlanHistory → List PlanHistory) → IsOrderDesc order → order [] ≡ []
order_empty order desc = elim (List-cases (order [])) [
  | inl e ↦ e
  | inr (r, rs, e) ↦
      let same : count (λ r. true) (order []) ≡ 0 = desc.same_rows (λ r. true) [] in
      absurd (ground (arith, e, same))
]

-- A request for the history that names no tenant gets no plan, unless the tenant of one is the empty
-- string: whatever the limit, plans without a tenant are left out as well as those of any tenant.
-- This is so where the database orders rows as ORDER BY promises.
pub get_history_untenanted :
    (order : List PlanHistory → List PlanHistory) (limit : ℕ) (rows : List PlanHistory)
    → IsOrderDesc order
    → All (λ r. same_tenant r.tenant_id (some "") ≡ false) rows
    → get_history order limit none (table rows) ≡ []
unfolding get_history get_all_recent
get_history_untenanted order limit rows desc h =
    rw (filter_none (tenant_ok (some "")) rows h)
      (rw (order_empty order desc) (rw (take-nil limit) refl))
