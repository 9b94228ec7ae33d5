-- ===== src/History/Queries.antt =====
-- The queries of the plan history meet their descriptions, whatever order the database gives to
-- rows of the same time.
use chat_aiagent.Prelude.{
  ℕ, ◌≤◌, ◌⊎◌, ◌≡◌, refl, sym, ap, subst, ◌∙◌, String, Bool, true, false, ◌&&◌, not, Option, none,
  some, List, [], ◌∷◌, All, filter, take, length, count, ltb, arith, Bool-cases, List-cases, inl,
  inr, ◌↔◌,
}
use chat_aiagent.History.{
  PlanHistory, is_candidate, tenant_ok, first, get_best_cached, get_all_recent,
}
use chat_aiagent.History.Serves.{Serves, is_candidate-Serves, none_newer}
use chat_aiagent.History.Ordered.{
  count-filter, count_none, count_never, count_head, count-All, All-take, take-IsNewestFirst,
  length-take-le, IsNewestFirst, IsOrderDesc,
}

-- What `get_best_cached` promises, for a table `rows` and its result: the row is in the table and
-- serves the request, and no row of the table that is newer does.
pub record IsBest (now ttl_days : ℕ) (action domain : String) (tenant : Option String)
    (rows : List PlanHistory) (row : PlanHistory) : Type 0 where
  pub serves : Serves now ttl_days action domain tenant row
  pub listed : (p : PlanHistory → Bool) → p row ≡ true → 1 ≤ count p rows
  pub newest :
      All
        (λ r. (¬ Serves now ttl_days action domain tenant r) ⊎ (r.created_at ≤ row.created_at))
        rows

and-not : (b : Bool) → (b && not b) ≡ false
and-not b = ground arith

count-and_le :
    (p q : PlanHistory → Bool) (rows : List PlanHistory)
    → count (λ r. q r && p r) rows ≤ count p rows
count-and_le p q [] = omega arith
count-and_le p q (r ∷ rs) = ground (arith, count-and_le p q rs)

count_same :
    (c : PlanHistory → Bool) (rows : List PlanHistory) → count c rows ≡ count (λ r. c r && c r) rows
count_same c [] = refl
count_same c (r ∷ rs) = ground (arith, count_same c rs)

none_ne_some : {row : PlanHistory} → none ≡ some row → ⊥
none_ne_some e = cc

some_inj : {r row : PlanHistory} → some r ≡ some row → r ≡ row
some_inj e = cc

none_above :
    (n : ℕ) (qs : List PlanHistory)
    → All (λ q. q.created_at ≤ n) qs
    → All (λ q. ltb n q.created_at ≡ false) qs
none_above n [] k = tt
none_above n (q ∷ qs) k = (ground arith, none_above n qs k.1)

module _ (order_desc : List PlanHistory → List PlanHistory) (o : IsOrderDesc order_desc) where
  -- The rows of an ordered selection, counted in the table.
  count-order-filter :
      (c p : PlanHistory → Bool) (rows : List PlanHistory)
      → count p (order_desc (filter c rows)) ≡ count (λ q. c q && p q) rows
  count-order-filter c p rows = o.same_rows p (filter c rows) ∙ count-filter p c rows

  -- The head of an ordered selection.
  head_selected :
      (c : PlanHistory → Bool) (rows : List PlanHistory) (r : PlanHistory) (rs : List PlanHistory)
      → order_desc (filter c rows) ≡ r ∷ rs
      → c r ≡ true
  head_selected c rows r rs e = elim (Bool-cases (c r)) [
    | inl h ↦ h
    | inr h ↦
        let none_left : count (λ q. not (c q)) (r ∷ rs) ≡ 0 =
          sym (ap (count (λ q. not (c q))) e)
          ∙ (count-order-filter c (λ q. not (c q)) rows
              ∙ count_never (λ q. c q && not (c q)) rows (λ q. and-not (c q))) in
        absurd (omega (arith, count_head (λ q. not (c q)) r rs (rw h)))
  ]

  head_listed :
      (c : PlanHistory → Bool) (rows : List PlanHistory) (r : PlanHistory) (rs : List PlanHistory)
      → order_desc (filter c rows) ≡ r ∷ rs
      → (p : PlanHistory → Bool) → p r ≡ true
      → 1 ≤ count p rows
  head_listed c rows r rs e p h =
      let all : count p (r ∷ rs) ≡ count (λ q. c q && p q) rows =
        sym (ap (count p) e) ∙ count-order-filter c p rows in
      omega (arith, all, count_head p r rs h, count-and_le p c rows)

  head_newest :
      (c : PlanHistory → Bool) (rows : List PlanHistory) (r : PlanHistory) (rs : List PlanHistory)
      → order_desc (filter c rows) ≡ r ∷ rs
      → count (λ q. c q && ltb r.created_at q.created_at) rows ≡ 0
  head_newest c rows r rs e =
      let sorted : IsNewestFirst (r ∷ rs) =
        subst IsNewestFirst e (o.newest_first (filter c rows)) in
      sym (count-order-filter c (λ q. ltb r.created_at q.created_at) rows)
      ∙ (ap (count (λ q. ltb r.created_at q.created_at)) e
          ∙ count_none (λ q. ltb r.created_at q.created_at) (r ∷ rs)
              (ground arith, none_above r.created_at rs sorted.0))

  -- Where the database orders rows as ORDER BY created_at DESC promises: a row that the plan cache
  -- returns is in the table, is a completed plan of the action and the domain that was made at most
  -- the time to live ago, and of the tenant asked for, if one is; and every row of the table that is
  -- all of this was made no later.
  pub get_best_cached-IsBest :
      (now ttl_days : ℕ) (action domain : String) (tenant : Option String) (rows : List PlanHistory)
      (row : PlanHistory)
      → get_best_cached order_desc now ttl_days action domain tenant (some rows) ≡ some row
      → IsBest now ttl_days action domain tenant rows row
  unfolding get_best_cached
  get_best_cached-IsBest now ttl action domain tenant rows row h =
      let c = is_candidate now ttl action domain tenant in
      elim (List-cases (order_desc (filter c rows))) [
        | inl e ↦ absurd (none_ne_some (subst (λ l. first (take 1 l) ≡ some row) e h))
        | inr (r, rs, e) ↦
            let same : r ≡ row = some_inj (subst (λ l. first (take 1 l) ≡ some row) e h) in
            subst (IsBest now ttl action domain tenant rows) same (record {
              serves =
                  is_candidate-Serves now ttl action domain tenant r (head_selected c rows r rs e);
              listed = head_listed c rows r rs e;
              newest =
                  none_newer now ttl action domain tenant r.created_at rows
                    (head_newest c rows r rs e);
            })
      ]

  -- Where the database orders rows as ORDER BY created_at DESC promises: the plan cache misses, on a
  -- table that can be read, exactly when the table holds no completed
  -- plan of the action and domain that is young enough and of the tenant asked for.
  pub get_best_cached-eq-none_iff :
      (now ttl_days : ℕ) (action domain : String) (tenant : Option String) (rows : List PlanHistory)
      → (get_best_cached order_desc now ttl_days action domain tenant (some rows) ≡ none)
        ↔ (count (is_candidate now ttl_days action domain tenant) rows ≡ 0)
  unfolding get_best_cached
  get_best_cached-eq-none_iff now ttl action domain tenant rows =
      let c = is_candidate now ttl action domain tenant in
      let kept = count-order-filter c c rows in
      elim (List-cases (order_desc (filter c rows))) [
        | inl e ↦ (λ h. count_same c rows ∙ (sym kept ∙ ap (count c) e), λ h. rw e)
        | inr (r, rs, e) ↦ (
          λ h. absurd (none_ne_some (sym (subst (λ l. first (take 1 l) ≡ none) e h))),
          λ h. absurd (
              omega (
                arith,
                sym (ap (count c) e) ∙ kept,
                count_same c rows,
                count_head c r rs (head_selected c rows r rs e),
              )),
        )
      ]

  -- Rows that pass a test: what a query with that test returns.
  filter-All :
      (c : PlanHistory → Bool) (rows : List PlanHistory)
      → All (λ q. c q ≡ true) (order_desc (filter c rows))
  filter-All c rows = count-All c (order_desc (filter c rows)) (
      count-order-filter c (λ q. not (c q)) rows
      ∙ count_never (λ q. c q && not (c q)) rows (λ q. and-not (c q)))

  -- Where the database orders rows as ORDER BY created_at DESC promises: `get_all_recent` returns at most `limit` rows, newest first, and when a tenant is given only
  -- rows of that tenant.
  pub get_all_recent_lem :
      (limit : ℕ) (tenant : Option String) (rows : List PlanHistory)
      → (length (get_all_recent order_desc limit tenant rows) ≤ limit)
        × IsNewestFirst (get_all_recent order_desc limit tenant rows)
        × All (λ q. tenant_ok tenant q ≡ true) (get_all_recent order_desc limit tenant rows)
  unfolding get_all_recent
  get_all_recent_lem limit tenant rows = (
    length-take-le limit (order_desc (filter (tenant_ok tenant) rows)),
    take-IsNewestFirst limit _ (o.newest_first (filter (tenant_ok tenant) rows)),
    All-take (λ q. tenant_ok tenant q ≡ true) limit _ (filter-All (tenant_ok tenant) rows),
  )
