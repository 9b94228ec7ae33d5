-- ===== src/History/Sorting.antt =====
-- Insertion sort, newest first: one way to order the rows of a query.
use chat_aiagent.Prelude.{
  ℕ, ◌≤◌, ◌≡◌, refl, Bool, List, [], ◌∷◌, All, count, leb, if◌then◌else◌, arith, Bool-cases, inl,
  inr,
}
use chat_aiagent.History.{PlanHistory}
use chat_aiagent.History.Ordered.{IsNewestFirst, IsOrderDesc}

insert_desc : PlanHistory → List PlanHistory → List PlanHistory
insert_desc r [] = r ∷ []
insert_desc r (q ∷ qs) =
    let rest = insert_desc r qs in if leb q.created_at r.created_at then r ∷ q ∷ qs else q ∷ rest

unfoldable pub sort_desc : List PlanHistory → List PlanHistory
unfolding insert_desc
sort_desc [] = []
sort_desc (r ∷ rs) = insert_desc r (sort_desc rs)

abbrev AtMost : ℕ → List PlanHistory → Type 0
AtMost n rs = All (λ (q : PlanHistory). q.created_at ≤ n) rs

AtMost-trans : (m n : ℕ) (rs : List PlanHistory) → m ≤ n → AtMost m rs → AtMost n rs
AtMost-trans m n [] h k = tt
AtMost-trans m n (q ∷ qs) h k = (omega arith, AtMost-trans m n qs h k.1)

AtMost-insert_desc :
    (n : ℕ) (r : PlanHistory) (rs : List PlanHistory)
    → r.created_at ≤ n
    → AtMost n rs
    → AtMost n (insert_desc r rs)
unfolding insert_desc
AtMost-insert_desc n r [] h k = (h, tt)
AtMost-insert_desc n r (q ∷ qs) h k = elim (Bool-cases (leb q.created_at r.created_at)) [
  | inl e ↦ rw e (h, (k.0, k.1))
  | inr e ↦ rw e (k.0, AtMost-insert_desc n r qs h k.1)
]

insert_desc-IsNewestFirst :
    (r : PlanHistory) (rs : List PlanHistory) → IsNewestFirst rs → IsNewestFirst (insert_desc r rs)
unfolding insert_desc
insert_desc-IsNewestFirst r [] h = (tt, tt)
insert_desc-IsNewestFirst r (q ∷ qs) h = elim (Bool-cases (leb q.created_at r.created_at)) [
  | inl e ↦
      let le : q.created_at ≤ r.created_at = ground arith in
      rw e ((le, AtMost-trans q.created_at r.created_at qs le h.0), h)
  | inr e ↦
      rw e (
        AtMost-insert_desc q.created_at r qs (ground arith) h.0,
        insert_desc-IsNewestFirst r qs h.1,
      )
]

sort_desc-IsNewestFirst : (rs : List PlanHistory) → IsNewestFirst (sort_desc rs)
unfolding sort_desc
sort_desc-IsNewestFirst [] = tt
sort_desc-IsNewestFirst (r ∷ rs) =
    insert_desc-IsNewestFirst r (sort_desc rs) (sort_desc-IsNewestFirst rs)

count-insert_desc :
    (p : PlanHistory → Bool) (r : PlanHistory) (rs : List PlanHistory)
    → count p (insert_desc r rs) ≡ count p (r ∷ rs)
unfolding insert_desc
count-insert_desc p r [] = refl
count-insert_desc p r (q ∷ qs) = ground (arith, count-insert_desc p r qs)

count-sort_desc :
    (p : PlanHistory → Bool) (rs : List PlanHistory) → count p (sort_desc rs) ≡ count p rs
unfolding sort_desc
count-sort_desc p [] = refl
count-sort_desc p (r ∷ rs) =
    ground (arith, count-insert_desc p r (sort_desc rs), count-sort_desc p rs)

pub sort_desc-IsOrderDesc : IsOrderDesc sort_desc
sort_desc-IsOrderDesc = record {
  newest_first = sort_desc-IsNewestFirst;
  same_rows = count-sort_desc;
}
