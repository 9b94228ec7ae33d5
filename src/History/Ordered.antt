-- ===== src/History/Ordered.antt =====
-- What is relied on of ORDER BY created_at DESC: it returns the same rows, newest first.
use chat_aiagent.Prelude.{
  ℕ, zero, suc, ◌≤◌, ◌≡◌, refl, Bool, true, false, List, [], ◌∷◌, All, filter, arith, ◌&&◌, not,
  take, length, count, Bool-cases, inl, inr,
}
use chat_aiagent.History.{PlanHistory}

abbrev pub IsNewestFirst : List PlanHistory → Type 0
IsNewestFirst [] = Unit
IsNewestFirst (r ∷ rs) = All (λ q. q.created_at ≤ r.created_at) rs × IsNewestFirst rs

pub record IsOrderDesc (order_desc : List PlanHistory → List PlanHistory) : Type 0 where
  pub newest_first : (rows : List PlanHistory) → IsNewestFirst (order_desc rows)
  pub same_rows :
      (p : PlanHistory → Bool) (rows : List PlanHistory) → count p (order_desc rows) ≡ count p rows

pub count-filter :
    {A : Type 0} (p q : A → Bool) (xs : List A) → count p (filter q xs) ≡ count (λ x. q x && p x) xs
count-filter p q [] = refl
count-filter p q (x ∷ xs) = ground (arith, count-filter p q xs)

pub count_none :
    {A : Type 0} (p : A → Bool) (xs : List A) → All (λ x. p x ≡ false) xs → count p xs ≡ 0
count_none p [] h = refl
count_none p (x ∷ xs) (e, h) = ground (arith, count_none p xs h)

pub count_never :
    {A : Type 0} (p : A → Bool) (xs : List A) → ((x : A) → p x ≡ false) → count p xs ≡ 0
count_never p [] h = refl
count_never p (x ∷ xs) h = ground (arith, h x, count_never p xs h)

pub count_empty : {A : Type 0} (p : A → Bool) → count p [] ≡ 0
count_empty p = refl

pub count_head :
    {A : Type 0} (p : A → Bool) (x : A) (xs : List A) → p x ≡ true → 1 ≤ count p (x ∷ xs)
count_head p x xs e = ground arith

pub count-All :
    {A : Type 0} (p : A → Bool) (xs : List A)
    → count (λ x. not (p x)) xs ≡ 0
    → All (λ x. p x ≡ true) xs
count-All p [] h = tt
count-All p (x ∷ xs) h = elim (Bool-cases (p x)) [
  | inl e ↦ (e, count-All p xs (ground arith))
  | inr e ↦ absurd (ground arith)
]

pub All-take : {A : Type 0} (P : A → Type 0) (n : ℕ) (xs : List A) → All P xs → All P (take n xs)
All-take P zero xs h = tt
All-take P (suc n) [] h = tt
All-take P (suc n) (x ∷ xs) h = (h.0, All-take P n xs h.1)

pub take-IsNewestFirst :
    (n : ℕ) (rs : List PlanHistory) → IsNewestFirst rs → IsNewestFirst (take n rs)
take-IsNewestFirst zero rs h = tt
take-IsNewestFirst (suc n) [] h = tt
take-IsNewestFirst (suc n) (r ∷ rs) h =
    (All-take (λ q. q.created_at ≤ r.created_at) n rs h.0, take-IsNewestFirst n rs h.1)

pub length-take-le : {A : Type 0} (n : ℕ) (xs : List A) → length (take n xs) ≤ n
length-take-le zero xs = omega arith
length-take-le (suc n) [] = omega arith
length-take-le (suc n) (x ∷ xs) = omega (arith, length-take-le n xs)
