-- ===== src/Service/Events/Paging.antt =====
-- Reading the events of a thread page by page.
use chat_aiagent.Prelude.{
  ℕ, zero, suc, ◌+◌, ◌≤◌, ◌≡◌, refl, sym, ap, Option, List, [], ◌∷◌, ◌++◌, Text, map, length, drop,
  arith,
}
use chat_aiagent.Prelude.Json.{Json}
use chat_aiagent.Service.Events.{payload, numbered, get_events}

drop_split {ℓ} :
    {A : Type ℓ} (i : ℕ) (xs ys : List A) → i ≤ length xs → drop i (xs ++ ys) ≡ drop i xs ++ ys
drop_split zero xs ys h = refl
drop_split (suc i) [] ys h = ground arith
drop_split (suc i) (x ∷ xs) ys h = drop_split i xs ys (omega (arith, h))

drop_all {ℓ} : {A : Type ℓ} (xs ys : List A) → drop (length xs) (xs ++ ys) ≡ ys
drop_all [] ys = refl
drop_all (x ∷ xs) ys = drop_all xs ys

length-drop {ℓ} :
    {A : Type ℓ} (i : ℕ) (xs : List A) → i ≤ length xs → i + length (drop i xs) ≡ length xs
length-drop zero xs h = omega arith
length-drop (suc i) [] h = ground arith
length-drop (suc i) (x ∷ xs) h = omega (arith, length-drop i xs (omega (arith, h)))

-- The pages of two lists that are put together.
numbered-append :
    (loads : Text → Option Json) (i n : ℕ) (xs ys : List Text)
    → i + length xs ≡ n
    → numbered i (map (payload loads) (xs ++ ys))
      ≡ numbered i (map (payload loads) xs) ++ numbered n (map (payload loads) ys)
numbered-append loads i n [] ys h = ap (λ k. numbered k (map (payload loads) ys)) (omega (arith, h))
numbered-append loads i n (x ∷ xs) ys h =
    ap (λ l. (i, payload loads x) ∷ l) (numbered-append loads (suc i) n xs ys (omega (arith, h)))

-- A reader that has the events from an index, and reads on from the total of its page when more have
-- been appended, has together what one reading of the whole list from that index gives: every event
-- once, in order and under its own index, where the index is within the list and the list is not
-- appended to between its reading and its counting.
pub get_events_on :
    (loads : Text → Option Json) (i : ℕ) (old new : List Text)
    → i ≤ length old
    → (get_events loads i old old).events
        ++ (get_events loads (get_events loads i old old).total (old ++ new) (old ++ new)).events
      ≡ (get_events loads i (old ++ new) (old ++ new)).events
unfolding get_events
get_events_on loads i old new h = rw (drop_split i old new h) (
    rw (drop_all old new)
      (sym (numbered-append loads i (length old) (drop i old) new (length-drop i old h))))
