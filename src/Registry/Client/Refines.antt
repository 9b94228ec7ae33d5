-- ===== src/Registry/Client/Refines.antt =====
-- The cache of the registry's client against what it promises: the last value that was set.
use chat_aiagent.Prelude.{
  ℕ, ◌+◌, ◌≡◌, refl, true, Option, none, some, List, [], ◌∷◌, Text, ltb, if◌then◌else◌, arith,
  Bool-cases, inl, inr,
}
use chat_aiagent.Prelude.Words.{text_eq_sound, text_eq_refl}
use chat_aiagent.Registry.Client.{
  Key, part_eq, key_eq, Value, Cache, Client, entry, with_entry, shown, cached, set, flush_cache,
}

-- What happens to the cache: a value is set under a key at a time, or everything is flushed.
pub data Op : Type 0 where
  set_op : ℕ → Key → Value → Op
  flush_op : Op

unfoldable pub run_op : Op → Client → Client
run_op (set_op now k v) c = set now k v c
run_op flush_op c = flush_cache c

-- The operations, the last one first.
unfoldable pub run_ops : List Op → Client → Client
unfolding run_op
run_ops [] c = c
run_ops (op ∷ ops) c = run_op op (run_ops ops c)

-- What a reader may expect: the value that was set last under the key, if nothing was flushed since,
-- it is younger than the time to live and it is not None.
abbrev pub last_set : ℕ → ℕ → Key → List Op → Option Value
last_set ttl now k [] = none
last_set ttl now k (flush_op ∷ ops) = none
last_set ttl now k (set_op at j v ∷ ops) =
    let before = last_set ttl now k ops in
    if key_eq j k then if ltb now (at + ttl) then shown v else none else before

part_eq_sound : (a b : Option Text) → part_eq a b ≡ true → a ≡ b
part_eq_sound none none h = refl
part_eq_sound none (some t) h = cc
part_eq_sound (some s) none h = cc
part_eq_sound (some s) (some t) h = ground (arith, text_eq_sound s t)

part_eq_refl : (a : Option Text) → part_eq a a ≡ true
part_eq_refl none = refl
part_eq_refl (some t) = text_eq_refl t

key_eq_sound : (j k : Key) → key_eq j k ≡ true → j ≡ k
key_eq_sound [] [] h = refl
key_eq_sound [] (b ∷ k) h = cc
key_eq_sound (a ∷ j) [] h = cc
key_eq_sound (a ∷ j) (b ∷ k) h = ground (arith, part_eq_sound a b, key_eq_sound j k)

key_eq_refl : (k : Key) → key_eq k k ≡ true
key_eq_refl [] = refl
key_eq_refl (a ∷ k) = ground (arith, part_eq_refl a, key_eq_refl k)

entry-with_entry :
    (j k : Key) (e : ℕ × Value) (c : Cache)
    → entry k (with_entry j e c) ≡ (if key_eq j k then some e else entry k c)
entry-with_entry j k e [] = refl
entry-with_entry j k e ((i, f) ∷ rest) = elim (Bool-cases (key_eq i j)) [
  | inl y ↦ ground (arith, y, key_eq_sound i j y, key_eq_refl j)
  | inr n ↦
      ground
        (arith, n, entry-with_entry j k e rest, key_eq_sound i k, key_eq_sound j k, key_eq_refl k)
]

run_ops-ttl : (ops : List Op) (c : Client) → (run_ops ops c).ttl ≡ c.ttl
unfolding run_ops run_op set flush_cache
run_ops-ttl [] c = refl
run_ops-ttl (set_op at j v ∷ ops) c = run_ops-ttl ops c
run_ops-ttl (flush_op ∷ ops) c = run_ops-ttl ops c

-- A new client after any values were set and any flushes reads under each key, at each time, exactly
-- the value that was set last under this key, if nothing was flushed since, it is younger than the
-- time to live and it is not None, and reads nothing otherwise.
pub cached-refines :
    (ops : List Op) (c : Client) (now : ℕ) (k : Key)
    → c.cache ≡ []
    → cached now k (run_ops ops c) ≡ last_set c.ttl now k ops
unfolding cached run_ops run_op set flush_cache
cached-refines [] c now k h = ground (arith, h)
cached-refines (flush_op ∷ ops) c now k h = refl
cached-refines (set_op at j v ∷ ops) c now k h = elim (Bool-cases (key_eq j k)) [
  | inl y ↦ ground (
    arith,
    y,
    entry-with_entry j k (at + (run_ops ops c).ttl, v) (run_ops ops c).cache,
    run_ops-ttl ops c,
  )
  | inr n ↦ ground (
    arith,
    n,
    entry-with_entry j k (at + (run_ops ops c).ttl, v) (run_ops ops c).cache,
    cached-refines ops c now k h,
  )
]
