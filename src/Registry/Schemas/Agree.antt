-- ===== src/Registry/Schemas/Agree.antt =====
-- Where the two mappings agree.
use chat_aiagent.Prelude.{
  subst, sym, ◌≤◌, ◌≡◌, refl, inl, inr, String, Bool, true, false, not, ◌&&◌, ◌||◌, Option, none,
  some, Text, codes, ltb, ◌=s=◌, arith, Bool-cases, eq_iff,
}
use chat_aiagent.Registry.Schemas.{
  Schema, word, node, Items, absent, items, Schemas, nil, cons, is_null, any_null, size, non_null,
  listed, union, json_any_of, json_node, json_schema_type, json_items, json_first, map_any_of,
  map_node, map_type, map_items, map_first,
}

-- The types that both tables name.
abbrev is_scalar : Option String → Bool
is_scalar none = false
is_scalar (some t) = (t =s= "string") || (t =s= "integer") || (t =s= "number") || (t =s= "boolean")

abbrev is_nil : Schemas → Bool
is_nil nil = true
is_nil (cons s ss) = false

-- Nowhere in the schema does a scalar type stand beside an anyOf.
abbrev mutual
  pub is_plain : Schema → Bool
  is_plain (word t) = true
  is_plain (node t i ss) = (not (is_scalar t) || is_nil ss) && is_plain_items i && is_plain_all ss

  pub is_plain_items : Items → Bool
  is_plain_items absent = true
  is_plain_items (items s) = is_plain s

  pub is_plain_all : Schemas → Bool
  is_plain_all nil = true
  is_plain_all (cons s ss) = is_plain s && is_plain_all ss

non_null-le : (ss : Schemas) → non_null ss ≤ size ss
non_null-le nil = omega arith
non_null-le (cons s ss) = ground (arith, non_null-le ss)

-- Fewer items that are not null than items: one is null.
ltb-non_null : (ss : Schemas) → ltb (non_null ss) (size ss) ≡ any_null ss
ltb-non_null nil = ground arith
ltb-non_null (cons s ss) = ground (arith, ltb-non_null ss, non_null-le ss)

abbrev Below : Option Text → Option Text → Type 0
Below o p = (w : Text) → o ≡ some w → p ≡ some w

Below-of_eq : (o p : Option Text) → o ≡ p → Below o p
Below-of_eq o p e w h = cc

listed-Below : (o p : Option Text) → Below o p → Below (listed o) (listed p)
listed-Below none p b w h = absurd (ground arith)
listed-Below (some x) p b w h = rw (b x refl) h

union-Below :
    (m n : Bool) (ss : Schemas) (o p : Option Text)
    → m ≡ n
    → Below o p
    → Below (union m ss o) (union n ss p)
union-Below m n ss none p e b w h = absurd (ground arith)
union-Below m n ss (some x) p e b w h = rw (b x refl) (ground arith)

any_of-Below :
    (ss : Schemas) (o p : Option Text)
    → Below o p
    → Below (map_any_of (codes "any") ss o) (json_any_of ss p)
any_of-Below nil o p b w h = h
any_of-Below (cons s ss) o p b w h =
    union-Below _ _ (cons s ss) o p (ltb-non_null (cons s ss)) b w h

array_facts : (t : String) → (t =s= "array") ≡ true → is_scalar (some t) ≡ false
array_facts t e = subst (λ x. is_scalar (some x) ≡ false) (sym ((eq_iff t "array").0 e)) refl

number_facts : (t : String) → (t =s= "number") ≡ true → (t =s= "boolean") ≡ false
number_facts t e = subst (λ x. (x =s= "boolean") ≡ false) (sym ((eq_iff t "number").0 e)) refl

node-Below :
    (t : Option String) (ss : Schemas) (i j o p : Option Text)
    → (not (is_scalar t) || is_nil ss) ≡ true
    → Below i j
    → Below o p
    → Below (map_node t ss i o) (json_node t ss j p)
node-Below none ss i j o p plain bi bo w h = any_of-Below ss o p bo w h
node-Below (some t) nil i j o p plain bi bo w h = elim (Bool-cases (t =s= "array")) [
  | inl e ↦ ground (arith, listed-Below i j bi w, array_facts t e)
  | inr e ↦ ground (arith, number_facts t)
]
node-Below (some t) (cons s ss) i j o p plain bi bo w h = elim (Bool-cases (t =s= "array")) [
  | inl e ↦ ground (arith, listed-Below i j bi w, array_facts t e)
  | inr e ↦ ground (arith, any_of-Below (cons s ss) o p bo w)
]

-- The induction over a schema, its items and its alternatives.
mutual
  type-Below : (s : Schema) → is_plain s ≡ true → Below (map_type s) (json_schema_type s)
  type-Below (word t) plain w h = absurd (ground arith)
  type-Below (node t i ss) plain w h =
      node-Below t ss (map_items i) (json_items i) (map_first ss) (json_first ss) (ground arith)
        (items-Below i (ground arith)) (first-Below ss (ground arith)) w h

  items-Below : (i : Items) → is_plain_items i ≡ true → Below (map_items i) (json_items i)
  items-Below absent plain w h = h
  items-Below (items s) plain w h = type-Below s plain w h

  first-Below : (ss : Schemas) → is_plain_all ss ≡ true → Below (map_first ss) (json_first ss)
  first-Below nil plain w h = h
  first-Below (cons s ss) plain w h = elim (Bool-cases (is_null s)) [
    | inl e ↦ ground (arith, first-Below ss (ground arith) w)
    | inr e ↦ ground (arith, type-Below s (ground arith) w)
  ]

-- The two mappings agree: wherever the live client's gives a word for a schema, the registry
-- client's gives the same, if nowhere in the schema one of the four scalar types stands beside an
-- anyOf that is not empty.
pub map_type-json_schema_type :
    (s : Schema) (w : Text) → is_plain s ≡ true → map_type s ≡ some w → json_schema_type s ≡ some w
map_type-json_schema_type s w plain h = type-Below s plain w h
