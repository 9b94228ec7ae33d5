-- ===== src/Prelude/Dicts.antt =====
-- Python's `dict` with string keys, as an association list without regard to order of insertion.
use Prim.Native.String.{String}
use mathlib.Core.Path.{◌≡◌, refl}
use mathlib.Core.List.{List, [], ◌∷◌}
use mathlib.Core.Option.{Option, none, some}
use native.Mathlib.Omega.{arith}
use text.Mathlib.TextEquality.{eq_iff}
use chat_aiagent.Prelude.Tests.{◌=s=◌, if◌then◌else◌}

abbrev pub Dict {ℓ} : Type ℓ → Type ℓ
Dict V = List (String × V)

module _ {ℓ} {V : Type ℓ} where
  -- `d.get(k)`
  unfoldable pub lookup : String → Dict V → Option V
  lookup key [] = none
  lookup key ((name, value) ∷ rest) = if name =s= key then some value else lookup key rest

  -- `d[k] = v`
  unfoldable pub insert : String → V → Dict V → Dict V
  insert key new [] = (key, new) ∷ []
  insert key new ((name, value) ∷ rest) =
      if name =s= key then (key, new) ∷ rest else (name, value) ∷ insert key new rest

  -- `d.pop(k, None)`, the dictionary that is left
  unfoldable pub erase : String → Dict V → Dict V
  erase k [] = []
  erase k ((j, w) ∷ m) = if j =s= k then erase k m else (j, w) ∷ erase k m

  pub lookup-insert :
      (key name : String) (new : V) (dict : Dict V)
      → lookup name (insert key new dict) ≡ (if key =s= name then some new else lookup name dict)
  unfolding insert lookup
  lookup-insert key name new [] = refl
  lookup-insert key name new ((other, value) ∷ rest) =
      let later = lookup-insert key name new rest in
      ground (arith, later, eq_iff other name, eq_iff other key, eq_iff key name)

  pub lookup-erase :
      (k j : String) (m : Dict V) → lookup j (erase k m) ≡ (if k =s= j then none else lookup j m)
  unfolding lookup erase
  lookup-erase k j [] = ground arith
  lookup-erase k j ((i, w) ∷ m) =
      ground (arith, eq_iff k j, eq_iff i k, eq_iff i j, lookup-erase k j m)
