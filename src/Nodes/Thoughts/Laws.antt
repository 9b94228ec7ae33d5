-- ===== src/Nodes/Thoughts/Laws.antt =====
-- What the validators of Thought guarantee.
use chat_aiagent.Prelude.{
  ◌≡◌, ◌≢◌, refl, subst, ap, ◌∙◌, false, ◌||◌, Option, none, some, [], ◌∷◌, ◌++◌, Text, strip,
  lstrip, before, reverse, has_char, if◌then◌else◌, arith, Bool-cases, inl, inr,
}
use mathlib.Core.List.{reverse-cons}
use chat_aiagent.Nodes.Thoughts.{single_tool_only, or_none}

-- A text with no comma.
abbrev pub NoComma : Text → Type 0
NoComma t = has_char 44 t ≡ false

before-NoComma : (t : Text) → has_char 44 (before 44 t) ≡ false
before-NoComma [] = refl
before-NoComma (c ∷ t) = ground (arith, before-NoComma t)

lstrip-NoComma : (t : Text) → has_char 44 t ≡ false → has_char 44 (lstrip t) ≡ false
lstrip-NoComma [] h = refl
lstrip-NoComma (c ∷ t) h = ground (arith, lstrip-NoComma t)

has_char-append : (t u : Text) → has_char 44 (t ++ u) ≡ (has_char 44 t || has_char 44 u)
has_char-append [] u = refl
has_char-append (c ∷ t) u = ground (arith, has_char-append t u)

has_char-reverse : (t : Text) → has_char 44 (reverse t) ≡ has_char 44 t
has_char-reverse [] = refl
has_char-reverse (c ∷ t) = ground (
  arith,
  ap (has_char 44) (reverse-cons c t),
  has_char-append (reverse t) (c ∷ []),
  has_char-reverse t,
)

strip-NoComma : (t : Text) → has_char 44 t ≡ false → has_char 44 (strip t) ≡ false
unfolding strip
strip-NoComma t h =
    has_char-reverse (lstrip (reverse (lstrip t)))
    ∙ lstrip-NoComma (reverse (lstrip t)) (has_char-reverse (lstrip t) ∙ lstrip-NoComma t h)

or_none_lem : (t name : Text) → or_none t ≡ some name → NoComma t → (name ≢ []) × NoComma name
or_none_lem [] name h k = cc
or_none_lem (c ∷ t) name h k = ground arith

-- Whatever the model writes for a tool, what is left names one tool at most: it is not empty and
-- holds no comma.
pub single_tool_only_lem :
    (v : Option Text) (name : Text) → single_tool_only v ≡ some name → (name ≢ []) × NoComma name
unfolding single_tool_only
single_tool_only_lem none name h = cc
single_tool_only_lem (some v) name h = elim (Bool-cases (has_char 44 (strip v))) [
  | inl e ↦
      or_none_lem (strip (before 44 (strip v))) name
        (subst (λ b. or_none (if b then strip (before 44 (strip v)) else strip v) ≡ some name) e h)
        (strip-NoComma (before 44 (strip v)) (before-NoComma (strip v)))
  | inr e ↦
      or_none_lem (strip v) name
        (subst (λ b. or_none (if b then strip (before 44 (strip v)) else strip v) ≡ some name) e h)
        e
]
