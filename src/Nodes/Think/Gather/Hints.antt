-- ===== src/Nodes/Think/Gather/Hints.antt =====
-- The tools that a playbook recommends.
use chat_aiagent.Prelude.{
  ◌≡◌, refl, ap, true, false, ◌||◌, List, [], ◌∷◌, ◌++◌, Text, text_eq, is_in, any, arith,
  Bool-cases, inl, inr,
}
use chat_aiagent.Prelude.Words.{text_eq_sound}
use chat_aiagent.Registry.Base.{Playbook, PlaybookRule}
use chat_aiagent.Nodes.Think.Gather.{add_hint, add_hints, rule_hints, extract_tool_hints}

-- No text stands twice.
abbrev pub Distinct : List Text → Type 0
Distinct [] = Unit
Distinct (t ∷ ts) = (is_in t ts ≡ false) × Distinct ts

is_in-append : (t : Text) (us vs : List Text) → is_in t (us ++ vs) ≡ (is_in t us || is_in t vs)
unfolding is_in
is_in-append t [] vs = refl
is_in-append t (u ∷ us) vs = ground (arith, is_in-append t us vs)

text_eq_comm : (s t : Text) → text_eq s t ≡ text_eq t s
text_eq_comm [] [] = refl
text_eq_comm [] (d ∷ t) = refl
text_eq_comm (c ∷ s) [] = refl
text_eq_comm (c ∷ s) (d ∷ t) = ground (arith, text_eq_comm s t)

Distinct-append :
    (us : List Text) (t : Text) → Distinct us → is_in t us ≡ false → Distinct (us ++ t ∷ [])
unfolding is_in
Distinct-append [] t d h = (refl, tt)
Distinct-append (u ∷ us) t d h = (
  ground (arith, is_in-append u us (t ∷ []), text_eq_comm u t),
  Distinct-append us t d.1 (ground arith),
)

add_hint-Distinct : (t : Text) (us : List Text) → Distinct us → Distinct (add_hint t us)
unfolding add_hint
add_hint-Distinct t us d = elim (Bool-cases (is_in t us)) [
  | inl e ↦ rw e d
  | inr e ↦ rw e (Distinct-append us t d e)
]

add_hints-Distinct : (ts us : List Text) → Distinct us → Distinct (add_hints ts us)
unfolding add_hints
add_hints-Distinct [] us d = d
add_hints-Distinct (t ∷ ts) us d = add_hints-Distinct ts (add_hint t us) (add_hint-Distinct t us d)

rule_hints-Distinct :
    (rs : List PlaybookRule) (us : List Text) → Distinct us → Distinct (rule_hints rs us)
unfolding rule_hints
rule_hints-Distinct [] us d = d
rule_hints-Distinct (r ∷ rs) us d =
    rule_hints-Distinct rs (add_hints r.tools us) (add_hints-Distinct r.tools us d)

is_in_of_eq : (s t : Text) (us : List Text) → text_eq s t ≡ true → is_in s us ≡ is_in t us
is_in_of_eq s t us h = ap (λ v. is_in v us) (text_eq_sound s t h)

is_in-add_hint :
    (s t : Text) (us : List Text) → is_in s (add_hint t us) ≡ (is_in s us || text_eq s t)
unfolding add_hint is_in
is_in-add_hint s t us = ground (arith, is_in-append s us (t ∷ []), is_in_of_eq s t us)

is_in-add_hints :
    (s : Text) (ts us : List Text) → is_in s (add_hints ts us) ≡ (is_in s us || is_in s ts)
unfolding add_hints is_in
is_in-add_hints s [] us = ground arith
is_in-add_hints s (t ∷ ts) us =
    ground (arith, is_in-add_hints s ts (add_hint t us), is_in-add_hint s t us)

is_in-rule_hints :
    (s : Text) (rs : List PlaybookRule) (us : List Text)
    → is_in s (rule_hints rs us) ≡ (is_in s us || any (λ r. is_in s r.tools) rs)
unfolding rule_hints
is_in-rule_hints s [] us = ground arith
is_in-rule_hints s (r ∷ rs) us =
    ground (arith, is_in-rule_hints s rs (add_hints r.tools us), is_in-add_hints s r.tools us)

-- The tool hints of a playbook name no tool twice, and name exactly the tools of its rules.
pub extract_tool_hints_lem :
    (p : Playbook)
    → Distinct (extract_tool_hints p)
      × ((t : Text) → is_in t (extract_tool_hints p) ≡ any (λ r. is_in t r.tools) p.rules)
unfolding extract_tool_hints is_in
extract_tool_hints_lem p = (rule_hints-Distinct p.rules [] tt, λ t. is_in-rule_hints t p.rules [])
