-- ===== src/Nodes/Intents/Checked.antt =====
-- The intent that leaves `extract_intent`.
use chat_aiagent.Prelude.{
  ℕ, ap, subst, sym, ◌≡◌, ◌⊎◌, inl, inr, refl, String, true, false, some, List, [], ◌∷◌, Text, Dict,
  lookup, insert, lookup-insert, is_some, arith, eq_iff, eq_refl, Bool-cases, Option-cases,
}
use chat_aiagent.Graph.State.{AgentState, Intent}
use chat_aiagent.Registry.Base.{IntentSummary, DomainRecord}
use chat_aiagent.Nodes.Intents.{
  Answers, member, check_action, version_of, concluded, names_of, valid_intents, pin, conclude,
}
use chat_aiagent.Nodes.Intents.Nearest.{cosine_nearest_lem}

-- The action is one of the names, or the intent is marked ambiguous, or there are no names.
abbrev pub IsChecked : List String → Intent → Type 0
IsChecked names i = (names ≡ []) ⊎ ((member i.action names ≡ true) ⊎ (i.ambiguous ≡ true))

check_action-IsChecked :
    (ratio : Text → Text → ℕ) (names : List String) (i : Intent)
    → IsChecked names (check_action ratio names i)
unfolding check_action
check_action-IsChecked ratio [] i = inl refl
check_action-IsChecked ratio (c ∷ cs) i = ground (arith, cosine_nearest_lem ratio i.action c cs)

check_action-domain :
    (ratio : Text → Text → ℕ) (names : List String) (i : Intent)
    → (check_action ratio names i).domain ≡ i.domain
unfolding check_action
check_action-domain ratio [] i = refl
check_action-domain ratio (c ∷ cs) i = ground arith

-- The pins after `pin`: those that were there stay, and the domain has one.
abbrev pub IsPinned : String → Dict String → Dict String → Type 0
IsPinned d pins pins' =
    ((j v : String) → lookup j pins ≡ some v → lookup j pins' ≡ some v)
    × (is_some (lookup d pins') ≡ true)

moved_missing :
    (d j : String) (pins : Dict String)
    → is_some (lookup d pins) ≡ false
    → d ≡ j
    → is_some (lookup j pins) ≡ false
moved_missing d j pins h e = subst (λ x. is_some (lookup x pins) ≡ false) e h

insert-IsPinned :
    (d w : String) (pins : Dict String)
    → is_some (lookup d pins) ≡ false
    → IsPinned d pins (insert d w pins)
insert-IsPinned d w pins h = (
  λ j v k. rw (lookup-insert d j w pins) (ground (arith, eq_iff d j, moved_missing d j pins h)),
  rw (lookup-insert d d w pins) (rw (eq_refl d) refl),
)

known_pins :
    (d : String) (pins pins' : Dict String)
    → is_some (lookup d pins) ≡ true
    → pins ≡ pins'
    → IsPinned d pins pins'
known_pins d pins pins' e p = subst (λ x. IsPinned d pins x) p (λ j v k. k, e)

pin-IsPinned :
    (reg : Answers) (d : String) (pins pins' : Dict String)
    → pin reg d pins ≡ some pins'
    → IsPinned d pins pins'
unfolding pin
pin-IsPinned reg d pins pins' h = elim (Bool-cases (is_some (lookup d pins))) [
  | inl e ↦ known_pins d pins pins' e (ground arith)
  | inr e ↦ elim (Option-cases (reg.get_playbook d)) [
    | inl e2 ↦ absurd (ground arith)
    | inr (p, e2) ↦
        subst (λ x. IsPinned d pins x) {x = insert d (version_of p) pins} {y = pins'} (ground arith)
          (insert-IsPinned d (version_of p) pins e)
  ]
]

-- Whenever the intent of the model is taken over: the state that comes out has an intent of the same
-- domain, whose action is one of the names that the registry has for it, or which is marked
-- ambiguous, unless the registry has no names at all; the pins of playbook versions that were there
-- stay as they were, and the domain is pinned.
pub conclude_lem :
    (reg : Answers) (ratio : Text → Text → ℕ) (rag : List DomainRecord) (i : Intent)
    (s s' : AgentState) (is : List IntentSummary)
    → valid_intents reg rag i.domain ≡ some is
    → conclude reg ratio rag i s ≡ some s'
    → (j : Intent) × (s'.intent ≡ some j)
      × (j.domain ≡ i.domain)
      × IsChecked (names_of is) j
      × IsPinned i.domain s.playbook_version_pin s'.playbook_version_pin
unfolding conclude
conclude_lem reg ratio rag i s s' is v h =
    let j = check_action ratio (names_of is) i in
    elim (Option-cases (pin reg j.domain s.playbook_version_pin)) [
      | inl e ↦ absurd (ground arith)
      | inr (pins, e) ↦
          let p = pin-IsPinned reg j.domain s.playbook_version_pin pins e in
          let out : s' ≡ concluded j pins s = ground arith in
          (
            j,
            ap (λ (t : AgentState). t.intent) out,
            check_action-domain ratio (names_of is) i,
            check_action-IsChecked ratio (names_of is) i,
            subst (λ ps. IsPinned i.domain s.playbook_version_pin ps)
                (sym (ap (λ (t : AgentState). t.playbook_version_pin) out))
                (subst (λ d. IsPinned d s.playbook_version_pin pins)
                  (check_action-domain ratio (names_of is) i) p),
          )
    ]
