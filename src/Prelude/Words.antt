-- ===== src/Prelude/Words.antt =====
-- Membership in a list of words.
use mathlib.Core.Path.{◌≡◌, refl, sym, subst}
use mathlib.Core.Logic.{inl, inr}
use mathlib.Core.Bool.{true}
use mathlib.Core.List.{List, [], ◌∷◌}
use native.Mathlib.Omega.{arith}
use chat_aiagent.Prelude.Tests.{Bool-cases}
use chat_aiagent.Prelude.Lists.{All}
use chat_aiagent.Prelude.Chars.{Text, text_eq, is_in}

pub text_eq_sound : (s t : Text) → text_eq s t ≡ true → s ≡ t
text_eq_sound [] [] h = refl
text_eq_sound [] (d ∷ t) h = cc
text_eq_sound (c ∷ s) [] h = cc
text_eq_sound (c ∷ s) (d ∷ t) h = ground (arith, text_eq_sound s t)

pub text_eq_refl : (s : Text) → text_eq s s ≡ true
text_eq_refl [] = refl
text_eq_refl (c ∷ s) = ground (arith, text_eq_refl s)

-- What holds of each word holds of a text that is one of them.
pub is_in-All : (P : Text → Type 0) (ws : List Text) (t : Text) → All P ws → is_in t ws ≡ true → P t
unfolding is_in
is_in-All P [] t all h = cc
is_in-All P (w ∷ ws) t all h = elim (Bool-cases (text_eq t w)) [
  | inl e ↦ subst P (sym (text_eq_sound t w e)) all.0
  | inr e ↦ is_in-All P ws t all.1 (ground arith)
]
