-- ===== src/Remediation/Fences.antt =====
-- A plan that the model puts in a fence.
use chat_aiagent.Prelude.{
  ◌≡◌, refl, false, none, some, [], ◌∷◌, ◌++◌, Text, codes, strip, has_char, arith,
}
use chat_aiagent.Tools.Texts.{cut, cut-append}
use chat_aiagent.Remediation.{fence, before_last, unfenced}

-- A text without the fence's character has no fence.
before_last_absent : (t : Text) → has_char 96 t ≡ false → before_last fence t ≡ none
unfolding before_last
before_last_absent [] h = refl
before_last_absent (c ∷ t) h = ground (arith, before_last_absent t)

abbrev pub fenced : Text → Text
fenced body = codes "```json" ++ (body ++ fence)

opened : (body : Text) → cut fence (fenced body) ≡ some ([], codes "json" ++ (body ++ fence))
unfolding cut
opened body = refl

has_char-json :
    (body : Text) → has_char 96 body ≡ false → has_char 96 (codes "json" ++ body) ≡ false
has_char-json body h = h

-- A body without a backquote that the model puts between "```json" and "```" is what is parsed,
-- without its surrounding white space.
pub unfenced-fenced : (body : Text) → has_char 96 body ≡ false → unfenced (fenced body) ≡ strip body
unfolding unfenced
unfenced-fenced body h = ground (
  arith,
  opened body,
  cut-append 96 (96 ∷ 96 ∷ []) (codes "json" ++ body) [] h,
  before_last_absent body h,
)
