-- ===== src/Remediation/Tests.antt =====
-- Answers of the model in a fence, without one, and broken.
use chat_aiagent.Prelude.{
  ◌≡◌, refl, Option, none, some, [], ◌∷◌, Text, codes, strip, is_space, text_eq, if◌then◌else◌,
  true,
}
use chat_aiagent.Prelude.Json.{Json, str, arr, obj, nil, end, field, get}
use chat_aiagent.Tools.Texts.{cut}
use chat_aiagent.Remediation.{
  unfenced, before_last, answered, chunk, done, graph_invoke, graph_invoke_stream,
}
use chat_aiagent.Remediation.Fences.{fenced}

abbrev loads : Text → Option Json
loads t = if text_eq t (codes "{}") then some (obj end) else none

not_json :
    graph_invoke loads (codes "sre") (codes "t1") (some (codes " no plan "))
    ≡ answered
        (obj (field "summary" (str (codes "no plan")) (field "steps" (arr nil) end)))
        (codes "sre")
        (codes "t1")
unfolding graph_invoke unfenced strip is_space get
not_json = refl

in_chunks :
    graph_invoke_stream loads (codes "sre") (codes "t1") (codes "```json{" ∷ codes "}```" ∷ []) true
    ≡ chunk (codes "```json{")
      ∷ chunk (codes "}```")
      ∷ done (obj end) (codes "sre") (codes "t1")
      ∷ []
unfolding graph_invoke_stream unfenced strip is_space get cut before_last
in_chunks = refl

-- A body that has a fence of its own is cut off there.
cut_short : unfenced (fenced (codes "{\"run\": \"```ls```\"}")) ≡ codes "{\"run\": \""
unfolding unfenced strip is_space cut before_last
cut_short = refl
