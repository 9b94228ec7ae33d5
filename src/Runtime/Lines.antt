-- ===== src/Runtime/Lines.antt =====
-- How the stream of an agent ends on the wire.
use chat_aiagent.Prelude.{
  ◌≡◌, refl, inl, inr, Bool, true, false, Option, none, some, List, [], ◌∷◌, Text, is_empty,
  Bool-cases, if◌then◌else◌,
}
use chat_aiagent.Runtime.{
  TurnRequest, BaseAgent, Line, data_line, done_line, error_line, event_lines, stream,
}

module _ {E : Type 0} where
  abbrev is_last : Line E → Bool
  is_last (data_line e) = false
  is_last done_line = true
  is_last (error_line t) = true

  -- There is one line that ends the stream, and it is the last one.
  abbrev pub is_closed : List (Line E) → Bool
  is_closed [] = false
  is_closed (l ∷ ls) = if is_last l then is_empty ls else is_closed ls

  event_lines-is_closed :
      (dumps : E → Bool) (reason : Text) (ends : Option Text) (es : List E)
      → is_closed (event_lines dumps reason ends es) ≡ true
  event_lines-is_closed dumps reason none [] = refl
  event_lines-is_closed dumps reason (some t) [] = refl
  event_lines-is_closed dumps reason ends (e ∷ es) = elim (Bool-cases (dumps e)) [
    | inl h ↦ rw h (event_lines-is_closed dumps reason ends es)
    | inr h ↦ rw h refl
  ]

module _ {S E : Type 0} (agent : BaseAgent S E) where
  -- A stream that is served has one line that says how it ended, done or an error, and it is the last
  -- one, whatever the agent yields, however it ends, and whether its events have a text.
  pub stream-is_closed :
      (dumps : E → Bool) (reason : Text) (req : TurnRequest) (s : S)
      → is_closed (stream agent dumps reason req s).1 ≡ true
  unfolding stream
  stream-is_closed dumps reason req s =
      let out = (agent.stream req.message req.thread_id req.config s).1 in
      event_lines-is_closed dumps reason out.error out.events
