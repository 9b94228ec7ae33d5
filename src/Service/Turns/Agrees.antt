-- ===== src/Service/Turns/Agrees.antt =====
-- The two ways in which a run of the graph is streamed: published on a channel, and on the wire.
use chat_aiagent.Prelude.{
  ℕ, ◌≡◌, refl, sym, inl, inr, ◌∙◌, ap, Bool, true, Option, none, some, List, [], ◌∷◌, ◌++◌, Text,
  String, append_assoc, append-nil, map, Option-cases, List-cases, arith,
}
use chat_aiagent.Prelude.Json.{Json}
use chat_aiagent.Runtime.{
  TurnRequest, Line, data_line, done_line, error_line, last_line, event_lines, Streamed, stream,
}
use chat_aiagent.Service.Stream.{
  Event, model_end, chain_start, chain_end, other, of_node, Payload, node_start, node_end, usage,
  interrupt, done, error, Works, Redis, Tally, Run, emit, payload_of, tallied, emit_events, fresh,
  failed, scan_of, terminal_of, ended, after_usage, after_events, publish_stream,
}
use chat_aiagent.Service.Stream.Terminal.{skipped, passed}
use chat_aiagent.Service.Stream.Certain.{emit_up, emit_events_up}
use chat_aiagent.Service.Endpoints.{Agent}
use chat_aiagent.Service.Turns.{Graph, make_config, passed_on, sre_agent}

-- What a payload of the channel is on the wire: the usage is not shown, and an interrupt is an end.
abbrev line_of : Payload → List (Line Payload)
line_of (node_start n d) = data_line (node_start n d) ∷ []
line_of (node_end n d) = data_line (node_end n d) ∷ []
line_of (usage i o) = []
line_of (interrupt ns vs) = done_line ∷ []
line_of done = done_line ∷ []
line_of (error t) = error_line t ∷ []

abbrev pub lines : List Payload → List (Line Payload)
lines [] = []
lines (p ∷ ps) = line_of p ++ lines ps

lines-append : (ps : List Payload) (qs : List Payload) → lines (ps ++ qs) ≡ lines ps ++ lines qs
lines-append [] qs = refl
lines-append (p ∷ ps) qs =
    rw (lines-append ps qs) (sym (append_assoc (line_of p) (lines ps) (lines qs)))

-- A run that streams in this way, and of which the state can then be read.
abbrev pub run_of : Streamed Event → List String → List Json → Run
run_of s next interrupts = record {
  stream = s.events;
  stream_error = s.error;
  state_error = none;
  next = next;
  interrupts = interrupts;
}

lines_snoc : (ps : List Payload) (p : Payload) → lines (ps ++ p ∷ []) ≡ lines ps ++ line_of p
lines_snoc ps p = lines-append ps (p ∷ []) ∙ ap (λ ls. lines ps ++ ls) (append-nil (line_of p))

of_node_line :
    (node name : String) (p q : Payload)
    → line_of p ≡ data_line p ∷ []
    → of_node node name p ≡ some q
    → line_of q ≡ data_line q ∷ []
of_node_line node name p q l h = let same : q ≡ p = ground arith in rw same l

payload_of-line : (e : Event) (p : Payload) → payload_of e ≡ some p → line_of p ≡ data_line p ∷ []
unfolding payload_of
payload_of-line (model_end i o t) p h = absurd (ground arith)
payload_of-line (chain_start node name d) p h = of_node_line node name (node_start node d) p refl h
payload_of-line (chain_end node name d) p h = of_node_line node name (node_end node d) p refl h
payload_of-line other p h = absurd (ground arith)

passed_none :
    (e : Event) (es : List Event) → payload_of e ≡ none → passed_on (e ∷ es) ≡ passed_on es
passed_none e es h = ground (arith, h)

passed_some :
    (e : Event) (es : List Event) (p : Payload)
    → payload_of e ≡ some p
    → passed_on (e ∷ es) ≡ p ∷ passed_on es
passed_some e es p h = ground (arith, h)

module _ (w : Works) (up : (n : ℕ) → w.publishes n ≡ true) where
  emit-lines :
      (p : Payload) (r : Redis) → lines (emit w p r).0.published ≡ lines r.published ++ line_of p
  unfolding emit
  emit-lines p r = rw (up r.calls) (lines_snoc r.published p)

  emit_events-lines :
      (es : List Event) (r : Redis) (c : Tally)
      → lines (emit_events w es r c).0.published ≡ lines r.published ++ map data_line (passed_on es)
  unfolding emit_events
  emit_events-lines [] r c = sym (append-nil (lines r.published))
  emit_events-lines (e ∷ es) r c = elim (Option-cases (payload_of e)) [
    | inl n ↦
        rw (skipped w [] e es r c n)
          (rw (passed_none e es n) (emit_events-lines es r (tallied e c)))
    | inr (p, n) ↦ rw (passed w [] e es r c p n (emit_up w up p r)) (
        rw (passed_some e es p n) (
          rw (emit_events-lines es (emit w p r).0 (tallied e c)) (
            rw (emit-lines p r) (
              rw (payload_of-line e p n) (
                append_assoc (lines r.published) (data_line p ∷ [])
                  (map data_line (passed_on es)))))))
  ]

  failed-lines :
      (reason : Text) (scan : Option Text) (r : Redis)
      → lines (failed w reason scan r).redis.published ≡ lines r.published ++ error_line reason ∷ []
  unfolding failed
  failed-lines reason scan r = emit-lines (error reason) r

  terminal-line : (run : Run) → line_of (terminal_of run) ≡ done_line ∷ []
  terminal-line run = elim (List-cases run.next) [
    | inl e ↦ ground (arith, e)
    | inr (n, ns, e) ↦ ground (arith, e)
  ]

  ended-lines :
      (run : Run) (scan : Option Text) (r : Redis)
      → lines (ended w run scan (emit w (terminal_of run) r)).redis.published
        ≡ lines r.published ++ done_line ∷ []
  unfolding emit
  ended-lines run scan r = rw (up r.calls) (
      lines_snoc r.published (terminal_of run)
      ∙ ap (λ ls. lines r.published ++ ls) (terminal-line run))

  state_read :
      (run : Run) (c : Tally) (r : Redis)
      → run.state_error ≡ none
      → after_usage w run c (r, true) ≡ ended w run (scan_of c) (emit w (terminal_of run) r)
  state_read run c r e = ground (arith, e)

  usage_sent :
      (run : Run) (c : Tally) (r : Redis)
      → run.stream_error ≡ none
      → after_events w run (r, c, true)
        ≡ after_usage w run c ((emit w (usage c.input_tokens c.output_tokens) r).0, true)
  usage_sent run c r e =
      let u = usage c.input_tokens c.output_tokens in
      let sent : after_events w run (r, c, true) ≡ after_usage w run c (emit w u r) =
        ground (arith, e) in
      sent ∙ ap (λ b. after_usage w run c ((emit w u r).0, b)) (emit_up w up u r)

  broken_off :
      (run : Run) (c : Tally) (r : Redis) (t : Text)
      → run.stream_error ≡ some t
      → after_events w run (r, c, true) ≡ failed w t none r
  broken_off run c r t e = ground (arith, e)

  after_events-lines :
      (run : Run) (c : Tally) (r : Redis)
      → run.state_error ≡ none
      → lines (after_events w run (r, c, true)).redis.published
        ≡ lines r.published ++ last_line run.stream_error ∷ []
  after_events-lines run c r e = elim (Option-cases run.stream_error) [
    | inr (t, h) ↦ rw (broken_off run c r t h) (rw h (failed-lines t none r))
    | inl h ↦
        let u = usage c.input_tokens c.output_tokens in
        rw (usage_sent run c r h) (
          rw (state_read run c (emit w u r).0 e) (
            rw h (
              ended-lines run (scan_of c) (emit w u r).0
              ∙ ap (λ ls. ls ++ done_line ∷ []) (emit-lines u r ∙ append-nil (lines r.published)))))
  ]

event_lines-map :
    (reason : Text) (ends : Option Text) (es : List Payload)
    → event_lines (λ p. true) reason ends es ≡ map data_line es ++ last_line ends ∷ []
event_lines-map reason ends [] = refl
event_lines-map reason ends (e ∷ es) = rw (event_lines-map reason ends es) refl

-- What /v1/stream shows of a run of the graph is what the channel of the thread shows of it, without
-- the usage of tokens, and with an interrupt shown as the end: for every run, also one that breaks
-- off, where Redis takes every publication, the state of the run can be read, and every event has a
-- text.
pub publish_stream-stream :
    (w : Works) (graph : Graph) (on_start : Agent → Agent × Bool) (on_stop : Agent → Agent × Bool)
    (next : List String) (interrupts : List Json) (reason : Text) (req : TurnRequest) (a : Agent)
    (r : Redis)
    → ((n : ℕ) → w.publishes n ≡ true)
    → let run = graph.astream_events req.message (make_config req.thread_id req.config) in
      lines (publish_stream w (run_of run next interrupts) r).redis.published
      ≡ lines r.published ++ (stream (sre_agent graph on_start on_stop) (λ p. true) reason req a).1
unfolding publish_stream stream sre_agent
publish_stream-stream w graph on_start on_stop next interrupts reason req a r up =
    let out = graph.astream_events req.message (make_config req.thread_id req.config) in
    let run = run_of out next interrupts in
    let sent = emit_events w out.events r fresh in
    let shown = event_lines-map reason out.error (passed_on out.events) in
    let ends =
      ap (λ b. lines (after_events w run (sent.0, sent.1, b)).redis.published)
        (emit_events_up w up out.events r fresh) in
    ends
    ∙ after_events-lines w up run sent.1 sent.0 refl
    ∙ ap (λ ls. ls ++ last_line out.error ∷ []) (emit_events-lines w up out.events r fresh)
    ∙ append_assoc (lines r.published) (map data_line (passed_on out.events))
        (last_line out.error ∷ [])
    ∙ ap (λ ls. lines r.published ++ ls) (sym shown)
