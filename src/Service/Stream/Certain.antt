-- ===== src/Service/Stream/Certain.antt =====
-- The end of a stream where Redis works.
use chat_aiagent.Prelude.{
  ℕ, ◌≡◌, refl, inl, inr, true, Option, none, List, [], ◌∷◌, Text, Option-cases, subst, sym,
}
use chat_aiagent.Service.Stream.{
  Event, Payload, usage, error, Works, Redis, Tally, Run, emit, payload_of, tallied, emit_events,
  fresh, failed, scan_of, terminal_of, ended, after_usage, after_events, publish_stream,
}
use chat_aiagent.Service.Stream.Terminal.{
  is_terminal, Open, same, Closed, closed, terminal_of-is_terminal, emit-Open, skipped, passed,
  emit_events-Open,
}

module _ (w : Works) (up : (n : ℕ) → w.publishes n ≡ true) where
  pub emit_up : (p : Payload) (r : Redis) → (emit w p r).1 ≡ true
  unfolding emit
  emit_up p r = rw (up r.calls) refl

  pub emit_events_up : (es : List Event) (r : Redis) (c : Tally) → (emit_events w es r c).2 ≡ true
  unfolding emit_events
  emit_events_up [] r c = refl
  emit_events_up (e ∷ es) r c = elim (Option-cases (payload_of e)) [
    | inl n ↦ rw (skipped w [] e es r c n) (emit_events_up es r (tallied e c))
    | inr (p, n) ↦
        rw (passed w [] e es r c p n (emit_up p r)) (emit_events_up es (emit w p r).0 (tallied e c))
  ]

  emit-Closed :
      (b : List Payload) (p : Payload) (r : Redis)
      → Open b r.published
      → is_terminal p ≡ true
      → Closed b (emit w p r).0.published
  unfolding emit
  emit-Closed b p r o h = rw (up r.calls) (closed r.published p o h)

  failed-Closed :
      (b : List Payload) (reason : Text) (scan : Option Text) (r : Redis)
      → Open b r.published
      → Closed b (failed w reason scan r).redis.published
  unfolding failed
  failed-Closed b reason scan r o = emit-Closed b (error reason) r o refl

  ended-Closed :
      (b : List Payload) (run : Run) (scan : Option Text) (r : Redis)
      → Open b r.published
      → Closed b (ended w run scan (emit w (terminal_of run) r)).redis.published
  unfolding emit
  ended-Closed b run scan r o =
      rw (up r.calls) (closed r.published (terminal_of run) o (terminal_of-is_terminal run))

  after_usage-Closed :
      (b : List Payload) (run : Run) (c : Tally) (r : Redis)
      → Open b r.published
      → Closed b (after_usage w run c (r, true)).redis.published
  after_usage-Closed b run c r o = elim (Option-cases run.state_error) [
    | inl e ↦ rw e (ended-Closed b run (scan_of c) r o)
    | inr (t, e) ↦ rw e (failed-Closed b t (scan_of c) r o)
  ]

  after_events-Closed :
      (b : List Payload) (run : Run) (r : Redis) (c : Tally)
      → Open b r.published
      → Closed b (after_events w run (r, c, true)).redis.published
  after_events-Closed b run r c o = elim (Option-cases run.stream_error) [
    | inr (t, e) ↦ rw e (failed-Closed b t none r o)
    | inl e ↦
        let u = usage c.input_tokens c.output_tokens in
        rw e (
          subst (λ x. Closed b (after_usage w run c ((emit w u r).0, x)).redis.published)
            (sym (emit_up u r))
            (after_usage-Closed b run c (emit w u r).0 (emit-Open w b u r o refl)))
  ]

-- Where Redis takes every publication, a run publishes exactly one terminal payload, and it is the
-- last one: also where the graph's stream or the reading of its state raises, and whatever the graph
-- yields before.
pub publish_stream-Closed :
    (w : Works) (run : Run) (r : Redis)
    → ((n : ℕ) → w.publishes n ≡ true)
    → Closed r.published (publish_stream w run r).redis.published
unfolding publish_stream
publish_stream-Closed w run r up =
    let sent = emit_events w run.stream r fresh in
    subst (λ x. Closed r.published (after_events w run (sent.0, sent.1, x)).redis.published)
      (sym (emit_events_up w up run.stream r fresh))
      (after_events-Closed w up r.published run sent.0 sent.1
        (emit_events-Open w r.published run.stream r fresh same))
