-- ===== src/Service/Stream/Terminal.antt =====
-- How a stream ends: the terminal payloads of a run, on the channel and in the list of the thread.
use chat_aiagent.Prelude.{
  ◌≡◌, refl, inl, inr, ◌⊎◌, Bool, true, false, not, Option, none, some, List, [], ◌∷◌, ◌++◌, Text,
  arith, Option-cases, Bool-cases,
}
use chat_aiagent.Service.Stream.{
  Event, model_end, chain_start, chain_end, other, Payload, usage, interrupt, done, error, Works,
  Redis, Tally, Run, emit, payload_of, tallied, emit_events, fresh, failed, scan_of, terminal_of,
  emitted, ended, after_usage, after_events, publish_stream,
}

-- A payload after which a reader of the stream stops.
abbrev pub is_terminal : Payload → Bool
is_terminal (interrupt n i) = true
is_terminal done = true
is_terminal (error t) = true
is_terminal _ = false

abbrev running : Option Payload → Bool
running none = true
running (some p) = not (is_terminal p)

payload_of-running : (e : Event) → running (payload_of e) ≡ true
unfolding payload_of
payload_of-running (model_end i o t) = refl
payload_of-running (chain_start node name d) = ground arith
payload_of-running (chain_end node name d) = ground arith
payload_of-running other = refl

-- What a list has become by payloads of which none is terminal, and by such ones and a last one that
-- is terminal.
pub data Open (before : List Payload) : List Payload → Type 0 where
  same : Open before before
  more :
      (later : List Payload) (p : Payload)
      → Open before later
      → is_terminal p ≡ false
      → Open before (later ++ p ∷ [])

pub data Closed (before : List Payload) : List Payload → Type 0 where
  closed :
      (later : List Payload) (p : Payload)
      → Open before later
      → is_terminal p ≡ true
      → Closed before (later ++ p ∷ [])

-- At most one terminal payload, and nothing behind it.
abbrev pub Ends : List Payload → List Payload → Type 0
Ends before later = Open before later ⊎ Closed before later

pub terminal_of-is_terminal : (run : Run) → is_terminal (terminal_of run) ≡ true
terminal_of-is_terminal run = ground arith

module _ (w : Works) (b : List Payload) where
  emitted-Open :
      (p : Payload) (r : Redis) (works : Bool)
      → Open b r.published
      → is_terminal p ≡ false
      → Open b (emitted w p r works).0.published
  emitted-Open p r true o h = more r.published p o h
  emitted-Open p r false o h = o

  pub emit-Open :
      (p : Payload) (r : Redis)
      → Open b r.published
      → is_terminal p ≡ false
      → Open b (emit w p r).0.published
  unfolding emit
  emit-Open p r o h = emitted-Open p r (w.publishes r.calls) o h

  found : (x : Option Payload) (p : Payload) → x ≡ some p → running x ≡ true → is_terminal p ≡ false
  found x p e h = ground arith

  pub skipped :
      (e : Event) (es : List Event) (r : Redis) (c : Tally)
      → payload_of e ≡ none
      → emit_events w (e ∷ es) r c ≡ emit_events w es r (tallied e c)
  unfolding emit_events
  skipped e es r c n = ground (arith, n)

  pub passed :
      (e : Event) (es : List Event) (r : Redis) (c : Tally) (p : Payload)
      → payload_of e ≡ some p
      → (emit w p r).1 ≡ true
      → emit_events w (e ∷ es) r c ≡ emit_events w es (emit w p r).0 (tallied e c)
  unfolding emit_events
  passed e es r c p n y = ground (arith, n, y)

  broken :
      (e : Event) (es : List Event) (r : Redis) (c : Tally) (p : Payload)
      → payload_of e ≡ some p
      → (emit w p r).1 ≡ false
      → emit_events w (e ∷ es) r c ≡ ((emit w p r).0, c, false)
  unfolding emit_events
  broken e es r c p n y = ground (arith, n, y)

  -- The events of the graph alone end no stream.
  pub emit_events-Open :
      (es : List Event) (r : Redis) (c : Tally)
      → Open b r.published
      → Open b (emit_events w es r c).0.published
  unfolding emit_events
  emit_events-Open [] r c o = o
  emit_events-Open (e ∷ es) r c o = elim (Option-cases (payload_of e)) [
    | inl n ↦ rw (skipped e es r c n) (emit_events-Open es r (tallied e c) o)
    | inr (p, n) ↦
        let step = emit-Open p r o (found (payload_of e) p n (payload_of-running e)) in
        elim (Bool-cases (emit w p r).1) [
          | inl y ↦
              rw (passed e es r c p n y) (emit_events-Open es (emit w p r).0 (tallied e c) step)
          | inr y ↦ rw (broken e es r c p n y) step
        ]
  ]

  emitted-Ends :
      (p : Payload) (r : Redis) (works : Bool)
      → Open b r.published
      → is_terminal p ≡ true
      → Ends b (emitted w p r works).0.published
  emitted-Ends p r true o h = inr (closed r.published p o h)
  emitted-Ends p r false o h = inl o

  failed-Ends :
      (reason : Text) (scan : Option Text) (r : Redis)
      → Open b r.published
      → Ends b (failed w reason scan r).redis.published
  unfolding failed emit
  failed-Ends reason scan r o = emitted-Ends (error reason) r (w.publishes r.calls) o refl

  ended-Ends :
      (run : Run) (scan : Option Text) (r : Redis) (works : Bool)
      → Open b r.published
      → Ends b (ended w run scan (emitted w (terminal_of run) r works)).redis.published
  ended-Ends run scan r true o =
      inr (closed r.published (terminal_of run) o (terminal_of-is_terminal run))
  ended-Ends run scan r false o = failed-Ends w.reason scan _ o

  after_usage-Ends :
      (run : Run) (c : Tally) (r : Redis) (works : Bool)
      → Open b r.published
      → Ends b (after_usage w run c (r, works)).redis.published
  unfolding emit
  after_usage-Ends run c r false o = failed-Ends w.reason none r o
  after_usage-Ends run c r true o = elim (Option-cases run.state_error) [
    | inl e ↦ rw e (ended-Ends run (scan_of c) r (w.publishes r.calls) o)
    | inr (t, e) ↦ rw e (failed-Ends t (scan_of c) r o)
  ]

  after_events-Ends :
      (run : Run) (r : Redis) (c : Tally) (works : Bool)
      → Open b r.published
      → Ends b (after_events w run (r, c, works)).redis.published
  after_events-Ends run r c false o = failed-Ends w.reason none r o
  after_events-Ends run r c true o = elim (Option-cases run.stream_error) [
    | inr (t, e) ↦ rw e (failed-Ends t none r o)
    | inl e ↦ rw e (
        after_usage-Ends run c (emit w (usage c.input_tokens c.output_tokens) r).0
          (emit w (usage c.input_tokens c.output_tokens) r).1
          (emit-Open (usage c.input_tokens c.output_tokens) r o refl))
  ]

-- However Redis and the graph fail, and whatever the graph yields, a run publishes at most one
-- terminal payload (interrupt, done or error), and nothing behind it.
pub publish_stream-Ends :
    (w : Works) (run : Run) (r : Redis) → Ends r.published (publish_stream w run r).redis.published
unfolding publish_stream
publish_stream-Ends w run r =
    after_events-Ends w r.published run (emit_events w run.stream r fresh).0
      (emit_events w run.stream r fresh).1 (emit_events w run.stream r fresh).2
      (emit_events-Open w r.published run.stream r fresh same)
