-- ===== src/Nodes/Metrics.antt =====
-- What the nodes call on the metrics collector, in order. An exception of `finish` is swallowed.
use chat_aiagent.Prelude.{Bool, true, false, List, []}

pub data Metric : Type 0 where
  hitl_approve hitl_reject hitl_modify finish_escalated finish_resolved : Metric

-- `if collector: …`
abbrev pub when_collected : Bool → List Metric → List Metric
when_collected true ms = ms
when_collected false ms = []
