-- ===== src/Nodes/Think/Gather/Tests.antt =====
-- A playbook with two rules that share a tool.
use chat_aiagent.Prelude.{◌≡◌, List, [], ◌∷◌, Text, codes, is_in, any}
use chat_aiagent.Registry.Base.{Playbook, PlaybookRule, hard}
use chat_aiagent.Nodes.Think.Gather.{extract_tool_hints}
use chat_aiagent.Nodes.Think.Gather.Hints.{Distinct, extract_tool_hints_lem}

abbrev rule : Text → List Text → PlaybookRule
rule id tools = record {
  id = id;
  description = [];
  before = [];
  after = [];
  tools = tools;
  pattern = [];
  severity = hard;
}

abbrev two_rules : Playbook
two_rules = record {
  domain = "network";
  version = "3";
  rules =
      rule (codes "r1") (codes "ping" ∷ codes "trace" ∷ [])
      ∷ rule (codes "r2") (codes "trace" ∷ [])
      ∷ [];
  owner = "sre";
}

hints_of_two_rules :
    Distinct (extract_tool_hints two_rules)
    × ((t : Text)
        → is_in t (extract_tool_hints two_rules)
          ≡ any (λ (r : PlaybookRule). is_in t r.tools) two_rules.rules)
hints_of_two_rules = extract_tool_hints_lem two_rules
