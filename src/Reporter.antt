-- ===== src/Reporter.antt =====
-- reporter_agent/main.py: the runbook of an incident. The model is outside; a missing key of its service
-- is one of the exceptions of its call.
mod Tests
use chat_aiagent.Prelude.{List, [], ◌∷◌, ◌++◌, Text, Dict, lookup, codes, or_else, text_or}

pub record InvokeRequest : Type 0 where
  pub message : Text
  pub thread_id : Text

-- The texts of the blocks that the model answers, or the text of the exception.
pub data Answer : Type 0 where
  blocks : List Text → Answer
  raised : Text → Answer

pub record Response : Type 0 where
  pub content : Text
  pub agent : Text
  pub called_by : Text
  pub thread_id : Text

abbrev runbook_system : Text
runbook_system =
    codes
      "You are a senior SRE technical writer. Generate concise, actionable post-incident runbooks. Use markdown with clear sections: ## Root Cause, ## Immediate Actions, ## Prevention."

runbook_prompt : Text → Text
runbook_prompt message =
    codes "Generate a runbook for this incident:\n\n"
    ++ (message ++ codes "\n\nKeep it under 150 words. Be specific and actionable.")

abbrev content_of : Answer → Text
content_of (blocks []) = codes "Unable to generate runbook."
content_of (blocks (t ∷ ts)) = t
content_of (raised why) = codes "[Reporter Agent] Runbook generation failed: " ++ why

-- `model` is given the system prompt and the message.
unfoldable pub invoke : (Text → Text → Answer) → Dict Text → InvokeRequest → Response
unfolding runbook_prompt lookup
invoke model headers req = record {
  content = content_of (model runbook_system (runbook_prompt req.message));
  agent = codes "reporter-agent";
  called_by = text_or (or_else (lookup "x-calling-agent" headers) []) (codes "unknown");
  thread_id = req.thread_id;
}
