-- ===== src/Reporter/Tests.antt =====
-- A request without a calling agent, of which the model fails.
use chat_aiagent.Prelude.{◌≡◌, refl, [], codes, lookup}
use chat_aiagent.Reporter.{raised, invoke}

failing :
    invoke
      (λ system prompt. raised (codes "529"))
      []
      (record { message = codes "vpn"; thread_id = codes "t1" })
    ≡ record {
      content = codes "[Reporter Agent] Runbook generation failed: 529";
      agent = codes "reporter-agent";
      called_by = codes "unknown";
      thread_id = codes "t1";
    }
unfolding invoke lookup
failing = refl
