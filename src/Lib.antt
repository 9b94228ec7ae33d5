-- ===== src/Lib.antt =====
-- ChatAIAgent: an agent for the operation of services. A conversation runs through a graph of nodes:
-- the intent of the request is classified, a plan is looked up, the model proposes one step at a
-- time, a human reviews each step (unless the run approves by itself) before a tool is called, and a
-- fix is proposed, reviewed and reported. Beside the graph stand the dispatch of steps to workers,
-- the worker that executes them, the dispatcher of tools with its secrets and its cache, the history
-- of plans, the suggestions that are drawn from it, and the registry of domains, tools and playbooks.
-- The service around the graph publishes what a run does, a second agent plans a remediation, and a
-- third one writes runbooks.
--
-- Which file models which part (paths from the root of the repository):
--   Graph/State      agent/graph/state.py, agent/schemas/intent.py: the state as a record, a key
--                    that may be missing as an Option
--   Graph/Routes     agent/graph/routes.py: a route returns the label of an edge
--   Graph/Builder    agent/graph/builder.py: nodes and edge maps (`next`); Runs has the step
--                    relation: `Runs` what a node does, `Reaches` what a thread comes to
--   Nodes/…          agent/nodes: Intents (extract_intent), Clarify, Cache (check_plan_cache), Think,
--                    Loop (act, observe), Review (hitl_step_review, analysis_summary), Fix
--                    (propose_fix), Report, Chain (chain_remediate); Thoughts has the validators of
--                    worker_agent/schemas/react.py
--   History          worker_agent/persistence/plan_history_repo.py
--   Dispatch/Base    worker_agent/dispatch/base.py: the interface of the adapters
--   Dispatch/Postgres  worker_agent/dispatch/postgres.py over the tables of
--                    worker_agent/persistence/models.py
--   Dispatch/Queues  worker_agent/dispatch/sqs.py, worker_agent/dispatch/pubsub.py: the receipts that
--                    are kept, and the calls of the service
--   Registry/Base    worker_agent/registry/base.py: the records that the registry serves
--   Registry/Schemas  the mappings of JSON Schema types of worker_agent/registry/scalable.py and
--                    worker_agent/registry/mcp_live_client.py
--   Registry/Live    worker_agent/registry/mcp_live_client.py: the two caches and the contracts
--   Tools            worker_agent/tools: Credentials (credentials.py), Dispatcher (the routing and the
--                    cache of dispatcher.py), Executors, Mcp and Aws (its executors)
--   Worker           worker_agent/worker/main.py: a turn of the loop, an execution, a signal
--   Dispatch/Locks   worker_agent/persistence/session_lock.py, worker_agent/dispatch/factory.py
--   Registry/Client  worker_agent/registry/scalable.py: the cache, the token and the requests; Queries
--                    and Searches have the queries over them
--   Service/Stream   worker_agent/main.py, publish_stream: the payloads of a run and how it ends
--   Service/Endpoints  worker_agent/main.py: the start and the resumption of a run
--   Service/Turns    worker_agent/main.py, turn and stream: the agent as the runtime drives it
--   Service/Demo     worker_agent/main.py, graph_chain_stream: a run, the exchange of the token and the
--                    call of the remediation agent
--   Service/Plans    worker_agent/main.py, get_history: the history as a page lists it
--   Service/Start    worker_agent/main.py, on_start and on_stop
--   Runtime          worker_agent/runtime: the interface of an agent (base.py) and the endpoints over
--                    it (serve.py)
--   Dispatch/Repo    worker_agent/persistence/repo.py
--   Reporter         reporter_agent/main.py
--   Service/Events   worker_agent/main.py: the pages of the events, the headers, the documents
--   Evolution        worker_agent/evolution: Patterns (patterns.py), Job (job.py)
--   Remediation      remediation_agent/main.py: the plan in the text of the model
--   Prelude          lists, texts as lists of code points, dictionaries, JSON documents
--
-- A node is a function from the state to the state with its updates merged; none stands for an
-- exception that it lets through. What a node asks of the outside (the model, the human, the tools,
-- the registry, the database) is an argument, so a theorem holds for every answer. Floats between 0
-- and 1 are counted in millionths, times in seconds. All functions are structural: there is no fuel.
-- The order in which the database returns rows is a parameter with the behaviour that ORDER BY
-- promises (`IsOrderDesc`), which an insertion sort has.
--
-- Not modelled: the plugins of agentcore, of which the step relation leaves the results open; what
-- the rows of the registry are read as, record by record; FastAPI's wiring, the wrappers of LangGraph
-- in worker_agent/runtime/types.py, the logging and the tracing, the models that
-- worker_agent/schemas/dynamic.py makes at run time, the fixed data of the mock API, the frontend
-- and the tests.
pub mod Dispatch
pub mod Evolution
pub mod Graph
pub mod History
pub mod Nodes
pub mod Prelude
pub mod Registry
pub mod Remediation
pub mod Reporter
pub mod Runtime
pub mod Service
pub mod Tools
pub mod Worker
