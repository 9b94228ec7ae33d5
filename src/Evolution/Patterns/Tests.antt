-- ===== src/Evolution/Patterns/Tests.antt =====
-- Two plans of three steps, with a library that knows their graph.
use chat_aiagent.Prelude.{◌≡◌, refl, some, none, List, [], ◌∷◌, codes}
use chat_aiagent.Evolution.Patterns.{
  Step, Library, among, hard_ordering, soft_parallel, graph_of, tool_of,
  extract_consistent_orderings, get_parallel_rounds, extract_parallel_patterns,
}

abbrev steps : List Step
steps =
    record { id = codes "1"; tool_name = some (codes "ping"); dependencies = [] }
    ∷ record { id = codes "2"; tool_name = some (codes "logs"); dependencies = codes "0" ∷ [] }
    ∷ record {
      id = codes "3";
      tool_name = some (codes "fix");
      dependencies = codes "1" ∷ codes "2" ∷ [];
    }
    ∷ []

abbrev library : Library
library = record {
  transitive_closure = λ g. g.edges;
  topological_generations = λ g. (codes "1" ∷ codes "2" ∷ []) ∷ (codes "3" ∷ []) ∷ [];
}

-- A dependency that is no step of the plan is no edge.
edges_lem : (graph_of steps).edges ≡ (codes "1", codes "3") ∷ (codes "2", codes "3") ∷ []
unfolding graph_of
edges_lem = refl

orderings_lem : extract_consistent_orderings library 900000 (steps ∷ [] ∷ []) ≡ []
unfolding extract_consistent_orderings graph_of tool_of
orderings_lem = refl

all_orderings :
    extract_consistent_orderings library 900000 (steps ∷ steps ∷ [])
    ≡ hard_ordering (codes "ping") (codes "fix") (among 2 2)
      ∷ hard_ordering (codes "logs") (codes "fix") (among 2 2)
      ∷ []
unfolding extract_consistent_orderings graph_of tool_of
all_orderings = refl

parallels_lem :
    extract_parallel_patterns library 800000 (steps ∷ [])
    ≡ some (soft_parallel (codes "logs" ∷ codes "ping" ∷ []) (among 1 1) ∷ [])
unfolding extract_parallel_patterns get_parallel_rounds graph_of tool_of
parallels_lem = refl

-- A round with a step that has no tool beside one that has one cannot be sorted.
untooled :
    extract_parallel_patterns library 800000 (
      (record { id = codes "1"; tool_name = none; dependencies = [] }
        ∷ record { id = codes "2"; tool_name = some (codes "logs"); dependencies = [] }
        ∷ [])
      ∷ [])
    ≡ none
unfolding extract_parallel_patterns get_parallel_rounds graph_of tool_of
untooled = refl
