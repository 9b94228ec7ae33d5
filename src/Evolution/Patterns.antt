-- ===== src/Evolution/Patterns.antt =====
-- worker_agent/evolution/patterns.py: orderings and parallel rounds of tools that are seen in many
-- plans. networkx's transitive closure and topological generations (those that are yielded before the
-- exception for a cycle) are arguments. A frequency is a count among a number of plans; it is compared
-- with a bound in millionths without rounding.
mod Tests
use chat_aiagent.Prelude.{
  ℕ, suc, ◌*◌, ◌+◌, String, Bool, true, false, not, ◌&&◌, ◌||◌, Option, none, some, List, [], ◌∷◌,
  ◌++◌, Text, text_eq, is_in, any, filter, length, leb, ltb, ◌==◌, ◌=s=◌, if◌then◌else◌,
  is_empty_text, is_empty,
}

-- A step of a plan in the history.
pub record Step : Type 0 where
  pub id : Text
  pub tool_name : Option Text
  pub dependencies : List Text

pub record Graph : Type 0 where
  pub nodes : List Text
  pub edges : List (Text × Text)

pub record Library : Type 0 where
  -- the edges of nx.transitive_closure
  pub transitive_closure : Graph → List (Text × Text)
  pub topological_generations : Graph → List (List Text)

abbrev pub ids : List Step → List Text
ids [] = []
ids (s ∷ ss) = s.id ∷ ids ss

abbrev edges_to : Text → List Text → List Text → List (Text × Text)
edges_to k [] ns = []
edges_to k (d ∷ ds) ns = let rest = edges_to k ds ns in if is_in d ns then (d, k) ∷ rest else rest

abbrev pub edges_of : List Step → List Text → List (Text × Text)
edges_of [] ns = []
edges_of (s ∷ ss) ns = edges_to s.id s.dependencies ns ++ edges_of ss ns

unfoldable pub graph_of : List Step → Graph
unfolding is_in
graph_of steps = record { nodes = ids steps; edges = edges_of steps (ids steps) }

-- The tool of a step, if it has one; of two steps with one id the later one counts.
unfoldable pub tool_of : Text → List Step → Option Text
unfolding is_in
tool_of k [] = none
tool_of k (s ∷ ss) =
    let later = tool_of k ss in
    if is_in k (ids ss) then later else if text_eq s.id k then s.tool_name else none

pub data Frequency : Type 0 where
  among : ℕ → ℕ → Frequency

-- The candidates of both functions; only an ordering has tools before and after.
pub data Candidate : Type 0 where
  hard_ordering : Text → Text → Frequency → Candidate
  soft_parallel : List Text → Frequency → Candidate

abbrev pub Counts : Type 0
Counts = List ((Text × Text) × ℕ)

abbrev pub counted : Text → Text → Counts → Counts
counted a b [] = ((a, b), 1) ∷ []
counted a b (((x, y), n) ∷ rest) =
    let later = counted a b rest in
    if text_eq x a && text_eq y b then ((x, y), suc n) ∷ rest else ((x, y), n) ∷ later

abbrev counted_tools : Option Text → Option Text → Counts → Counts
counted_tools (some a) (some b) counts =
    if is_empty_text a || (is_empty_text b || text_eq a b) then counts else counted a b counts
counted_tools _ _ counts = counts

abbrev count_edges : List Step → List (Text × Text) → Counts → Counts
count_edges steps [] counts = counts
count_edges steps ((a, b) ∷ es) counts =
    count_edges steps es (counted_tools (tool_of a steps) (tool_of b steps) counts)

abbrev pub count_orderings : Library → List (List Step) → Counts → Counts
count_orderings lib [] counts = counts
count_orderings lib (steps ∷ plans) counts = count_orderings lib plans (
    if is_empty steps
    then counts
    else count_edges steps (lib.transitive_closure (graph_of steps)) counts)

-- `count / n >= min_frequency`
abbrev pub is_frequent : ℕ → ℕ → ℕ → Bool
is_frequent min n c = leb (min * n) (c * 1000000)

abbrev orderings : ℕ → ℕ → Counts → List Candidate
orderings min n [] = []
orderings min n (((a, b), c) ∷ rest) =
    let later = orderings min n rest in
    if is_frequent min n c then hard_ordering a b (among c n) ∷ later else later

unfoldable pub extract_consistent_orderings : Library → ℕ → List (List Step) → List Candidate
unfolding graph_of tool_of
extract_consistent_orderings lib min plans =
    if is_empty plans then [] else orderings min (length plans) (count_orderings lib plans [])

abbrev comes_before : Text → Text → Bool
comes_before [] [] = false
comes_before [] (d ∷ t) = true
comes_before (c ∷ s) [] = false
comes_before (c ∷ s) (d ∷ t) = ltb c d || ((c == d) && comes_before s t)

-- A text placed in a list without repetition, in order.
abbrev placed : Text → List Text → List Text
placed t [] = t ∷ []
placed t (u ∷ us) =
    let rest = placed t us in
    if text_eq t u then u ∷ us else if comes_before t u then t ∷ (u ∷ us) else u ∷ rest

-- The tools of a generation as a set, sorted, and whether None is among them.
pub record Round : Type 0 where
  pub tools : List Text
  pub has_none : Bool

abbrev with_tool : Option Text → Round → Round
with_tool none r = record r { has_none = true }
with_tool (some t) r = record r { tools = placed t r.tools }

abbrev round_of : List Step → List Text → Round
round_of steps [] = record { tools = []; has_none = false }
round_of steps (n ∷ ns) = with_tool (tool_of n steps) (round_of steps ns)

abbrev rounds : List Step → List (List Text) → List Round
rounds steps [] = []
rounds steps (g ∷ gs) = round_of steps g ∷ rounds steps gs

unfoldable pub get_parallel_rounds : Library → List Step → List Round
unfolding graph_of tool_of
get_parallel_rounds lib [] = []
get_parallel_rounds lib (s ∷ ss) = rounds (s ∷ ss) (lib.topological_generations (graph_of (s ∷ ss)))

abbrev count_with : Text → List Text → Counts → Counts
count_with t [] counts = counts
count_with t (u ∷ us) counts = count_with t us (counted t u counts)

-- combinations(sorted(round_tools), 2)
abbrev count_pairs : List Text → Counts → Counts
count_pairs [] counts = counts
count_pairs (t ∷ ts) counts = count_pairs ts (count_with t ts counts)

-- A set of None and a text cannot be sorted.
abbrev is_mixed : Round → Bool
is_mixed r = r.has_none && not (is_empty r.tools)

abbrev count_rounds : List Round → Counts → Option Counts
count_rounds [] counts = some counts
count_rounds (r ∷ rs) counts =
    let rest = count_rounds rs (count_pairs r.tools counts) in if is_mixed r then none else rest

abbrev pub count_parallels : Library → List (List Step) → Counts → Option Counts
count_parallels lib [] counts = some counts
count_parallels lib (steps ∷ plans) counts =
    elim (count_rounds (get_parallel_rounds lib steps) counts) [
      | none ↦ none
      | some counts' ↦ count_parallels lib plans counts'
    ]

abbrev pub parallels : ℕ → ℕ → Counts → List Candidate
parallels min n [] = []
parallels min n (((a, b), c) ∷ rest) =
    let later = parallels min n rest in
    if is_frequent min n c then soft_parallel (a ∷ b ∷ []) (among c n) ∷ later else later

abbrev pub parallels_in : ℕ → ℕ → Option Counts → Option (List Candidate)
parallels_in min n none = none
parallels_in min n (some counts) = some (parallels min n counts)

-- none where sorting a round raises
unfoldable pub extract_parallel_patterns : Library → ℕ → List (List Step) → Option (List Candidate)
unfolding get_parallel_rounds
extract_parallel_patterns lib min plans =
    if is_empty plans
    then some []
    else parallels_in min (length plans) (count_parallels lib plans [])
