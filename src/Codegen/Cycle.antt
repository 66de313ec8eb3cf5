-- ===== src/Codegen/Cycle.antt =====
-- The search for a cycle among the components (cool-next/codegen/topology.go):
-- `findComponentCycle` and `stableNodeIndexes`. A component is named by its index, and a position in
-- the source text by a number. The stack stands oldest first; what a call pushes it pops before it
-- returns, unless it returns a cycle, so that the stack is an argument.
pub mod Chains
pub mod States
pub mod Visiting
pub mod Checked
pub mod Components
pub mod Modules
use cool_admin_go_next.Common.{
  ℕ, zero, suc, ◌==◌, Bool, true, false, List, [], ◌∷◌, ◌++◌, map, length, get_or, Option, none,
  some, if◌then◌else◌,
}
use cool_admin_go_next.Codegen.Topology.{Component, Dependency, component_less, sort, no_component}

-- What the search needs of a dependency on a component.
pub record Edge : Type 0 where
  pub provider : ℕ
  pub position : ℕ

unfoldable pub edges : ℕ → List Dependency → List Edge
edges index [] = []
edges index (d ∷ ds) = elim d.provider [
  | none ↦ edges index ds
  | some p ↦
      let rest = edges index ds in
      if d.consumer == index then record { provider = p; position = d.position } ∷ rest else rest
]

-- adjacency[index]
unfoldable pub adjacency : (ℕ → ℕ → Bool) → List Dependency → ℕ → List Edge
unfolding edges sort
adjacency less ds index = sort (λ a b. less a.provider b.provider) (edges index ds)

-- 0 for a component that was not visited, 1 for one on the stack, 2 for one that is done.
abbrev pub States : Type 0
States = ℕ → ℕ

abbrev pub set_state : ℕ → ℕ → States → States
set_state index state states i = if index == i then state else states i

-- A cycle with the position of the dependency that closes it, or the states after the search.
pub data Search : Type 0 where
  found : List ℕ → ℕ → Search
  clear : States → Search

-- stack[start:], where stack[start] is the component.
unfoldable pub from : ℕ → List ℕ → List ℕ
from index [] = []
from index (x ∷ xs) = if x == index then x ∷ xs else from index xs

abbrev pub after : (States → Search) → Search → Search
after go_on (found cycle position) = found cycle position
after go_on (clear states) = go_on states

-- The loop over the dependencies of `current`, and what follows it.
unfoldable pub visit_each :
    (States → List ℕ → ℕ → Search) → List Edge → States → List ℕ → ℕ → Search
unfolding from
visit_each visit [] states stack current = clear (set_state current 2 states)
visit_each visit (e ∷ es) states stack current = elim (states e.provider) [
  | zero ↦ after (λ next. visit_each visit es next stack current) (visit states stack e.provider)
  | suc state ↦ elim state [
    | zero ↦ found (from e.provider stack ++ e.provider ∷ []) e.position
    | suc _ ↦ visit_each visit es states stack current
  ]
]

-- A call visits a component that was not visited, so that their number is fuel enough.
unfoldable pub visit : (ℕ → ℕ → Bool) → List Dependency → ℕ → States → List ℕ → ℕ → Search
unfolding adjacency visit_each
visit less ds zero states stack current = clear states
visit less ds (suc fuel) states stack current =
    visit_each (visit less ds fuel) (adjacency less ds current) (set_state current 1 states)
      (stack ++ current ∷ []) current

unfoldable pub visit_all :
    (ℕ → ℕ → Bool) → List Dependency → ℕ → List ℕ → States → Option (List ℕ × ℕ)
unfolding visit
visit_all less ds n [] states = none
visit_all less ds n (current ∷ rest) states = elim (states current) [
  | zero ↦ elim (visit less ds n states [] current) [
    | found cycle position ↦ some (cycle, position)
    | clear next ↦ visit_all less ds n rest next
  ]
  | suc _ ↦ visit_all less ds n rest states
]

unfoldable pub indexes : ℕ → List ℕ
indexes zero = []
indexes (suc n) = indexes n ++ n ∷ []

unfoldable pub find_cycle : (ℕ → ℕ → Bool) → List Dependency → ℕ → Option (List ℕ × ℕ)
unfolding sort visit_all indexes
find_cycle less ds n = visit_all less ds n (sort less (indexes n)) λ _. 0

abbrev pub cycle_of : (ℕ → Component) → Option (List ℕ × ℕ) → Option (List Component × ℕ)
cycle_of node none = none
cycle_of node (some (cycle, position)) = some (map node cycle, position)

-- The labels of the cycle are those of the components.
unfoldable pub find_component_cycle : List Component → List Dependency → Option (List Component × ℕ)
unfolding find_cycle component_less
find_component_cycle nodes ds =
    let node : ℕ → Component = λ i. get_or nodes i no_component in
    let less : ℕ → ℕ → Bool = λ i j. component_less [] (node i) (node j) in
    cycle_of node (find_cycle less ds (length nodes))
