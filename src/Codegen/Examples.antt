-- ===== src/Codegen/Examples.antt =====
-- The order of small graphs of components (cool-next/codegen/topology.go).
use mathlib.Core.List.{Perm}
use cool_admin_go_next.Common.{map, codes, List, [], ◌∷◌, some, none, ltb, ◌≡◌, refl, arith}
use cool_admin_go_next.Codegen.Topology.{
  Component, ModuleNode, Dependency, order_indexes, topological_order,
}
use cool_admin_go_next.Codegen.Topology.Order.{IsOrdered, order_indexes-IsOrdered}
use cool_admin_go_next.Codegen.Cycle.{find_cycle, find_component_cycle}
use cool_admin_go_next.Codegen.Cycle.Components.{topological_order-Perm}
use cool_admin_go_next.Codegen.Cycle.Modules.{
  ModuleDependency, find_module_cycle, IsReport, find_module_cycle-IsReport,
}

-- Component 0 needs 1 and something that is no component, component 1 needs 2.
abbrev three_dependencies : List Dependency
three_dependencies =
    record { consumer = 0; provider = some 1; position = 10 }
    ∷ record { consumer = 0; provider = none; position = 20 }
    ∷ record { consumer = 1; provider = some 2; position = 30 }
    ∷ []

order_of_three : order_indexes ltb three_dependencies 4 ≡ 2 ∷ 1 ∷ 0 ∷ 3 ∷ []
unfolding order_indexes
order_of_three = refl

-- Components 0 and 1 need each other.
abbrev mutual_dependencies : List Dependency
mutual_dependencies =
    record { consumer = 0; provider = some 1; position = 10 }
    ∷ record { consumer = 1; provider = some 0; position = 40 }
    ∷ []

order_of_cycle : order_indexes ltb mutual_dependencies 3 ≡ 2 ∷ []
unfolding order_indexes
order_of_cycle = refl

mutual_cycle : find_cycle ltb mutual_dependencies 3 ≡ some (0 ∷ 1 ∷ 0 ∷ [], 40)
unfolding find_cycle
mutual_cycle = refl

no_cycle : find_cycle ltb three_dependencies 4 ≡ none
unfolding find_cycle
no_cycle = refl

order_indexes-IsOrdered_example :
    IsOrdered three_dependencies 4 [] (order_indexes ltb three_dependencies 4)
order_indexes-IsOrdered_example = order_indexes-IsOrdered ltb three_dependencies 4 (omega arith)

abbrev four_components : List Component
four_components =
    record { module_key = codes "user"; package_path = codes "user/service"; name = codes "Users" }
    ∷ record { module_key = codes "user"; package_path = codes "user/db"; name = codes "Store" }
    ∷ record { module_key = codes "base"; package_path = codes "base/db"; name = codes "Pool" }
    ∷ record { module_key = codes "base"; package_path = codes "base/log"; name = codes "Log" }
    ∷ []

abbrev two_modules : List ModuleNode
two_modules =
    record { key = codes "user"; order = 2 } ∷ record { key = codes "base"; order = 1 } ∷ []

four_without_cycle : find_component_cycle four_components three_dependencies ≡ none
unfolding find_component_cycle
four_without_cycle = refl

order_of_four :
    map (λ c. c.name) (topological_order four_components three_dependencies two_modules)
    ≡ map codes ("Pool" ∷ "Store" ∷ "Users" ∷ "Log" ∷ [])
unfolding topological_order
order_of_four = refl

topological_order-Perm_example :
    Perm (topological_order four_components three_dependencies two_modules) four_components
topological_order-Perm_example =
    topological_order-Perm four_components three_dependencies two_modules (omega arith)
      four_without_cycle

-- Module 2 depends on 0, and 0 and 1 on each other.
abbrev module_dependencies : List ModuleDependency
module_dependencies =
    record { consumer = 2; provider = 0; position = 50 }
    ∷ record { consumer = 0; provider = 1; position = 60 }
    ∷ record { consumer = 1; provider = 0; position = 70 }
    ∷ []

module_cycle : find_module_cycle (2 ∷ 0 ∷ 1 ∷ []) 3 module_dependencies ≡ some (0 ∷ 1 ∷ 0 ∷ [], 60)
unfolding find_module_cycle
module_cycle = refl

find_module_cycle-IsReport_example :
    IsReport module_dependencies
      (2 ∷ 0 ∷ 1 ∷ [])
      (find_module_cycle (2 ∷ 0 ∷ 1 ∷ []) 3 module_dependencies)
find_module_cycle-IsReport_example =
    find_module_cycle-IsReport (2 ∷ 0 ∷ 1 ∷ []) 3 module_dependencies (omega arith) (omega arith)
