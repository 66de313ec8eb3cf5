-- ===== src/Codegen/Topology.antt =====
-- The order in which components are built (cool-next/codegen/topology.go): `topologicalOrder`, and
-- `compareComponents` (cool-next/codegen/graph.go). A component is named by its index. sort.Slice is
-- an insertion sort; the degrees are a function from the indexes, whose entries stay above 0 where
-- the code takes 1 off.
pub mod Counting
pub mod Waiting
pub mod Order
pub mod Complete
pub mod Acyclic
use cool_admin_go_next.Common.{
  ℕ, zero, suc, ◌-◌, ◌==◌, Bool, true, false, not, List, [], ◌∷◌, ◌++◌, map, Text, text_eq, length,
  get_or, Option, none, some, ltb, if◌then◌else◌, ◌&&◌, ◌||◌,
}

pub record Component : Type 0 where
  pub module_key : Text
  pub package_path : Text
  pub name : Text

pub record ModuleNode : Type 0 where
  pub key : Text
  pub order : ℕ

-- A provider that is no component has no index.
pub record Dependency : Type 0 where
  pub consumer : ℕ
  pub provider : Option ℕ
  pub position : ℕ

-- strings.Compare(first, second) < 0
unfoldable pub text_less : Text → Text → Bool
text_less [] [] = false
text_less [] (y ∷ ys) = true
text_less (x ∷ xs) [] = false
text_less (x ∷ xs) (y ∷ ys) = let rest = text_less xs ys in ltb x y || x == y && rest

-- The order of a module, 0 for one that is not listed; a later entry takes the place of an earlier
-- one.
unfoldable pub order_of : Text → List ModuleNode → ℕ → ℕ
order_of key [] found = found
order_of key (node ∷ nodes) found =
    order_of key nodes (if text_eq node.key key then node.order else found)

-- compareComponents(left, right, modules) < 0
unfoldable pub component_less : List ModuleNode → Component → Component → Bool
unfolding text_less order_of
component_less modules left right =
    let l = order_of left.module_key modules 0 in
    let r = order_of right.module_key modules 0 in
    if not (l == r)
    then ltb r l
    else if not (text_eq left.module_key right.module_key)
    then text_less left.module_key right.module_key
    else if not (text_eq left.package_path right.package_path)
    then text_less left.package_path right.package_path
    else text_less left.name right.name

module _ {A : Type 0} (less : A → A → Bool) where
  unfoldable pub insert : A → List A → List A
  insert x [] = x ∷ []
  insert x (y ∷ ys) = elim (less y x) [ true ↦ y ∷ insert x ys | false ↦ x ∷ y ∷ ys ]

  -- sort.Slice
  unfoldable pub sort : List A → List A
  unfolding insert
  sort [] = []
  sort (x ∷ xs) = insert x (sort xs)

abbrev pub is_provided_by : ℕ → Dependency → Bool
is_provided_by index d = elim d.provider [ none ↦ false | some p ↦ p == index ]

abbrev pub is_edge : Dependency → Bool
is_edge d = elim d.provider [ none ↦ false | some _ ↦ true ]

-- edges[provider]
unfoldable pub consumers : ℕ → List Dependency → List ℕ
consumers index [] = []
consumers index (d ∷ ds) =
    let rest = consumers index ds in if is_provided_by index d then d.consumer ∷ rest else rest

unfoldable pub indegree : List Dependency → ℕ → ℕ
indegree [] index = 0
indegree (d ∷ ds) index =
    let rest = indegree ds index in if is_edge d && d.consumer == index then suc rest else rest

abbrev pub Degrees : Type 0
Degrees = ℕ → ℕ

abbrev pub decrement : ℕ → Degrees → Degrees
decrement index degrees i = if index == i then degrees i - 1 else degrees i

-- The loop over the consumers of a component.
unfoldable pub release_each : List ℕ → Degrees → List ℕ → Degrees × List ℕ
release_each [] degrees ready = (degrees, ready)
release_each (next ∷ nexts) degrees ready =
    let less = decrement next degrees in
    release_each nexts less (if less next == 0 then ready ++ next ∷ [] else ready)

-- The indexes below `n` with no provider to wait for, in ascending order after `found`.
unfoldable pub ready_below : ℕ → Degrees → List ℕ
ready_below zero degrees = []
ready_below (suc n) degrees =
    let rest = ready_below n degrees in if degrees n == 0 then rest ++ n ∷ [] else rest

-- The main loop; a component is taken once, so that their number is fuel enough.
unfoldable pub order_from : (ℕ → ℕ → Bool) → List Dependency → ℕ → Degrees → List ℕ → List ℕ
unfolding sort consumers release_each
order_from less ds zero degrees ready = []
order_from less ds (suc fuel) degrees ready = elim (sort less ready) [
  | [] ↦ []
  | current ∷ rest ↦
      let next = release_each (consumers current ds) degrees rest in
      current ∷ order_from less ds fuel next.0 next.1
]

unfoldable pub order_indexes : (ℕ → ℕ → Bool) → List Dependency → ℕ → List ℕ
unfolding indegree ready_below order_from
order_indexes less ds n = order_from less ds n (indegree ds) (ready_below n (indegree ds))

abbrev pub no_component : Component
no_component = record { module_key = []; package_path = []; name = [] }

unfoldable pub topological_order :
    List Component → List Dependency → List ModuleNode → List Component
unfolding order_indexes component_less
topological_order nodes ds modules =
    let node : ℕ → Component = λ i. get_or nodes i no_component in
    let less : ℕ → ℕ → Bool = λ i j. component_less modules (node i) (node j) in
    map node (order_indexes less ds (length nodes))
