-- ===== src/Codegen/Cycle/Components.antt =====
-- What `topologicalOrder` returns for the components in which `findComponentCycle` finds no cycle
-- (cool-next/codegen/topology.go).
use mathlib.Core.List.{Perm, perm_middle, map-append, map-map}
use mathlib.Core.List.Perm
use cool_admin_go_next.Common.{
  ℕ, zero, suc, ◌≤◌, ◌<◌, ◌==◌, Bool, true, false, List, [], ◌∷◌, ◌++◌, map, length, get_or, Option,
  none, some, ltb, ◌≡◌, refl, sym, subst, ap, ◌∙◌, ◌⊎◌, inl, inr, All, Bool-cases, arith,
}
use cool_admin_go_next.Codegen.Topology.{
  Component, ModuleNode, Dependency, component_less, no_component, order_indexes, topological_order,
}
use cool_admin_go_next.Codegen.Topology.Counting.{times, times-append}
use cool_admin_go_next.Codegen.Topology.Order.{IsOrdered, order_indexes-IsOrdered}
use cool_admin_go_next.Codegen.Cycle.{indexes, find_cycle, cycle_of, find_component_cycle}
use cool_admin_go_next.Codegen.Cycle.Checked.{IsIndexed, find_cycle_orders, times-indexes}

abbrev IsSplit : ℕ → List ℕ → Type 0
IsSplit x ys = (front : List ℕ) × (back : List ℕ) × (ys ≡ front ++ x ∷ back)

IsSplit-at : (x : ℕ) (ys : List ℕ) → 0 < times x ys → IsSplit x ys
IsSplit-at x [] h = absurd (omega (arith, h))
IsSplit-at x (y ∷ ys) h = go (IsSplit-at x ys) (Bool-cases (y == x))
  where
    go : (0 < times x ys → IsSplit x ys) → (y == x) ≡ true ⊎ (y == x) ≡ false → IsSplit x (y ∷ ys)
    go ih (inl here) = let same : y ≡ x = ground (arith, here) in ([], ys, ap (λ z. z ∷ ys) same)
    go ih (inr other) =
        let rest = ih (ground (arith, other, h)) in (y ∷ rest.0, rest.1, ap (λ zs. y ∷ zs) rest.2)

times-middle :
    (i x : ℕ) (front back : List ℕ) → times i (front ++ x ∷ back) ≡ times i (x ∷ front ++ back)
times-middle i x front back =
    ground (arith, times-append i front (x ∷ back), times-append i front back)

-- Lists in which every number stands equally often are permutations of each other.
times-Perm : (xs ys : List ℕ) → ((i : ℕ) → times i xs ≡ times i ys) → Perm xs ys
times-Perm [] [] h = Perm.refl []
times-Perm [] (y ∷ ys) h = absurd (ground (arith, h y))
times-Perm (x ∷ xs) ys h =
    let parts = IsSplit-at x ys (ground (arith, h x)) in
    let front = parts.0 in
    let back = parts.1 in
    let counted : (i : ℕ) → times i xs ≡ times i (front ++ back) =
      λ i. ground (arith, h i, ap (times i) parts.2, times-middle i x front back) in
    subst (Perm (x ∷ xs)) (sym parts.2) (
      Perm.trans (Perm.cons x (times-Perm xs (front ++ back) counted))
        (Perm.symm (perm_middle front back)))

ordered_outside :
    (ds : List Dependency) (n i : ℕ) (before xs : List ℕ)
    → IsOrdered ds n before xs
    → n ≤ i
    → times i xs ≡ 0
ordered_outside ds n i before [] o h = refl
ordered_outside ds n i before (x ∷ xs) o h =
    ground (arith, o.0, h, ordered_outside ds n i (x ∷ before) xs o.3)

indexed_below : (n : ℕ) (ds : List Dependency) → All (IsIndexed n) ds → All (λ d. d.consumer < n) ds
indexed_below n [] h = tt
indexed_below n (d ∷ ds) h = (h.0.0, indexed_below n ds h.1)

-- The order is a permutation of the indexes where the search finds no cycle.
order_indexes-Perm :
    (less by : ℕ → ℕ → Bool) (ds : List Dependency) (n : ℕ)
    → All (IsIndexed n) ds
    → find_cycle less ds n ≡ none
    → Perm (order_indexes by ds n) (indexes n)
order_indexes-Perm less by ds n indexed e = times-Perm (order_indexes by ds n) (indexes n) λ i.
    elim (Bool-cases (ltb i n)) [
      | inl small ↦
          find_cycle_orders less by ds n i indexed e (ground (arith, small))
          ∙ sym (ground (arith, times-indexes i n, small))
      | inr large ↦
          ordered_outside ds n i [] (order_indexes by ds n)
            (order_indexes-IsOrdered by ds n (indexed_below n ds indexed)) (ground (arith, large))
          ∙ sym (ground (arith, times-indexes i n, large))
    ]

first_index : (n : ℕ) → indexes (suc n) ≡ 0 ∷ map suc (indexes n)
unfolding indexes
first_index zero = refl
first_index (suc n) =
    ap (λ is. is ++ suc n ∷ []) (first_index n)
    ∙ ap (λ is. 0 ∷ is) (sym (map-append suc (indexes n) (n ∷ [])))

-- Every component, by its index.
nodes_of :
    (nodes : List Component) (other : Component)
    → map (λ i. get_or nodes i other) (indexes (length nodes)) ≡ nodes
unfolding indexes
nodes_of [] other = refl
nodes_of (x ∷ xs) other =
    ap (map (λ i. get_or (x ∷ xs) i other)) (first_index (length xs))
    ∙ ap (λ zs. x ∷ zs)
        (map-map (λ i. get_or (x ∷ xs) i other) suc (indexes (length xs)) ∙ nodes_of xs other)

cycle_of-none :
    (node : ℕ → Component) (result : Option (List ℕ × ℕ))
    → cycle_of node result ≡ none
    → result ≡ none
cycle_of-none node none h = refl
cycle_of-none node (some (cycle, position)) h = absurd (cc)

-- Where the indexes of all dependencies are indexes of components: if findComponentCycle finds no
-- cycle then topologicalOrder returns a permutation of the components, whatever the modules are.
pub topological_order-Perm :
    (nodes : List Component) (ds : List Dependency) (modules : List ModuleNode)
    → All (IsIndexed (length nodes)) ds
    → find_component_cycle nodes ds ≡ none
    → Perm (topological_order nodes ds modules) nodes
unfolding topological_order find_component_cycle
topological_order-Perm nodes ds modules indexed e =
    let node : ℕ → Component = λ i. get_or nodes i no_component in
    subst (Perm (map node _)) (nodes_of nodes no_component) (
      Perm.map node (
        order_indexes-Perm (λ i j. component_less [] (node i) (node j))
          (λ i j. component_less modules (node i) (node j)) ds (length nodes) indexed
          (cycle_of-none node _ e)))
