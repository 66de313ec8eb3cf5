-- ===== src/Codegen/Cycle/Modules.antt =====
-- The search for a cycle among the modules (cool-next/codegen/topology.go): `findModuleCycle` and
-- `cyclePos`. A key is named by its place in the order of all keys that occur, which is below `n`.
use cool_admin_go_next.Common.{
  ℕ, ◌<◌, ◌==◌, Bool, true, false, List, [], ◌∷◌, ◌++◌, map, Option, none, some, ltb, if◌then◌else◌,
  ◌&&◌, ◌||◌, ◌≡◌, sym, subst, All, arith,
}
use cool_admin_go_next.Codegen.Topology.{Dependency, sort}
use cool_admin_go_next.Codegen.Topology.Counting.{times, times-sort}
use cool_admin_go_next.Codegen.Cycle.{States, visit_all}
use cool_admin_go_next.Codegen.Cycle.Chains.{depends, IsChain, IsCycle}
use cool_admin_go_next.Codegen.Cycle.States.{IsVisited}
use cool_admin_go_next.Codegen.Cycle.Checked.{
  IsIndexed, Finds, visit_all-Finds, provider_below, start-IsVisited,
}

pub record ModuleDependency : Type 0 where
  pub consumer : ℕ
  pub provider : ℕ
  pub position : ℕ

abbrev pub to_dependency : ModuleDependency → Dependency
to_dependency d = record {
  consumer = d.consumer;
  provider = some d.provider;
  position = d.position;
}

abbrev pub no_position : ℕ
no_position = 0

abbrev pub position_between : ℕ → ℕ → List ModuleDependency → ℕ
position_between first second [] = no_position
position_between first second (d ∷ ds) =
    if d.consumer == first && d.provider == second
    then d.position
    else position_between first second ds

-- `cyclePos`
unfoldable pub cycle_position : List ℕ → List ModuleDependency → ℕ
cycle_position [] ds = no_position
cycle_position (first ∷ []) ds = no_position
cycle_position (first ∷ second ∷ rest) ds = position_between first second ds

abbrev pub with_position : List ModuleDependency → Option (List ℕ × ℕ) → Option (List ℕ × ℕ)
with_position ds none = none
with_position ds (some (cycle, _)) = some (cycle, cycle_position cycle ds)

unfoldable pub find_module_cycle : List ℕ → ℕ → List ModuleDependency → Option (List ℕ × ℕ)
unfolding sort visit_all cycle_position
find_module_cycle keys n ds =
    with_position ds (visit_all ltb (map to_dependency ds) n (sort ltb keys) λ _. 0)

abbrev pub IsKnown : ℕ → ModuleDependency → Type 0
IsKnown n d = (d.consumer < n) × (d.provider < n)

abbrev pub has_position : ℕ → ℕ → ℕ → List ModuleDependency → Bool
has_position first second position [] = false
has_position first second position (d ∷ ds) =
    d.consumer == first && d.provider == second && d.position == position
    || has_position first second position ds

-- A dependency between the first two of the cycle has the position.
abbrev pub is_placed : List ModuleDependency → List ℕ → ℕ → Bool
is_placed ds (first ∷ second ∷ rest) position = has_position first second position ds
is_placed ds cycle position = false

-- A cycle that begins with one of the keys.
abbrev pub IsCyclic : List Dependency → List ℕ → Type 0
IsCyclic ds keys = (x : ℕ) × (xs : List ℕ) × (0 < times x keys) × IsChain ds (x ∷ xs ++ x ∷ [])

-- A report is a cycle with its place, and there is none only if there is no cycle.
abbrev pub IsReport : List ModuleDependency → List ℕ → Option (List ℕ × ℕ) → Type 0
IsReport ds keys (some (cycle, position)) =
    IsCycle (map to_dependency ds) cycle × (is_placed ds cycle position ≡ true)
IsReport ds keys none = ¬ IsCyclic (map to_dependency ds) keys

known-IsIndexed :
    (n : ℕ) (ds : List ModuleDependency)
    → All (IsKnown n) ds
    → All (IsIndexed n) (map to_dependency ds)
known-IsIndexed n [] h = tt
known-IsIndexed n (d ∷ ds) h = (h.0, known-IsIndexed n ds h.1)

-- The rank falls along a chain.
chain_falls :
    (ds : List Dependency) (states : States) (x y : ℕ) (xs : List ℕ) (v : IsVisited ds states [])
    → states x ≡ 2
    → IsChain ds (x ∷ xs ++ y ∷ [])
    → v.rank y < v.rank x
chain_falls ds states x y [] v s c = v.above x y s c.0
chain_falls ds states x y (z ∷ xs) v s c =
    omega (arith, v.above x z s c.0, chain_falls ds states z y xs v (v.ends x z s c.0) c.1)

position_placed :
    (a b : ℕ) (ds : List ModuleDependency)
    → depends (map to_dependency ds) a b ≡ true
    → has_position a b (position_between a b ds) ds ≡ true
unfolding depends
position_placed a b [] h = absurd (cc)
position_placed a b (d ∷ ds) h = ground (arith, position_placed a b ds, h)

cycle-placed :
    (ds : List ModuleDependency) (cycle : List ℕ)
    → IsCycle (map to_dependency ds) cycle
    → is_placed ds cycle (cycle_position cycle ds) ≡ true
unfolding cycle_position
cycle-placed ds cycle (x, [], e, c) =
    subst (λ z. is_placed ds z (cycle_position z ds) ≡ true) (sym e)
      (position_placed x x ds (subst (IsChain (map to_dependency ds)) e c).0)
cycle-placed ds cycle (x, y ∷ xs, e, c) =
    subst (λ z. is_placed ds z (cycle_position z ds) ≡ true) (sym e)
      (position_placed x y ds (subst (IsChain (map to_dependency ds)) e c).0)

-- Where every key is below `n`: what findModuleCycle reports is a cycle of dependencies, with the
-- position of a dependency of its first on its second module; and it reports nothing only if no cycle
-- of dependencies begins with one of the modules.
pub find_module_cycle-IsReport :
    (keys : List ℕ) (n : ℕ) (ds : List ModuleDependency)
    → All (IsKnown n) ds
    → All (λ key. key < n) keys
    → IsReport ds keys (find_module_cycle keys n ds)
unfolding find_module_cycle
find_module_cycle-IsReport keys n ds known below = go _ (
    visit_all-Finds ltb (map to_dependency ds) n
      (λ x p. provider_below n x p (map to_dependency ds) (known-IsIndexed n ds known))
      (sort ltb keys) (λ _. 0)
      (λ i h. key_below keys below i (subst (λ m. 0 < m) (times-sort ltb i keys) h))
      (start-IsVisited (map to_dependency ds)))
  where
    key_below : (keys : List ℕ) → All (λ key. key < n) keys → (i : ℕ) → 0 < times i keys → i < n
    key_below [] h i t = absurd (omega (arith, t))
    key_below (key ∷ keys) h i t = ground (arith, h.0, key_below keys h.1 i, t)

    go :
        (result : Option (List ℕ × ℕ))
        → Finds (map to_dependency ds) (sort ltb keys) (λ _. 0) result
        → IsReport ds keys (with_position ds result)
    go (some (cycle, position)) finds = (finds, cycle-placed ds cycle finds)
    go none finds = λ cyclic.
        let x = cyclic.0 in
        let done = finds.3 x (subst (λ m. 0 < m) (sym (times-sort ltb x keys)) cyclic.2) in
        omega (arith, chain_falls (map to_dependency ds) finds.0 x x cyclic.1 finds.1 done cyclic.3)
