-- ===== src/Codegen/Cycle/Checked.antt =====
-- What `findComponentCycle` finds, and what `topologicalOrder` returns when it finds nothing
-- (cool-next/codegen/topology.go).
use cool_admin_go_next.Common.{
  ℕ, zero, suc, ◌<◌, ◌==◌, Bool, true, List, [], ◌∷◌, Option, none, some, ltb, if◌then◌else◌, ◌≡◌,
  refl, subst, ap, ◌∙◌, inl, inr, All, Bool-cases, arith,
}
use cool_admin_go_next.Codegen.Topology.{Dependency, sort, order_indexes}
use cool_admin_go_next.Codegen.Topology.Counting.{times, times-append, times-sort}
use cool_admin_go_next.Codegen.Topology.Acyclic.{IsRanked, IsAbove, order_indexes-all}
use cool_admin_go_next.Codegen.Cycle.{
  States, Search, found, clear, visit, visit_all, indexes, find_cycle,
}
use cool_admin_go_next.Codegen.Cycle.Chains.{depends, IsCycle}
use cool_admin_go_next.Codegen.Cycle.States.{IsLater, unvisited_le, IsVisited}
use cool_admin_go_next.Codegen.Cycle.Visiting.{Fits, visit-Fits}

abbrev pub IsBelow : ℕ → Option ℕ → Type 0
IsBelow n none = Unit
IsBelow n (some p) = p < n

-- The indexes of a dependency are indexes of components.
abbrev pub IsIndexed : ℕ → Dependency → Type 0
IsIndexed n d = (d.consumer < n) × IsBelow n d.provider

-- What the search has found, or the states in which it ends.
abbrev pub Finds : List Dependency → List ℕ → States → Option (List ℕ × ℕ) → Type 0
Finds ds xs before (some (cycle, position)) = IsCycle ds cycle
Finds ds xs before none =
    (states : States) × IsVisited ds states []
    × IsLater before states
    × ((i : ℕ) → 0 < times i xs → states i ≡ 2)

pub provider_below :
    (n x p : ℕ) (ds : List Dependency) → All (IsIndexed n) ds → depends ds x p ≡ true → p < n
unfolding depends
provider_below n x p [] h e = absurd (cc)
provider_below n x p (d ∷ ds) h e = go (provider_below n x p ds h.1) d.provider h.0.1 e
  where
    go :
        (ih : depends ds x p ≡ true → p < n) (provider : Option ℕ)
        → IsBelow n provider
        → depends (record d { provider = provider } ∷ ds) x p ≡ true
        → p < n
    go ih none b e = ih (ground (arith, e))
    go ih (some q) b e = ground (arith, e, b, ih)

module _ (less : ℕ → ℕ → Bool) (ds : List Dependency) (n : ℕ)
    (below : (x p : ℕ) → depends ds x p ≡ true → p < n) where
  pub visit_all-Finds :
      (xs : List ℕ) (states : States)
      → ((i : ℕ) → 0 < times i xs → i < n)
      → IsVisited ds states []
      → Finds ds xs states (visit_all less ds n xs states)
  unfolding visit_all
  visit_all-Finds [] states small v = (states, v, (λ i h. refl), λ i h. absurd (omega (arith, h)))
  visit_all-Finds (x ∷ xs) states small v =
      go (states x) refl (λ next. visit_all-Finds xs next (λ i h. small i (ground (arith, h))))
    where
      more :
          (before next : States)
          → IsLater before next
          → next x ≡ 2
          → (result : Option (List ℕ × ℕ)) → Finds ds xs next result
          → Finds ds (x ∷ xs) before result
      more before next later here (some (cycle, position)) finds = finds
      more before next later here none finds = (
        finds.0,
        finds.1,
        (λ i h. ground (arith, later i h, finds.2 i, h)),
        λ i h. elim (Bool-cases (x == i)) [
          | inl same ↦
              let is : i ≡ x = ground (arith, same) in
              ap finds.0 is ∙ finds.2 x (omega (arith, here)) ∙ here
          | inr other ↦ finds.3 i (ground (arith, other, h))
        ],
      )

      visited :
          (result : Search)
          → ((next : States)
              → IsVisited ds next []
              → Finds ds xs next (visit_all less ds n xs next))
          → Fits ds [] states x result
          → Finds ds (x ∷ xs) states (elim result [
            | found cycle position ↦ some (cycle, position)
            | clear next ↦ visit_all less ds n xs next
          ])
      visited (found cycle position) ih fits = fits
      visited (clear next) ih fits = more states next fits.0 fits.2 _ (ih next fits.1)

      go :
          (state : ℕ)
          → states x ≡ state
          → ((next : States)
              → IsVisited ds next []
              → Finds ds xs next (visit_all less ds n xs next))
          → Finds ds (x ∷ xs) states (elim state [
            | zero ↦ elim (visit less ds n states [] x) [
              | found cycle position ↦ some (cycle, position)
              | clear next ↦ visit_all less ds n xs next
            ]
            | suc _ ↦ visit_all less ds n xs states
          ])
      go zero s ih = visited (visit less ds n states [] x) ih (
          visit-Fits ds n below less n [] states x v s (small x (ground arith))
            (unvisited_le n states) tt)
      go (suc k) s ih =
          more states states (λ i h. refl) (ground (arith, s, v.small x, v.stacked x)) _
            (ih states v)

pub times-indexes : (i n : ℕ) → times i (indexes n) ≡ (if ltb i n then 1 else 0)
unfolding indexes
times-indexes i zero = ground arith
times-indexes i (suc n) = ground (arith, times-indexes i n, times-append i (indexes n) (n ∷ []))

pub start-IsVisited : (ds : List Dependency) → IsVisited ds (λ _. 0) []
start-IsVisited ds = record {
  rank = λ _. 0;
  bound = 0;
  small = λ i. omega arith;
  stacked = λ i h. absurd (omega (arith, h));
  low = λ i h. absurd (omega (arith, h));
  ends = λ i p h d. absurd (omega (arith, h));
  above = λ i p h d. absurd (omega (arith, h));
}

times-order :
    (less : ℕ → ℕ → Bool) (n i : ℕ) → times i (sort less (indexes n)) ≡ (if ltb i n then 1 else 0)
times-order less n i = times-sort less i (indexes n) ∙ times-indexes i n

find_cycle-Finds :
    (less : ℕ → ℕ → Bool) (ds : List Dependency) (n : ℕ)
    → All (IsIndexed n) ds
    → Finds ds (sort less (indexes n)) (λ _. 0) (find_cycle less ds n)
unfolding find_cycle
find_cycle-Finds less ds n indexed =
    visit_all-Finds less ds n (λ x p. provider_below n x p ds indexed) (sort less (indexes n)) _
      (λ i h. ground (arith, times-order less n i, h)) (start-IsVisited ds)

-- Where the indexes of all dependencies are indexes of components: a cycle that the search returns is
-- a chain of dependencies that ends with the component with which it begins.
find_cycle-IsCycle :
    (less : ℕ → ℕ → Bool) (ds : List Dependency) (n : ℕ) (cycle : List ℕ) (position : ℕ)
    → All (IsIndexed n) ds
    → find_cycle less ds n ≡ some (cycle, position)
    → IsCycle ds cycle
find_cycle-IsCycle less ds n cycle position indexed e =
    subst (Finds ds (sort less (indexes n)) (λ _. 0)) e (find_cycle-Finds less ds n indexed)

all-IsRanked :
    (n : ℕ) (rank : ℕ → ℕ) (ds : List Dependency)
    → All (IsIndexed n) ds
    → ((i p : ℕ) → i < n → depends ds i p ≡ true → rank p < rank i)
    → All (IsRanked n rank) ds
unfolding depends
all-IsRanked n rank [] indexed h = tt
all-IsRanked n rank (d ∷ ds) indexed h = (
  (indexed.0.0, go d.provider indexed.0.1 λ p. h d.consumer p indexed.0.0),
  all-IsRanked n rank ds indexed.1 λ i p b e. h i p b (ground (arith, e)),
)
  where
    go :
        (provider : Option ℕ)
        → IsBelow n provider
        → ((p : ℕ)
            → depends (record d { provider = provider } ∷ ds) d.consumer p ≡ true
            → rank p < rank d.consumer)
        → IsAbove n rank d.consumer provider
    go none b h = tt
    go (some p) b h = (b, h p (ground arith))

-- Where the indexes of all dependencies are indexes of components: if the search finds no cycle then
-- every component stands in the order exactly once, whatever the two comparisons are.
pub find_cycle_orders :
    (less by : ℕ → ℕ → Bool) (ds : List Dependency) (n i : ℕ)
    → All (IsIndexed n) ds
    → find_cycle less ds n ≡ none
    → i < n
    → times i (order_indexes by ds n) ≡ 1
find_cycle_orders less by ds n i indexed e small =
    let ends =
      subst (Finds ds (sort less (indexes n)) (λ _. 0)) e (find_cycle-Finds less ds n indexed) in
    order_indexes-all by ds n ends.1.rank i
      (all-IsRanked n ends.1.rank ds indexed
        λ i p b d. ends.1.above i p (ends.3 i (ground (arith, times-order less n i, b))) d)
      small
