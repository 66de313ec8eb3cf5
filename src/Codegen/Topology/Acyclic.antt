-- ===== src/Codegen/Topology/Acyclic.antt =====
-- What `topologicalOrder` returns for a graph without a cycle (cool-next/codegen/topology.go).
use cool_admin_go_next.Common.{
  ℕ, zero, suc, ◌+◌, ◌≤◌, ◌<◌, ◌==◌, Bool, true, false, List, [], ◌∷◌, Option, none, some, ◌&&◌,
  ◌≡◌, refl, ◌⊎◌, inl, inr, All, Bool-cases, arith,
}
use cool_admin_go_next.Codegen.Topology.{Dependency, order_indexes}
use cool_admin_go_next.Codegen.Topology.Counting.{times}
use cool_admin_go_next.Codegen.Topology.Waiting.{missing}
use cool_admin_go_next.Codegen.Topology.Order.{IsOrdered, order_indexes-IsOrdered}
use cool_admin_go_next.Codegen.Topology.Complete.{order_indexes_complete}

-- Ranks of what a component depends on.
abbrev pub IsAbove : ℕ → (ℕ → ℕ) → ℕ → Option ℕ → Type 0
IsAbove n rank consumer none = Unit
IsAbove n rank consumer (some p) = (p < n) × (rank p < rank consumer)

-- Ranks that grow from a provider to its consumers, which a graph has when it has no cycle.
abbrev pub IsRanked : ℕ → (ℕ → ℕ) → Dependency → Type 0
IsRanked n rank d = (d.consumer < n) × IsAbove n rank d.consumer d.provider

ranked_below :
    (n : ℕ) (rank : ℕ → ℕ) (ds : List Dependency)
    → All (IsRanked n rank) ds
    → All (λ d. d.consumer < n) ds
ranked_below n rank [] h = tt
ranked_below n rank (d ∷ ds) h = (h.0.0, ranked_below n rank ds h.1)

abbrev IsBefore : ℕ → (ℕ → ℕ) → List ℕ → ℕ → Type 0
IsBefore n rank xs i = (p : ℕ) × (p < n) × (rank p < rank i) × (times p xs ≡ 0)

missing_provider :
    (n : ℕ) (rank : ℕ → ℕ) (xs : List ℕ) (ds : List Dependency) (i : ℕ)
    → All (IsRanked n rank) ds
    → 0 < missing xs ds i
    → IsBefore n rank xs i
unfolding missing
missing_provider n rank xs [] i h m = absurd (omega (arith, m))
missing_provider n rank xs (d ∷ ds) i h m =
    go (missing_provider n rank xs ds i h.1) d.provider h.0.1 m
  where
    go :
        (ih : 0 < missing xs ds i → IsBefore n rank xs i) (provider : Option ℕ)
        → IsAbove n rank d.consumer provider
        → 0 < missing xs (record d { provider = provider } ∷ ds) i
        → IsBefore n rank xs i
    go ih none r m = ih m
    go ih (some p) r m = pick (Bool-cases (times p xs == 0 && d.consumer == i))
      where
        pick :
            (times p xs == 0 && d.consumer == i) ≡ true
              ⊎ (times p xs == 0 && d.consumer == i) ≡ false
            → IsBefore n rank xs i
        pick (inl here) = (p, r.0, grind (arith, here, r.1), ground (arith, here))
        pick (inr other) = ih (ground (arith, other, m))

once_each :
    (ds : List Dependency) (n i : ℕ) (before xs : List ℕ)
    → IsOrdered ds n before xs
    → times i before ≤ 1
    → times i xs + times i before ≤ 1
once_each ds n i before [] o h = omega (arith, h)
once_each ds n i before (x ∷ xs) o h = ground (arith, once_each ds n i (x ∷ before) xs o.3, o.2)

stands_once :
    (less : ℕ → ℕ → Bool) (ds : List Dependency) (n : ℕ) (rank : ℕ → ℕ) (bound i : ℕ)
    → All (IsRanked n rank) ds
    → rank i < bound
    → i < n
    → 0 < times i (order_indexes less ds n)
stands_once less ds n rank zero i h b small = omega (arith, b)
stands_once less ds n rank (suc bound) i h b small =
    go (λ p. stands_once less ds n rank bound p h) (times i (order_indexes less ds n)) refl
  where
    go :
        (ih : (p : ℕ) → rank p < bound → p < n → 0 < times p (order_indexes less ds n)) (count : ℕ)
        → times i (order_indexes less ds n) ≡ count
        → 0 < count
    go ih (suc count) e = omega arith
    go ih zero e =
        let found =
          missing_provider n rank (order_indexes less ds n) ds i h
            (order_indexes_complete less ds n i (ranked_below n rank ds h) small e) in
        omega (arith, ih found.0 (omega (arith, found.2, b)) found.1, found.3)

-- In a graph whose dependencies have ranks that grow from a provider to its consumer, as they have
-- when there is no cycle, every component stands in the order exactly once.
pub order_indexes-all :
    (less : ℕ → ℕ → Bool) (ds : List Dependency) (n : ℕ) (rank : ℕ → ℕ) (i : ℕ)
    → All (IsRanked n rank) ds
    → i < n
    → times i (order_indexes less ds n) ≡ 1
order_indexes-all less ds n rank i h small =
    let most =
      once_each ds n i [] (order_indexes less ds n)
        (order_indexes-IsOrdered less ds n (ranked_below n rank ds h)) (omega arith) in
    let least = stands_once less ds n rank (suc (rank i)) i h (omega arith) small in
    omega (arith, most, least)
