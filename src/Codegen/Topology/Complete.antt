-- ===== src/Codegen/Topology/Complete.antt =====
-- What `topologicalOrder` leaves out (cool-next/codegen/topology.go).
use cool_admin_go_next.Common.{
  ℕ, zero, suc, ◌+◌, ◌≤◌, ◌<◌, Bool, List, [], ◌∷◌, ◌++◌, length, Option, none, some, ◌≡◌, refl,
  sym, subst, ap, ◌∙◌, All, arith,
}
use cool_admin_go_next.Codegen.Topology.{
  Dependency, consumers, indegree, Degrees, release_each, ready_below, sort, order_from,
  order_indexes,
}
use cool_admin_go_next.Codegen.Topology.Counting.{times, times-append, times-sort, length-le}
use cool_admin_go_next.Codegen.Topology.Waiting.{missing, IsTracked}
use cool_admin_go_next.Codegen.Topology.Order.{
  consumers_below, release_each-IsTracked, take-IsTracked, start-IsTracked,
}

missing-same :
    (xs ys : List ℕ) (ds : List Dependency) (i : ℕ)
    → ((p : ℕ) → times p xs ≡ times p ys)
    → missing xs ds i ≡ missing ys ds i
unfolding missing
missing-same xs ys [] i h = refl
missing-same xs ys (d ∷ ds) i h = go (missing-same xs ys ds i h) d.provider
  where
    go :
        (ih : missing xs ds i ≡ missing ys ds i) (p : Option ℕ)
        → missing xs (record d { provider = p } ∷ ds) i
          ≡ missing ys (record d { provider = p } ∷ ds) i
    go ih none = ih
    go ih (some p) = ground (arith, ih, h p)

times-move : (i x : ℕ) (xs ys : List ℕ) → times i (xs ++ x ∷ ys) ≡ times i ((x ∷ xs) ++ ys)
times-move i x xs ys = ground (arith, times-append i xs (x ∷ ys), times-append i xs ys)

order_from_complete :
    (less : ℕ → ℕ → Bool) (ds : List Dependency) (n k : ℕ) (degrees : Degrees)
    (ready taken : List ℕ) (i : ℕ)
    → All (λ d. d.consumer < n) ds
    → IsTracked ds n degrees ready taken []
    → n ≤ k + length taken
    → i < n
    → times i (order_from less ds k degrees ready ++ taken) ≡ 0
    → 0 < missing (order_from less ds k degrees ready ++ taken) ds i
unfolding order_from
order_from_complete less ds n zero degrees ready taken i below t enough small h =
    let most =
      length-le n (i ∷ taken) (λ j. ground (arith, t.once j, h))
        (λ j b. ground (arith, t.known j)) in
    omega (arith, most)
order_from_complete less ds n (suc k) degrees ready taken i below t enough small h =
    go (λ degrees ready taken. order_from_complete less ds n k degrees ready taken i below)
      (sort less ready) refl h
  where
    go :
        (ih : (degrees : Degrees) (ready taken : List ℕ)
          → IsTracked ds n degrees ready taken []
          → n ≤ k + length taken
          → i < n
          → times i (order_from less ds k degrees ready ++ taken) ≡ 0
          → 0 < missing (order_from less ds k degrees ready ++ taken) ds i)
        (sorted : List ℕ)
        → sort less ready ≡ sorted
        → let result : List ℕ =
            elim sorted [
              | [] ↦ []
              | current ∷ rest ↦
                  let next = release_each (consumers current ds) degrees rest in
                  current ∷ order_from less ds k next.0 next.1
            ]
            ++ taken in
          times i result ≡ 0 → 0 < missing result ds i
    go ih [] e h =
        let none_ready : times i ready ≡ 0 = sym (times-sort less i ready) ∙ ap (times i) e in
        ground (arith, t.found i, t.counts i)
    go ih (current ∷ rest) e h =
        let next = release_each (consumers current ds) degrees rest in
        let tail = order_from less ds k next.0 next.1 in
        subst (λ m. 0 < m)
          (missing-same (tail ++ current ∷ taken) ((current ∷ tail) ++ taken) ds i
            (λ p. times-move p current tail taken))
          (ih next.0 next.1 (current ∷ taken)
            (release_each-IsTracked ds n (consumers current ds) degrees rest (current ∷ taken)
              (consumers_below n current ds below)
              (take-IsTracked less ds n degrees ready taken rest current e t))
            (omega arith) small (times-move i current tail taken ∙ h))

-- Where every consumer is a component: one that the order leaves out depends on a component that the
-- order leaves out.
pub order_indexes_complete :
    (less : ℕ → ℕ → Bool) (ds : List Dependency) (n i : ℕ)
    → All (λ d. d.consumer < n) ds
    → i < n
    → times i (order_indexes less ds n) ≡ 0
    → 0 < missing (order_indexes less ds n) ds i
unfolding order_indexes
order_indexes_complete less ds n i below small h =
    let result = order_from less ds n (indegree ds) (ready_below n (indegree ds)) in
    let same : (p : ℕ) → times p (result ++ []) ≡ times p result =
      λ p. omega (arith, times-append p result []) in
    subst (λ m. 0 < m) (missing-same (result ++ []) result ds i same)
      (order_from_complete less ds n n _ _ [] i below (start-IsTracked ds n) (omega arith) small
        (same i ∙ h))
