-- ===== src/Codegen/Topology/Order.antt =====
-- What `topologicalOrder` returns (cool-next/codegen/topology.go).
use cool_admin_go_next.Common.{
  ℕ, zero, suc, ◌<◌, ◌==◌, Bool, List, [], ◌∷◌, ltb, if◌then◌else◌, ◌&&◌, ◌≡◌, refl, sym, ap, ◌∙◌,
  All, arith,
}
use cool_admin_go_next.Codegen.Topology.{
  Dependency, consumers, indegree, Degrees, decrement, release_each, ready_below, sort, order_from,
  order_indexes,
}
use cool_admin_go_next.Codegen.Topology.Counting.{times, times-append, times-sort}
use cool_admin_go_next.Codegen.Topology.Waiting.{
  missing, indegree-missing, missing-cons, IsTracked, one-step,
}

pub consumers_below :
    (n x : ℕ) (ds : List Dependency)
    → All (λ d. d.consumer < n) ds
    → All (λ i. i < n) (consumers x ds)
unfolding consumers
consumers_below n x [] h = tt
consumers_below n x (d ∷ ds) h = ground (arith, consumers_below n x ds h.1)

pub release_each-IsTracked :
    (ds : List Dependency) (n : ℕ) (nexts : List ℕ) (degrees : Degrees) (ready taken : List ℕ)
    → All (λ i. i < n) nexts
    → IsTracked ds n degrees ready taken nexts
    → IsTracked ds n
        (release_each nexts degrees ready).0
        (release_each nexts degrees ready).1
        taken
        []
unfolding release_each
release_each-IsTracked ds n [] degrees ready taken below t = t
release_each-IsTracked ds n (next ∷ nexts) degrees ready taken below t =
    release_each-IsTracked ds n nexts (decrement next degrees) _ taken below.1
      (one-step ds n degrees ready taken nexts next below.0 t)

-- A component is taken from what is ready.
pub take-IsTracked :
    (less : ℕ → ℕ → Bool) (ds : List Dependency) (n : ℕ) (degrees : Degrees)
    (ready taken rest : List ℕ) (current : ℕ)
    → sort less ready ≡ current ∷ rest
    → IsTracked ds n degrees ready taken []
    → IsTracked ds n degrees rest (current ∷ taken) (consumers current ds)
take-IsTracked less ds n degrees ready taken rest current sorted t =
    let moved : (i : ℕ) → times i (current ∷ rest) ≡ times i ready =
      λ i. ap (times i) (sym sorted) ∙ times-sort less i ready in
    let fresh : times current taken ≡ 0 = ground (arith, moved current, t.once current) in
    record {
      counts = λ i. omega (arith, t.counts i, missing-cons current taken ds i fresh);
      free = λ i h. ground (arith, moved i, t.free i);
      once = λ i. ground (arith, moved i, t.once i);
      found = λ i b z. ground (arith, moved i, t.found i b z);
      known = λ i h. ground (arith, moved i, t.known i);
    }

times-ready_below :
    (i n : ℕ) (degrees : Degrees)
    → times i (ready_below n degrees) ≡ (if ltb i n && degrees i == 0 then 1 else 0)
unfolding ready_below
times-ready_below i zero degrees = ground arith
times-ready_below i (suc n) degrees =
    ground (arith, times-ready_below i n degrees, times-append i (ready_below n degrees) (n ∷ []))

pub start-IsTracked :
    (ds : List Dependency) (n : ℕ)
    → IsTracked ds n (indegree ds) (ready_below n (indegree ds)) [] []
start-IsTracked ds n = record {
  counts = λ i. omega (arith, indegree-missing ds i);
  free = λ i h. ground (arith, times-ready_below i n (indegree ds));
  once = λ i. ground (arith, times-ready_below i n (indegree ds));
  found = λ i b z. ground (arith, times-ready_below i n (indegree ds));
  known = λ i h. ground (arith, times-ready_below i n (indegree ds));
}

-- Each component is one of `n`, stands there once, and misses no provider before it.
abbrev pub IsOrdered : List Dependency → ℕ → List ℕ → List ℕ → Type 0
IsOrdered ds n before [] = Unit
IsOrdered ds n before (x ∷ xs) =
    (x < n) × (missing before ds x ≡ 0) × (times x before ≡ 0) × IsOrdered ds n (x ∷ before) xs

first_free :
    (less : ℕ → ℕ → Bool) (ds : List Dependency) (n : ℕ) (degrees : Degrees)
    (ready taken rest : List ℕ) (current : ℕ)
    → sort less ready ≡ current ∷ rest
    → IsTracked ds n degrees ready taken []
    → (current < n) × (missing taken ds current ≡ 0) × (times current taken ≡ 0)
first_free less ds n degrees ready taken rest current sorted t =
    let moved : times current (current ∷ rest) ≡ times current ready =
      ap (times current) (sym sorted) ∙ times-sort less current ready in
    let free : degrees current ≡ 0 = ground (arith, t.free current) in
    (
      ground (arith, t.known current),
      ground (arith, t.counts current),
      ground (arith, t.once current),
    )

order_from-IsOrdered :
    (less : ℕ → ℕ → Bool) (ds : List Dependency) (n k : ℕ) (degrees : Degrees)
    (ready taken : List ℕ)
    → All (λ d. d.consumer < n) ds
    → IsTracked ds n degrees ready taken []
    → IsOrdered ds n taken (order_from less ds k degrees ready)
unfolding order_from
order_from-IsOrdered less ds n zero degrees ready taken below t = tt
order_from-IsOrdered less ds n (suc k) degrees ready taken below t =
    go (λ degrees ready taken. order_from-IsOrdered less ds n k degrees ready taken below)
      (sort less ready) refl
  where
    go :
        (ih : (degrees : Degrees) (ready taken : List ℕ)
          → IsTracked ds n degrees ready taken []
          → IsOrdered ds n taken (order_from less ds k degrees ready))
        (sorted : List ℕ)
        → sort less ready ≡ sorted
        → IsOrdered ds n taken (elim sorted [
          | [] ↦ []
          | current ∷ rest ↦
              let next = release_each (consumers current ds) degrees rest in
              current ∷ order_from less ds k next.0 next.1
        ])
    go ih [] e = tt
    go ih (current ∷ rest) e =
        let first = first_free less ds n degrees ready taken rest current e t in
        (
          first.0,
          first.1,
          first.2,
          ih _ _ _ (
              release_each-IsTracked ds n (consumers current ds) degrees rest (current ∷ taken)
                (consumers_below n current ds below)
                (take-IsTracked less ds n degrees ready taken rest current e t)),
        )

-- Where every consumer is a component, every entry of the order is a component and stands there once, and each of
-- its dependencies on a component has that component before it.
pub order_indexes-IsOrdered :
    (less : ℕ → ℕ → Bool) (ds : List Dependency) (n : ℕ)
    → All (λ d. d.consumer < n) ds
    → IsOrdered ds n [] (order_indexes less ds n)
unfolding order_indexes
order_indexes-IsOrdered less ds n below =
    order_from-IsOrdered less ds n n _ _ [] below (start-IsTracked ds n)
