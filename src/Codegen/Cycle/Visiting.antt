-- ===== src/Codegen/Cycle/Visiting.antt =====
-- What a visit of the search for a cycle does (cool-next/codegen/topology.go): it returns a cycle,
-- or every component that it reaches is done.
use cool_admin_go_next.Common.{
  ℕ, zero, suc, ◌≤◌, ◌<◌, ◌==◌, Bool, true, false, List, [], ◌∷◌, ◌++◌, ◌≡◌, refl, sym, ap, ◌∙◌,
  inl, inr, Bool-cases, arith,
}
use cool_admin_go_next.Codegen.Topology.{Dependency}
use cool_admin_go_next.Codegen.Cycle.{
  Edge, adjacency, States, set_state, Search, found, clear, from, after, visit_each, visit,
}
use cool_admin_go_next.Codegen.Cycle.Chains.{
  depends, has, has-adjacency, IsChain, IsCycle, IsChain-grows, from-IsCycle,
}
use cool_admin_go_next.Codegen.Cycle.States.{
  IsLater, unvisited, unvisited_later, unvisited_less, IsVisited, opened-IsVisited, done-IsVisited,
}

abbrev pub Fits : List Dependency → List ℕ → States → ℕ → Search → Type 0
Fits ds stack before current (found cycle position) = IsCycle ds cycle
Fits ds stack before current (clear states) =
    IsLater before states × IsVisited ds states stack × (states current ≡ 2)

ends_all :
    (q p : ℕ) (before states : States)
    → IsLater before states
    → states q ≡ 2
    → ((q == p) ≡ false → before p ≡ 2)
    → states p ≡ 2
ends_all q p before states later here other = elim (Bool-cases (q == p)) [
  | inl same ↦ let is : p ≡ q = ground (arith, same) in ap states is ∙ here
  | inr differs ↦ ground (arith, other differs, later p)
]

module _ (ds : List Dependency) (n : ℕ) (below : (x p : ℕ) → depends ds x p ≡ true → p < n) where
  abbrev Visits : ℕ → List ℕ → (States → List ℕ → ℕ → Search) → Type 0
  Visits fuel stack visit =
      (states : States) (x : ℕ)
      → IsVisited ds states stack
      → states x ≡ 0
      → x < n
      → unvisited n states ≤ fuel
      → IsChain ds (stack ++ x ∷ [])
      → Fits ds stack states x (visit states stack x)

  after-Fits :
      (stack inner : List ℕ) (before states : States) (current p : ℕ) (go_on : States → Search)
      (result : Search)
      → ((next : States)
          → Fits ds inner states p (clear next)
          → Fits ds stack before current (go_on next))
      → Fits ds inner states p result
      → Fits ds stack before current (after go_on result)
  after-Fits stack inner before states current p go_on (found cycle position) h fits = fits
  after-Fits stack inner before states current p go_on (clear next) h fits = h next fits

  visit_each-Fits :
      (fuel : ℕ) (visit : States → List ℕ → ℕ → Search) (stack : List ℕ) (current : ℕ)
      (before states : States) (es : List Edge)
      → Visits fuel (stack ++ current ∷ []) visit
      → IsChain ds (stack ++ current ∷ [])
      → before current ≡ 0
      → IsLater before states
      → states current ≡ 1
      → unvisited n states ≤ fuel
      → IsVisited ds states (stack ++ current ∷ [])
      → ((p : ℕ) → has p es ≡ true → depends ds current p ≡ true)
      → ((p : ℕ) → depends ds current p ≡ true → has p es ≡ false → states p ≡ 2)
      → Fits ds stack before current (visit_each visit es states (stack ++ current ∷ []) current)
  unfolding visit_each
  visit_each-Fits fuel visit stack current before states [] visits chain z later one enough v are
        done =
      (
        (λ i h. ground (arith, later i, z, h)),
        done-IsVisited ds states stack current one (λ p d. done p d refl) v,
        ground arith,
      )
  visit_each-Fits fuel visit stack current before states (e ∷ es) visits chain z later one enough v
        are done =
      go (λ next. visit_each-Fits fuel visit stack current before next es visits chain z)
        (states e.provider) refl
    where
      go :
          (ih : (next : States)
            → IsLater before next
            → next current ≡ 1
            → unvisited n next ≤ fuel
            → IsVisited ds next (stack ++ current ∷ [])
            → ((p : ℕ) → has p es ≡ true → depends ds current p ≡ true)
            → ((p : ℕ) → depends ds current p ≡ true → has p es ≡ false → next p ≡ 2)
            → Fits ds stack before current
                (visit_each visit es next (stack ++ current ∷ []) current))
          (state : ℕ)
          → states e.provider ≡ state
          → Fits ds stack before current (elim state [
            | zero ↦
                after
                  (λ next. visit_each visit es next (stack ++ current ∷ []) current)
                  (visit states (stack ++ current ∷ []) e.provider)
            | suc state ↦ elim state [
              | zero ↦ found (from e.provider (stack ++ current ∷ []) ++ e.provider ∷ []) e.position
              | suc _ ↦ visit_each visit es states (stack ++ current ∷ []) current
            ]
          ])
      go ih zero s =
          let depending : depends ds current e.provider ≡ true = are e.provider (ground arith) in
          after-Fits stack (stack ++ current ∷ []) before states current e.provider _ _
            (λ next fits.
              ih next (λ i h. ground (arith, later i h, fits.0 i, h))
                (ground (arith, fits.0 current, one))
                (omega (arith, enough, unvisited_later n states next fits.0)) fits.1
                (λ p h. are p (ground (arith, h)))
                (λ p d h.
                  ends_all e.provider p states next fits.0 fits.2
                    (λ other. done p d (ground (arith, other, h)))))
            (visits states e.provider v s (below current e.provider depending) enough
              (IsChain-grows ds stack current e.provider chain depending))
      go ih (suc zero) s =
          let depending : depends ds current e.provider ≡ true = are e.provider (ground arith) in
          from-IsCycle ds e.provider (stack ++ current ∷ [])
            (IsChain-grows ds stack current e.provider chain depending) (v.stacked e.provider s)
      go ih (suc (suc k)) s =
          ih states later one enough v (λ p h. are p (ground (arith, h)))
            (λ p d h.
              ends_all e.provider p states states (λ i b. refl)
                (omega (arith, s, v.small e.provider))
                (λ other. done p d (ground (arith, other, h))))

  pub visit-Fits :
      (less : ℕ → ℕ → Bool) (fuel : ℕ) (stack : List ℕ) → Visits fuel stack (visit less ds fuel)
  unfolding visit
  visit-Fits less zero stack states x v z h enough chain =
      absurd (omega (arith, unvisited_less n x states h z, enough))
  visit-Fits less (suc fuel) stack states x v z h enough chain =
      visit_each-Fits fuel (visit less ds fuel) stack x states (set_state x 1 states)
        (adjacency less ds x) (visit-Fits less fuel (stack ++ x ∷ [])) chain z
        (λ i b. ground (arith, z, b)) (ground arith)
        (omega (arith, unvisited_less n x states h z, enough))
        (opened-IsVisited ds states stack x z v) (λ p h. sym (has-adjacency less p x ds) ∙ h)
        (λ p d h. absurd (cc (d, h, has-adjacency less p x ds)))
