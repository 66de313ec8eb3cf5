-- ===== src/Codegen/Cycle/States.antt =====
-- The states of the search for a cycle (cool-next/codegen/topology.go).
use cool_admin_go_next.Common.{
  ℕ, zero, suc, ◌≤◌, ◌<◌, ◌==◌, true, false, List, [], ◌∷◌, ◌++◌, if◌then◌else◌, ◌≡◌, subst, ap,
  ◌⊎◌, inl, inr, Bool-cases, arith,
}
use cool_admin_go_next.Codegen.Topology.{Dependency}
use cool_admin_go_next.Codegen.Topology.Counting.{times, times-append}
use cool_admin_go_next.Codegen.Cycle.{States, set_state}
use cool_admin_go_next.Codegen.Cycle.Chains.{depends}

-- What was visited before has the state that it had.
abbrev pub IsLater : States → States → Type 0
IsLater before states = (i : ℕ) → 0 < before i → states i ≡ before i

-- How many of the first components were not visited.
abbrev pub unvisited : ℕ → States → ℕ
unvisited zero states = 0
unvisited (suc n) states = if states n == 0 then suc (unvisited n states) else unvisited n states

pub unvisited_later :
    (n : ℕ) (before states : States)
    → IsLater before states
    → unvisited n states ≤ unvisited n before
unvisited_later zero before states later = omega arith
unvisited_later (suc n) before states later =
    ground (arith, unvisited_later n before states later, later n)

pub unvisited_le : (n : ℕ) (states : States) → unvisited n states ≤ n
unvisited_le zero states = omega arith
unvisited_le (suc n) states = ground (arith, unvisited_le n states)

unvisited_above :
    (n x s : ℕ) (states : States) → n ≤ x → unvisited n (set_state x s states) ≡ unvisited n states
unvisited_above zero x s states h = omega arith
unvisited_above (suc n) x s states h = ground (arith, unvisited_above n x s states)

pub unvisited_less :
    (n x : ℕ) (states : States)
    → x < n
    → states x ≡ 0
    → suc (unvisited n (set_state x 1 states)) ≡ unvisited n states
unvisited_less zero x states h z = absurd (omega (arith, h))
unvisited_less (suc n) x states h z = go (unvisited_less n x states) (Bool-cases (n == x))
  where
    go :
        (ih : x < n → states x ≡ 0 → suc (unvisited n (set_state x 1 states)) ≡ unvisited n states)
        → (n == x) ≡ true ⊎ (n == x) ≡ false
        → suc (unvisited (suc n) (set_state x 1 states)) ≡ unvisited (suc n) states
    go ih (inl here) =
        let same : n ≡ x = ground (arith, here) in
        ground (arith, here, z, unvisited_above n x 1 states, ap states same)
    go ih (inr other) = ground (arith, other, h, z, ih)

-- A component is open as long as it stands on the stack, and one that is done depends on components
-- that were done before it: it has a rank above theirs.
pub record IsVisited (ds : List Dependency) (states : States) (stack : List ℕ) : Type 0 where
  pub rank : ℕ → ℕ
  pub bound : ℕ
  pub small : (i : ℕ) → states i ≤ 2
  pub stacked : (i : ℕ) → states i ≡ 1 → 0 < times i stack
  pub low : (i : ℕ) → states i ≡ 2 → rank i < bound
  pub ends : (i p : ℕ) → states i ≡ 2 → depends ds i p ≡ true → states p ≡ 2
  pub above : (i p : ℕ) → states i ≡ 2 → depends ds i p ≡ true → rank p < rank i

pub opened-IsVisited :
    (ds : List Dependency) (states : States) (stack : List ℕ) (x : ℕ)
    → states x ≡ 0
    → IsVisited ds states stack
    → IsVisited ds (set_state x 1 states) (stack ++ x ∷ [])
opened-IsVisited ds states stack x z v = record {
  rank = v.rank;
  bound = v.bound;
  small = λ i. ground (arith, v.small i);
  stacked = λ i h. ground (arith, v.stacked i, times-append i stack (x ∷ []));
  low = λ i h. ground (arith, v.low i);
  ends = λ i p h d. ground (arith, v.ends i p, d);
  above = λ i p h d. ground (arith, v.above i p, d);
}

pub done-IsVisited :
    (ds : List Dependency) (states : States) (stack : List ℕ) (x : ℕ)
    → states x ≡ 1
    → ((p : ℕ) → depends ds x p ≡ true → states p ≡ 2)
    → IsVisited ds states (stack ++ x ∷ [])
    → IsVisited ds (set_state x 2 states) stack
done-IsVisited ds states stack x entered all_done v =
    let moved : (i p : ℕ) → (x == i) ≡ true → depends ds i p ≡ true → depends ds x p ≡ true =
      λ i p here d.
        let same : i ≡ x = ground (arith, here) in subst (λ z. depends ds z p ≡ true) same d in
    record {
      rank = λ i. if x == i then v.bound else v.rank i;
      bound = suc v.bound;
      small = λ i. ground (arith, v.small i);
      stacked = λ i h. ground (arith, v.stacked i, times-append i stack (x ∷ []));
      low = λ i h. ground (arith, v.low i);
      ends = λ i p h d. elim (Bool-cases (x == i)) [
        | inl here ↦ ground (arith, all_done p (moved i p here d))
        | inr other ↦ ground (arith, other, v.ends i p, h, d)
      ];
      above = λ i p h d. elim (Bool-cases (x == i)) [
        | inl here ↦ grind (arith, here, entered, all_done p (moved i p here d), v.low p)
        | inr other ↦ ground (arith, other, v.ends i p, v.above i p, h, d, entered)
      ];
    }
