-- ===== src/Codegen/Topology/Waiting.antt =====
-- What the degrees of the loop count (cool-next/codegen/topology.go).
use cool_admin_go_next.Common.{
  ℕ, suc, ◌+◌, ◌-◌, ◌≤◌, ◌<◌, ◌==◌, Bool, false, List, [], ◌∷◌, ◌++◌, Option, none, some,
  if◌then◌else◌, ◌&&◌, ◌≡◌, refl, arith,
}
use cool_admin_go_next.Codegen.Topology.{Dependency, consumers, indegree, Degrees, decrement}
use cool_admin_go_next.Codegen.Topology.Counting.{times, times-append}

-- The provider of a dependency is a component that does not stand among `before`.
abbrev pub is_missing : List ℕ → Dependency → Bool
is_missing before d = elim d.provider [ none ↦ false | some p ↦ times p before == 0 ]

-- How many dependencies of a component have a provider that does not stand before it.
unfoldable pub missing : List ℕ → List Dependency → ℕ → ℕ
missing before [] index = 0
missing before (d ∷ ds) index =
    let rest = missing before ds index in
    if is_missing before d && d.consumer == index then suc rest else rest

pub indegree-missing : (ds : List Dependency) (index : ℕ) → indegree ds index ≡ missing [] ds index
unfolding indegree missing
indegree-missing [] index = refl
indegree-missing (d ∷ ds) index = go (indegree-missing ds index) d.provider
  where
    go :
        (ih : indegree ds index ≡ missing [] ds index) (p : Option ℕ)
        → indegree (record d { provider = p } ∷ ds) index
          ≡ missing [] (record d { provider = p } ∷ ds) index
    go ih none = ih
    go ih (some p) = ground (arith, ih)

-- One more component stands before: its consumers miss one provider less each.
pub missing-cons :
    (x : ℕ) (before : List ℕ) (ds : List Dependency) (index : ℕ)
    → times x before ≡ 0
    → missing before ds index ≡ missing (x ∷ before) ds index + times index (consumers x ds)
unfolding missing consumers
missing-cons x before [] index h = omega arith
missing-cons x before (d ∷ ds) index h = go (missing-cons x before ds index h) d.provider
  where
    go :
        (ih : missing before ds index
          ≡ missing (x ∷ before) ds index + times index (consumers x ds))
        (p : Option ℕ)
        → missing before (record d { provider = p } ∷ ds) index
          ≡ missing (x ∷ before) (record d { provider = p } ∷ ds) index
            + times index (consumers x (record d { provider = p } ∷ ds))
    go ih none = ih
    go ih (some p) = ground (arith, ih)

-- The state of the loop over the consumers `rest` of a component: the degrees count what is missing
-- before the components that were `taken`, and the consumers to come; what is `ready` or taken misses
-- nothing and stands there once, and what misses nothing stands there.
pub record IsTracked (ds : List Dependency) (n : ℕ) (degrees : Degrees) (ready taken rest : List ℕ)
    : Type 0 where
  pub counts : (i : ℕ) → degrees i ≡ missing taken ds i + times i rest
  pub free : (i : ℕ) → 0 < times i ready + times i taken → degrees i ≡ 0
  pub once : (i : ℕ) → times i ready + times i taken ≤ 1
  pub found : (i : ℕ) → i < n → degrees i ≡ 0 → 0 < times i ready + times i taken
  pub known : (i : ℕ) → 0 < times i ready + times i taken → i < n

abbrev pub admit : ℕ → Degrees → List ℕ → List ℕ
admit next degrees ready = if decrement next degrees next == 0 then ready ++ next ∷ [] else ready

times-admit :
    (next i : ℕ) (degrees : Degrees) (ready : List ℕ)
    → times i (admit next degrees ready)
      ≡ times i ready + (if degrees next - 1 == 0 && next == i then 1 else 0)
times-admit next i degrees ready = ground (arith, times-append i ready (next ∷ []))

pub one-step :
    (ds : List Dependency) (n : ℕ) (degrees : Degrees) (ready taken rest : List ℕ) (next : ℕ)
    → next < n
    → IsTracked ds n degrees ready taken (next ∷ rest)
    → IsTracked ds n (decrement next degrees) (admit next degrees ready) taken rest
one-step ds n degrees ready taken rest next small t = record {
  counts = λ i. ground (arith, t.counts i);
  free = λ i h. ground (arith, times-admit next i degrees ready, t.free i);
  once =
      λ i. ground (arith, times-admit next i degrees ready, t.once i, t.free next, t.counts next);
  found = λ i b z. ground (arith, times-admit next i degrees ready, t.found i, t.counts next);
  known = λ i h. ground (arith, times-admit next i degrees ready, t.known i);
}
