-- ===== src/Codegen/Cycle/Chains.antt =====
-- Cycles of dependencies, and the edges that the search follows (cool-next/codegen/topology.go).
use cool_admin_go_next.Common.{
  ℕ, ◌<◌, ◌==◌, Bool, true, false, List, [], ◌∷◌, ◌++◌, Option, none, some, if◌then◌else◌, ◌&&◌,
  ◌||◌, ◌≡◌, refl, ap, ◌∙◌, arith,
}
use cool_admin_go_next.Codegen.Topology.{Dependency, is_provided_by, insert, sort}
use cool_admin_go_next.Codegen.Topology.Counting.{times}
use cool_admin_go_next.Codegen.Cycle.{Edge, edges, adjacency, from}

-- A component depends on another one.
unfoldable pub depends : List Dependency → ℕ → ℕ → Bool
depends [] consumer provider = false
depends (d ∷ ds) consumer provider =
    d.consumer == consumer && is_provided_by provider d || depends ds consumer provider

abbrev pub has : ℕ → List Edge → Bool
has p [] = false
has p (e ∷ es) = e.provider == p || has p es

has-insert :
    (less : Edge → Edge → Bool) (p : ℕ) (e : Edge) (es : List Edge)
    → has p (insert less e es) ≡ has p (e ∷ es)
unfolding insert
has-insert less p e [] = refl
has-insert less p e (x ∷ es) = ground (arith, has-insert less p e es)

has-sort : (less : Edge → Edge → Bool) (p : ℕ) (es : List Edge) → has p (sort less es) ≡ has p es
unfolding sort
has-sort less p [] = refl
has-sort less p (e ∷ es) = ground (arith, has-insert less p e (sort less es), has-sort less p es)

has-edges : (p x : ℕ) (ds : List Dependency) → has p (edges x ds) ≡ depends ds x p
unfolding edges depends
has-edges p x [] = refl
has-edges p x (d ∷ ds) = go (has-edges p x ds) d.provider
  where
    go :
        (ih : has p (edges x ds) ≡ depends ds x p) (provider : Option ℕ)
        → has p (edges x (record d { provider = provider } ∷ ds))
          ≡ depends (record d { provider = provider } ∷ ds) x p
    go ih none = ground (arith, ih)
    go ih (some q) = ground (arith, ih)

pub has-adjacency :
    (less : ℕ → ℕ → Bool) (p x : ℕ) (ds : List Dependency)
    → has p (adjacency less ds x) ≡ depends ds x p
unfolding adjacency
has-adjacency less p x ds =
    has-sort (λ a b. less a.provider b.provider) p (edges x ds) ∙ has-edges p x ds

-- Each element depends on the next one.
abbrev pub IsChain : List Dependency → List ℕ → Type 0
IsChain ds [] = Unit
IsChain ds (x ∷ []) = Unit
IsChain ds (x ∷ y ∷ ys) = (depends ds x y ≡ true) × IsChain ds (y ∷ ys)

-- A chain that ends where it begins.
abbrev pub IsCycle : List Dependency → List ℕ → Type 0
IsCycle ds cycle = (x : ℕ) × (xs : List ℕ) × (cycle ≡ x ∷ xs ++ x ∷ []) × IsChain ds cycle

IsChain-tail : (ds : List Dependency) (x : ℕ) (xs : List ℕ) → IsChain ds (x ∷ xs) → IsChain ds xs
IsChain-tail ds x [] h = tt
IsChain-tail ds x (y ∷ ys) h = h.1

pub IsChain-grows :
    (ds : List Dependency) (xs : List ℕ) (x y : ℕ)
    → IsChain ds (xs ++ x ∷ [])
    → depends ds x y ≡ true
    → IsChain ds ((xs ++ x ∷ []) ++ y ∷ [])
IsChain-grows ds [] x y h d = (d, tt)
IsChain-grows ds (a ∷ []) x y h d = (h.0, (d, tt))
IsChain-grows ds (a ∷ b ∷ xs) x y h d = (h.0, IsChain-grows ds (b ∷ xs) x y h.1 d)

pub from-IsCycle :
    (ds : List Dependency) (p : ℕ) (xs : List ℕ)
    → IsChain ds (xs ++ p ∷ [])
    → 0 < times p xs
    → IsCycle ds (from p xs ++ p ∷ [])
unfolding from
from-IsCycle ds p [] c h = absurd (omega (arith, h))
from-IsCycle ds p (x ∷ xs) c h = go (from-IsCycle ds p xs (IsChain-tail ds x _ c)) (x == p) refl
  where
    go :
        (ih : 0 < times p xs → IsCycle ds (from p xs ++ p ∷ [])) (is : Bool)
        → (x == p) ≡ is
        → IsCycle ds ((if is then x ∷ xs else from p xs) ++ p ∷ [])
    go ih true e =
        let same : x ≡ p = ground (arith, e) in (p, xs, ap (λ z. z ∷ xs ++ p ∷ []) same, c)
    go ih false e = ih (ground (arith, e, h))
