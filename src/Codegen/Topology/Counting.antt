-- ===== src/Codegen/Topology/Counting.antt =====
-- How often an index stands in a list, and how long a list without repetitions can be.
use cool_admin_go_next.Common.{
  ℕ, zero, suc, ◌+◌, ◌≤◌, ◌<◌, ◌==◌, Bool, List, [], ◌∷◌, ◌++◌, length, if◌then◌else◌, ◌≡◌, refl,
  arith,
}
use cool_admin_go_next.Codegen.Topology.{insert, sort}

abbrev pub times : ℕ → List ℕ → ℕ
times i [] = 0
times i (x ∷ xs) = if x == i then suc (times i xs) else times i xs

pub times-append : (i : ℕ) (xs ys : List ℕ) → times i (xs ++ ys) ≡ times i xs + times i ys
times-append i [] ys = omega arith
times-append i (x ∷ xs) ys = ground (arith, times-append i xs ys)

times-insert :
    (less : ℕ → ℕ → Bool) (i x : ℕ) (ys : List ℕ) → times i (insert less x ys) ≡ times i (x ∷ ys)
unfolding insert
times-insert less i x [] = refl
times-insert less i x (y ∷ ys) = ground (arith, times-insert less i x ys)

pub times-sort : (less : ℕ → ℕ → Bool) (i : ℕ) (xs : List ℕ) → times i (sort less xs) ≡ times i xs
unfolding sort
times-sort less i [] = refl
times-sort less i (x ∷ xs) =
    ground (arith, times-insert less i x (sort less xs), times-sort less i xs)

abbrev remove : ℕ → List ℕ → List ℕ
remove i [] = []
remove i (x ∷ xs) = if x == i then remove i xs else x ∷ remove i xs

length-remove : (i : ℕ) (xs : List ℕ) → length xs ≡ times i xs + length (remove i xs)
length-remove i [] = omega arith
length-remove i (x ∷ xs) = ground (arith, length-remove i xs)

times-remove : (i j : ℕ) (xs : List ℕ) → times j (remove i xs) ≡ (if i == j then 0 else times j xs)
times-remove i j [] = ground arith
times-remove i j (x ∷ xs) = ground (arith, times-remove i j xs)

-- A list of numbers below `n`, each once at most, has `n` elements at most.
pub length-le :
    (n : ℕ) (xs : List ℕ)
    → ((i : ℕ) → times i xs ≤ 1)
    → ((i : ℕ) → 0 < times i xs → i < n)
    → length xs ≤ n
length-le zero [] once below = omega arith
length-le zero (x ∷ xs) once below = ground (arith, below x)
length-le (suc n) xs once below =
    let rest =
      length-le n (remove n xs) (λ i. ground (arith, times-remove n i xs, once i))
        (λ i h. ground (arith, times-remove n i xs, below i)) in
    omega (arith, length-remove n xs, once n)
