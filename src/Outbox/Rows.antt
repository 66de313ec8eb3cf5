-- ===== src/Outbox/Rows.antt =====
-- What the statements do to a list of rows: predicates of every row, and the primary key.
use cool_admin_go_next.Common.{
  ◌≡◌, refl, ◌∙◌, Bool, true, false, ◌||◌, List, [], ◌∷◌, ◌++◌, Text, arith, text_eq, text_eq_iff,
  any, All, if◌then◌else◌,
}
use cool_admin_go_next.Outbox.Record.{Row}
use cool_admin_go_next.Outbox.Statements.{update, delete, has_id}

abbrev pub ids : List Row → List Text
ids [] = []
ids (r ∷ rows) = r.message_id ∷ ids rows

-- No two rows share a message id: the table's primary key.
abbrev pub Distinct : List Row → Type 0
Distinct [] = Unit
Distinct (r ∷ rows) = (any (has_id r.message_id) rows ≡ false) × Distinct rows

abbrev pub updated : (Row → Bool) → (Row → Row) → Row → Row
updated test set r = if test r then set r else r

module _ {κ} (P : Row → Type κ) (test : Row → Bool) where
  pub All-update :
      (set : Row → Row) (rows : List Row)
      → ((r : Row) → test r ≡ true → P r → P (set r))
      → All P rows
      → All P (update test set rows)
  unfolding update
  All-update set [] keep h = tt
  All-update set (r ∷ rows) keep h = (one (test r) refl h.0, All-update set rows keep h.1)
    where
      one : (b : Bool) → test r ≡ b → P r → P (if b then set r else r)
      one true e p = keep r e p
      one false e p = p

  pub All-delete : (rows : List Row) → All P rows → All P (delete test rows)
  unfolding delete
  All-delete [] h = tt
  All-delete (r ∷ rows) h =
      elim (test r)
        as (λ b. All P (elim b [ true ↦ delete test rows | false ↦ r ∷ delete test rows ])) [
          | true ↦ All-delete rows h.1
          | false ↦ (h.0, All-delete rows h.1)
        ]

module _ (p test : Row → Bool) where
  -- A test that the update leaves alone on every row.
  pub any-update :
      (set : Row → Row) (rows : List Row)
      → ((r : Row) → p (set r) ≡ p r)
      → any p (update test set rows) ≡ any p rows
  unfolding update
  any-update set [] keep = refl
  any-update set (r ∷ rows) keep = ground (arith, keep r, any-update set rows keep)

  -- A test that no updated row passes.
  pub any-update-false :
      (set : Row → Row) (rows : List Row)
      → ((r : Row) → test r ≡ true → p r ≡ false → p (set r) ≡ false)
      → any p rows ≡ false
      → any p (update test set rows) ≡ false
  unfolding update
  any-update-false set [] keep h = refl
  any-update-false set (r ∷ rows) keep h = ground (arith, keep r, any-update-false set rows keep)

  pub any-delete : (rows : List Row) → any p rows ≡ false → any p (delete test rows) ≡ false
  unfolding delete
  any-delete [] h = refl
  any-delete (r ∷ rows) h = ground (arith, any-delete rows)

pub any-append : (p : Row → Bool) (xs ys : List Row) → any p (xs ++ ys) ≡ (any p xs || any p ys)
any-append p [] ys = refl
any-append p (x ∷ xs) ys = ground (arith, any-append p xs ys)

pub Distinct-update :
    (test : Row → Bool) (set : Row → Row) (rows : List Row)
    → ((r : Row) → (set r).message_id ≡ r.message_id)
    → Distinct rows
    → Distinct (update test set rows)
unfolding update
Distinct-update test set [] same h = tt
Distinct-update test set (r ∷ rows) same h = (head (test r), Distinct-update test set rows same h.1)
  where
    kept : any (has_id r.message_id) (update test set rows) ≡ false
    kept = any-update (has_id r.message_id) test set rows (λ s. rw (same s)) ∙ h.0

    head :
        (b : Bool) → any (has_id (if b then set r else r).message_id) (update test set rows) ≡ false
    head true = rw (same r) kept
    head false = kept

pub Distinct-delete :
    (test : Row → Bool) (rows : List Row) → Distinct rows → Distinct (delete test rows)
unfolding delete
Distinct-delete test [] h = tt
Distinct-delete test (r ∷ rows) h =
    elim (test r)
      as (λ b. Distinct (elim b [ true ↦ delete test rows | false ↦ r ∷ delete test rows ])) [
        | true ↦ Distinct-delete test rows h.1
        | false ↦ (any-delete (has_id r.message_id) test rows h.0, Distinct-delete test rows h.1)
      ]

pub text_eq_sym : (s t : Text) → text_eq s t ≡ text_eq t s
text_eq_sym s t = ground (arith, text_eq_iff s t, text_eq_iff t s)

pub Distinct-enter :
    (rows : List Row) (r : Row)
    → any (has_id r.message_id) rows ≡ false
    → Distinct rows
    → Distinct (rows ++ r ∷ [])
Distinct-enter [] r new h = (refl, tt)
Distinct-enter (s ∷ rows) r new h = (
  ground (
    arith,
    any-append (has_id s.message_id) rows (r ∷ []),
    text_eq_sym s.message_id r.message_id,
  ),
  Distinct-enter rows r (ground arith) h.1,
)
