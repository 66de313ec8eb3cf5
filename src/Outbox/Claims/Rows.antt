-- ===== src/Outbox/Claims/Rows.antt =====
-- The rows that the update of a claim leaves, and the one that is read back.
use cool_admin_go_next.Common.{
  ℕ, ◌+◌, ◌≡◌, refl, inl, inr, Bool, true, false, List, [], ◌∷◌, Text, arith, some, any, All, count,
  filter, text_eq_iff, Bool-cases, if◌then◌else◌, subst, ◌<◌,
}
use cool_admin_go_next.Outbox.Record.{Row, leased}
use cool_admin_go_next.Outbox.Statements.{
  Kind, mysql, postgres, sqlite, Pool, any_due, available, expired, has_id, held_by, claim_where,
  claim_set, update, duration_argument,
}
use cool_admin_go_next.Outbox.Rows.{Distinct, any-update-false}

-- A positive duration stays positive in the unit of the column, on every database.
duration_argument-pos : (kind : Kind) (d : ℕ) → 0 < d → 0 < duration_argument kind d
unfolding duration_argument
duration_argument-pos mysql d h = ground arith
duration_argument-pos postgres d h = ground arith
duration_argument-pos sqlite d h = ground arith

module _ {κ} (Q : Row → Type κ) (id : Text) where
  none_have :
      (rows : List Row) → any (has_id id) rows ≡ false → All (λ r. has_id id r ≡ true → Q r) rows
  none_have [] h = tt
  none_have (r ∷ rows) h =
      ((λ e. absurd (cc (any_head (has_id id) r rows h e))), none_have rows (ground arith))
    where
      any_head :
          (p : Row → Bool) (r : Row) (rows : List Row)
          → any p (r ∷ rows) ≡ false
          → p r ≡ true
          → true ≡ false
      any_head p r rows h e = ground arith

  -- The first row that is held is one of the rows with the id.
  pub filter-head :
      (token : Text) (rows rest : List Row) (x : Row)
      → All (λ r. has_id id r ≡ true → Q r) rows
      → filter (held_by id token) rows ≡ x ∷ rest
      → Q x × (held_by id token x ≡ true)
  filter-head token [] rest x all e = absurd (cc)
  filter-head token (r ∷ rows) rest x all e = elim (Bool-cases (held_by id token r)) [
    | inl h ↦
        let same : r ≡ x = first (held_by id token r) h e in
        (subst Q same (all.0 (ground arith)), subst (λ y. held_by id token y ≡ true) same h)
    | inr h ↦ filter-head token rows rest x all.1 (later (held_by id token r) h e)
  ]
    where
      first :
          (b : Bool)
          → b ≡ true
          → (elim b [
            | true ↦ r ∷ filter (held_by id token) rows
            | false ↦ filter (held_by id token) rows
          ])
            ≡ x ∷ rest
          → r ≡ x
      first true h e = cc
      first false h e = absurd (cc)

      later :
          (b : Bool)
          → b ≡ false
          → (elim b [
            | true ↦ r ∷ filter (held_by id token) rows
            | false ↦ filter (held_by id token) rows
          ])
            ≡ x ∷ rest
          → filter (held_by id token) rows ≡ x ∷ rest
      later true h e = absurd (cc)
      later false h e = e

any-imp :
    (p q : Row → Bool) (rows : List Row)
    → ((r : Row) → p r ≡ true → q r ≡ true)
    → any p rows ≡ true
    → any q rows ≡ true
any-imp p q [] f h = h
any-imp p q (r ∷ rows) f h = ground (arith, f r, any-imp p q rows f)

-- With distinct ids, a message that some row offers is offered by its only row.
pub only_row :
    (pool : Pool) (now : ℕ) (id : Text) (rows : List Row)
    → Distinct rows
    → any (claim_where pool now id) rows ≡ true
    → All (λ r. has_id id r ≡ true → claim_where pool now id r ≡ true) rows
only_row pool now id [] d h = tt
only_row pool now id (r ∷ rows) d h = elim (Bool-cases (claim_where pool now id r)) [
  | inl w ↦
      let same : r.message_id ≡ id = (text_eq_iff r.message_id id).0 (ground arith) in
      ((λ _. w), none_have _ id rows (subst (λ t. any (has_id t) rows ≡ false) same d.0))
  | inr w ↦
      let tail : any (claim_where pool now id) rows ≡ true = ground arith in
      ((λ e. absurd (clash e tail)), only_row pool now id rows d.1 tail)
]
  where
    clash : has_id id r ≡ true → any (claim_where pool now id) rows ≡ true → ⊥
    clash e tail =
        let same : r.message_id ≡ id = (text_eq_iff r.message_id id).0 e in
        let none : any (has_id id) rows ≡ false =
          subst (λ t. any (has_id t) rows ≡ false) same d.0 in
        let some : any (has_id id) rows ≡ true =
          any-imp (claim_where pool now id) (has_id id) rows (λ s w. ground arith) tail in
        cc

pub count_one : (p : Row → Bool) (rows : List Row) → count p rows ≡ 1 → any p rows ≡ true
count_one p [] h = absurd (omega arith)
count_one p (r ∷ rows) h = ground (arith, count_one p rows)

module _ (kind : Kind) (owner : Text) (duration : ℕ) (now : ℕ) where
  -- The row of a record that a claim returns.
  pub record Leased (r : Row) : Type 0 where
    pub status : r.status ≡ leased
    pub owned : r.lease_owner ≡ some owner
    pub until : r.lease_expires_at ≡ some (now + duration_argument kind duration)

  pub update-Leased :
      (pool : Pool) (id token : Text) (rows : List Row)
      → All (λ r. has_id id r ≡ true → claim_where pool now id r ≡ true) rows
      → All
          (λ r. has_id id r ≡ true → Leased r)
          (update (claim_where pool now id) (claim_set kind pool now owner token duration) rows)
  unfolding update claim_set
  update-Leased pool id token [] h = tt
  update-Leased pool id token (r ∷ rows) h =
      (one (claim_where pool now id r) refl, update-Leased pool id token rows h.1)
    where
      one :
          (b : Bool)
          → claim_where pool now id r ≡ b
          → has_id id (if b then claim_set kind pool now owner token duration r else r) ≡ true
          → Leased (if b then claim_set kind pool now owner token duration r else r)
      one true e i = record { status = refl; owned = refl; until = refl }
      one false e i = absurd (cc (h.0 i))

not_due :
    (pool : Pool) (now d : ℕ) (i : Text) (r : Row)
    → 0 < d
    → r.status ≡ leased
    → r.lease_expires_at ≡ some (now + d)
    → claim_where pool now i r ≡ false
not_due any_due now d i r h s e = rw (s, e) (ground arith)
not_due available now d i r h s e = rw s (ground arith)
not_due expired now d i r h s e = rw (s, e) (ground arith)

-- A claim with a positive duration makes no message due that was not due before.
pub claim-due :
    (kind : Kind) (owner : Text) (duration now : ℕ) (pool : Pool) (i id token : Text)
    (rows : List Row)
    → 0 < duration
    → any (claim_where pool now i) rows ≡ false
    → any
        (claim_where pool now i)
        (update (claim_where pool now id) (claim_set kind pool now owner token duration) rows)
      ≡ false
unfolding claim_set
claim-due kind owner duration now pool i id token rows positive h =
    any-update-false (claim_where pool now i) (claim_where pool now id)
      (claim_set kind pool now owner token duration) rows
      (λ r _ _.
        not_due pool now (duration_argument kind duration) i
          (claim_set kind pool now owner token duration r)
          (duration_argument-pos kind duration positive) refl refl)
      h
