-- ===== src/Outbox/Inversion.antt =====
-- What an operation that ended well has gone through.
use cool_admin_go_next.Common.{
  ℕ, zero, suc, ◌≡◌, refl, sym, ◌∙◌, ap, Bool, true, false, Result, ok, err, if◌then◌else◌, ◌==◌,
}
use cool_admin_go_next.Outbox.Store.{
  Db, Tx, Failure, plain, sqlite_busy, cancelled, Fault, fine, busy, broken, unread, continue,
  ◌>>=◌, answer, transaction, settle, retry_busy, try_again,
}

pub pair-eq {ℓ κ} :
    {A : Type ℓ} {B : Type κ} {a c : A} {b d : B}
    → ◌≡◌ {A = A × B} (a, b) (c, d)
    → (a ≡ c) × (b ≡ d)
pair-eq e = (ap (λ p. p.0) e, ap (λ p. p.1) e)

pub continue-eq-ok :
    {A B : Type 0} (r : Result Failure A × Db) (f : A → Tx B) {b : B} {db' : Db}
    → continue r.0 f r.1 ≡ (ok b, db')
    → (a : A) × (mid : Db) × (r ≡ (ok a, mid)) × (f a mid ≡ (ok b, db'))
continue-eq-ok (ok a, mid) f h = (a, mid, refl, h)
continue-eq-ok (err e, mid) f h = absurd (cc (pair-eq h).0)

pub bind-eq-ok :
    {A B : Type 0} (m : Tx A) (f : A → Tx B) (db : Db) {b : B} {db' : Db}
    → (m >>= f) db ≡ (ok b, db')
    → (a : A) × (mid : Db) × (m db ≡ (ok a, mid)) × (f a mid ≡ (ok b, db'))
bind-eq-ok m f db h = continue-eq-ok (m db) f h

pub answer-eq-ok :
    {A : Type 0} (f : Fault) (a : A) (old new : Db) {b : A} {db' : Db}
    → answer f a old new ≡ (ok b, db')
    → (b ≡ a) × (db' ≡ new)
answer-eq-ok fine a old new h = (cc (pair-eq h).0, sym (pair-eq h).1)
answer-eq-ok busy a old new h = absurd (cc (pair-eq h).0)
answer-eq-ok broken a old new h = absurd (cc (pair-eq h).0)
answer-eq-ok unread a old new h = absurd (cc (pair-eq h).0)

pub settle-eq-ok :
    {A : Type 0} (old : Db) (r : Result Failure A × Db) {a : A} {db' : Db}
    → settle old r ≡ (ok a, db')
    → r ≡ (ok a, db')
settle-eq-ok old (ok a, db) h = h
settle-eq-ok old (err e, db) h = absurd (cc (pair-eq h).0)

settle-rows :
    {A : Type 0} (old : Db) (r : Result Failure A × Db) {e : Failure} {db' : Db}
    → settle old r ≡ (err e, db')
    → db'.rows ≡ old.rows
settle-rows old (ok a, db) h = absurd (cc (pair-eq h).0)
settle-rows old (err e, db) h = ap (λ p. p.1.rows) (sym h)

again-eq-ok :
    {A : Type 0} (last done : Bool) (e c : Failure) (mid : Db) (r : Result Failure A × Db) {a : A}
    {db' : Db}
    → (if last then (err e, mid) else if done then (err c, mid) else r) ≡ (ok a, db')
    → r ≡ (ok a, db')
again-eq-ok true done e c mid r h = absurd (cc (pair-eq h).0)
again-eq-ok false true e c mid r h = absurd (cc (pair-eq h).0)
again-eq-ok false false e c mid r h = h

-- The attempt that worked met the rows that the first one had met.
pub retry_busy-eq-ok :
    {A : Type 0} (done : ℕ → Bool) (left attempt : ℕ) (m : Tx A) (db : Db) {a : A} {db' : Db}
    → retry_busy done left attempt m db ≡ (ok a, db')
    → (start : Db) × (start.rows ≡ db.rows) × (m start ≡ (ok a, db'))
unfolding retry_busy
retry_busy-eq-ok done zero attempt m db h = absurd (cc (pair-eq h).0)
retry_busy-eq-ok {A} done (suc left) attempt m db {a} {db'} h =
    go (transaction m db) (λ start. retry_busy-eq-ok done left (suc attempt) m start) refl h
  where
    go :
        (r : Result Failure A × Db)
        → ((start : Db)
            → retry_busy done left (suc attempt) m start ≡ (ok a, db')
            → (s : Db) × (s.rows ≡ start.rows) × (m s ≡ (ok a, db')))
        → transaction m db ≡ r
        → try_again (retry_busy done left (suc attempt) m) (left == 0) (done attempt) r
          ≡ (ok a, db')
        → (start : Db) × (start.rows ≡ db.rows) × (m start ≡ (ok a, db'))
    go (ok b, mid) ih e t = (db, refl, settle-eq-ok db (m db) (e ∙ t))
    go (err (plain x), mid) ih e t = absurd (cc (pair-eq t).0)
    go (err cancelled, mid) ih e t = absurd (cc (pair-eq t).0)
    go (err sqlite_busy, mid) ih e t =
        let (start, rows, works) =
          ih mid (again-eq-ok (left == 0) (done attempt) sqlite_busy cancelled mid _ t) in
        (start, rows ∙ settle-rows db (m db) e, works)
