-- ===== src/Outbox/Publishing/Batches.antt =====
-- A batch has room for what it claims.
use cool_admin_go_next.Common.{
  ℕ, ◌+◌, ◌-◌, ◌/◌, ◌≤◌, ◌<◌, ◌≡◌, ap, subst, Bool, true, false, ◌&&◌, not, List, [], ◌∷◌, ◌++◌,
  Text, Result, ok, err, leb, ltb, if◌then◌else◌, length, length-append, All, All-append, arith,
  some,
}
use cool_admin_go_next.Outbox.Record.{Claimed, leased}
use cool_admin_go_next.Outbox.Statements.{Pool}
use cool_admin_go_next.Outbox.Store.{Db, Failure, ◌>>=◌, pure, claim}
use cool_admin_go_next.Outbox.Settings.{WorkerConfig}
use cool_admin_go_next.Outbox.Rows.{Distinct}
use cool_admin_go_next.Outbox.Inversion.{pair-eq, continue-eq-ok}
use cool_admin_go_next.Outbox.Claims.Granted.{Granted}
use cool_admin_go_next.Outbox.Claims.Loop.{claim-granted}
use cool_admin_go_next.Outbox.Worker.{Host, pool_of, claim_pool, claim_extra, claim_batch}

-- A record that the worker holds.
pub record Owned (owner : Text) (c : Claimed) : Type 0 where
  pub status : c.row.status ≡ leased
  pub owner_is : c.row.lease_owner ≡ some owner
  pub token_is : c.row.claim_token ≡ some c.claim_token

-- What a claim of at most `most` records leaves.
abbrev Holds : Text → ℕ → List Claimed → Db → Type 0
Holds owner most cs db = (length cs ≤ most) × All (Owned owner) cs × Distinct db.rows

list_of : Result Failure (List Claimed) → List Claimed
list_of (ok l) = l
list_of (err _) = []

module _ (host : Host) (config : WorkerConfig) (positive : 0 < config.lease_duration) where
  Owned-granted :
      (pool : Pool) (now : ℕ) (rows : _) (cs : List Claimed)
      → All (Granted host.kind host.supply host.id config.lease_duration pool positive now rows) cs
      → All (Owned host.id) cs
  Owned-granted pool now rows [] h = tt
  Owned-granted pool now rows (c ∷ cs) h = (
    record { status = h.0.lease.status; owner_is = h.0.lease.owned; token_is = h.0.token },
    Owned-granted pool now rows cs h.1,
  )

  pure-Holds :
      (most : ℕ) (l : List Claimed) (db : Db) {cs : List Claimed} {db' : Db}
      → ◌≡◌ {A = Result Failure (List Claimed) × Db} (ok l, db) (ok cs, db')
      → Holds host.id most l db
      → Holds host.id most cs db'
  unfolding list_of
  pure-Holds most l db {cs} {db'} e h =
      subst (λ d. Holds host.id most cs d) (pair-eq e).1
        (subst (λ x. Holds host.id most x db) (ap list_of (pair-eq e).0) h)

  claim_pool-Holds :
      (is_expired : Bool) (limit : ℕ) (db : Db) {cs : List Claimed} {db' : Db}
      → Distinct db.rows
      → claim_pool host config is_expired limit db ≡ (ok cs, db')
      → Holds host.id limit cs db'
  unfolding claim_pool
  claim_pool-Holds is_expired limit db {cs} {db'} keyed h = go (leb limit 0) h
    where
      go :
          (b : Bool)
          → (if b
                then pure []
                else claim host.kind host.supply host.done host.id limit config.lease_duration
                    (pool_of is_expired)
                    host.locked)
              db
            ≡ (ok cs, db')
          → Holds host.id limit cs db'
      go true e = pure-Holds limit [] db e (omega arith, tt, keyed)
      go false e =
          let (few, granted, keyed') =
            claim-granted host.kind host.supply host.done host.id limit config.lease_duration
              (pool_of is_expired) host.locked db positive keyed e in
          (few, Owned-granted (pool_of is_expired) db'.now db.rows cs granted, keyed')

  claim_extra-Holds :
      (first : Bool) (second_limit : ℕ) (claimed : List Claimed) (db : Db) {cs : List Claimed}
      {db' : Db}
      → Holds host.id config.batch_size claimed db
      → claim_extra host config first second_limit claimed db ≡ (ok cs, db')
      → Holds host.id config.batch_size cs db'
  unfolding claim_extra
  claim_extra-Holds first second_limit claimed db {cs} {db'} (few, owned, keyed) h =
      go (ltb 0 second_limit && ltb (length claimed) config.batch_size) h
    where
      go :
          (b : Bool)
          → (if b
                then claim_pool host config first (config.batch_size - length claimed)
                  >>= (λ extra. pure (claimed ++ extra))
                else pure claimed)
              db
            ≡ (ok cs, db')
          → Holds host.id config.batch_size cs db'
      go false e = pure-Holds config.batch_size claimed db e (few, owned, keyed)
      go true e =
          let (extra, mid, one, e1) =
            continue-eq-ok (claim_pool host config first (config.batch_size - length claimed) db)
              (λ extra. pure (claimed ++ extra)) e in
          let (few', owned', keyed') =
            claim_pool-Holds first (config.batch_size - length claimed) db keyed one in
          pure-Holds config.batch_size (claimed ++ extra) mid e1 (
            omega (arith, length-append claimed extra),
            All-append (Owned host.id) claimed extra owned owned',
            keyed',
          )

room :
    (size : ℕ) (a b : List Claimed)
    → length a ≤ (size + 1) / 2
    → length b ≤ size - length a
    → length (a ++ b) ≤ size
room size a b h k = omega (arith, length-append a b)

-- A batch that is claimed without an error has at most `batch_size` records, every one leased to
-- this worker under the token that it carries, whichever pool goes first; and the message ids stay
-- distinct.
pub claim_batch_bounded :
    (host : Host) (config : WorkerConfig) (first : Bool) (db : Db) {cs : List Claimed} {db' : Db}
    → 0 < config.lease_duration
    → Distinct db.rows
    → claim_batch host config first db ≡ (ok cs, db')
    → (length cs ≤ config.batch_size) × All (Owned host.id) cs × Distinct db'.rows
unfolding claim_batch
claim_batch_bounded host config first db {cs} {db'} positive keyed h =
    let half = (config.batch_size + 1) / 2 in
    let (a, m1, one, h1) = continue-eq-ok (claim_pool host config first half db) _ h in
    let (few1, owned1, keyed1) = claim_pool-Holds host config positive first half db keyed one in
    let (b, m2, two, h2) =
      continue-eq-ok (claim_pool host config (not first) (config.batch_size - length a) m1) _ h1 in
    let (few2, owned2, keyed2) =
      claim_pool-Holds host config positive (not first) (config.batch_size - length a) m1 keyed1
        two in
    claim_extra-Holds host config positive first (config.batch_size - half) (a ++ b) m2
      (room config.batch_size a b few1 few2, All-append (Owned host.id) a b owned1 owned2, keyed2)
      h2
