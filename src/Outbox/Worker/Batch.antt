-- ===== src/Outbox/Worker/Batch.antt =====
-- Claiming a batch: half from each pool, the first pool alternating, and what is left from the first.
use cool_admin_go_next.Common.{
  ℕ, ◌+◌, ◌-◌, ◌/◌, Bool, true, false, ◌&&◌, not, List, [], ◌++◌, Text, leb, ltb, if◌then◌else◌,
  length,
}
use cool_admin_go_next.Outbox.Record.{Claimed}
use cool_admin_go_next.Outbox.Statements.{Kind, Pool, available, expired}
use cool_admin_go_next.Outbox.Store.{Tx, ◌>>=◌, pure, claim}
use cool_admin_go_next.Outbox.Settings.{WorkerConfig}

abbrev pub pool_of : Bool → Pool
pool_of true = expired
pool_of false = available

-- What the worker's process brings: the database's kind, the random source, its id, the waits in
-- which its context ends, and the rows that other transactions have locked.
pub record Host : Type 0 where
  pub kind : Kind
  pub supply : ℕ → Text
  pub id : Text
  pub done : ℕ → Bool
  pub locked : Text → Bool

module _ (host : Host) (config : WorkerConfig) where
  -- `claim`; a limit of 0 or less claims nothing.
  unfoldable pub claim_pool : Bool → ℕ → Tx (List Claimed)
  claim_pool is_expired limit =
      if leb limit 0
      then pure []
      else claim host.kind host.supply host.done host.id limit config.lease_duration
          (pool_of is_expired) host.locked

  -- The rest of the batch, from the first pool again.
  unfoldable pub claim_extra : Bool → ℕ → List Claimed → Tx (List Claimed)
  unfolding claim_pool
  claim_extra first second_limit claimed =
      if ltb 0 second_limit && ltb (length claimed) config.batch_size
      then claim_pool first (config.batch_size - length claimed)
        >>= (λ extra. pure (claimed ++ extra))
      else pure claimed

  -- `claimBatch` with the flag `nextExpired`, whose new value is `next_expired`. A pool gives at
  -- most what it was asked for, so no subtraction goes below 0.
  unfoldable pub claim_batch : Bool → Tx (List Claimed)
  unfolding claim_extra
  claim_batch claim_expired_first =
      let first_limit = (config.batch_size + 1) / 2 in
      let second_limit = config.batch_size - first_limit in
      do
        claimed ← claim_pool claim_expired_first first_limit
        second ← claim_pool (not claim_expired_first) (config.batch_size - length claimed)
        claim_extra claim_expired_first second_limit (claimed ++ second)

-- The flag is toggled before anything is claimed, whatever becomes of the claim.
abbrev pub next_expired : Bool → Bool
next_expired flag = not flag
