-- ===== src/Risk/Capacity/Accounts.antt =====
-- The number of accounts stays within its capacity.
use cool_admin_go_next.Common.{
  ℕ, ◌≤◌, ◌≡◌, refl, Bool, true, false, [], ◌∷◌, Text, Option, none, some, Map, lookup, erase, put,
  length, leb, ltb, if◌then◌else◌, arith, length-put_le, length-put_known, length-erase_le, ltb→lt,
}
use cool_admin_go_next.Risk.Memory.{Limits, RiskResult, allowed, limited, Account, clean_accounts}
use cool_admin_go_next.Risk.Operations.{
  new_account, fail_account, count_failure, admit_account, fail_known,
}

length-clean_accounts_le :
    (now : ℕ) (accounts : Map Account) → length (clean_accounts now accounts) ≤ length accounts
unfolding clean_accounts
length-clean_accounts_le now [] = omega arith
length-clean_accounts_le now ((account, state) ∷ accounts) =
    ground (arith, length-clean_accounts_le now accounts)

module _ (limits : Limits) where
  -- A failure is counted for an account that is there, or where there is room.
  count_failure_small :
      (account : Text) (now : ℕ) (state : Account) (accounts : Map Account)
      → ((v : Account) → length (put account v accounts) ≤ limits.account_capacity)
      → length (count_failure limits account now state accounts).1 ≤ limits.account_capacity
  count_failure_small account now state accounts h = go (ltb now state.lock_until)
    where
      go :
          (x : Bool)
          → length
              (if◌then◌else◌ {A = RiskResult × Map Account} x
                (allowed, put account state accounts)
                (allowed, put account (fail_account limits now state) accounts)).1
            ≤ limits.account_capacity
      go true = h state
      go false = h (fail_account limits now state)

  admit_account_small :
      (account : Text) (now : ℕ) (accounts : Map Account)
      → length accounts ≤ limits.account_capacity
      → length (admit_account limits account now accounts).1 ≤ limits.account_capacity
  unfolding admit_account
  admit_account_small account now accounts h =
      go (ltb (length accounts) limits.account_capacity)
        (ltb (length cleaned) limits.account_capacity) refl refl
    where
      cleaned : Map Account
      cleaned = clean_accounts now accounts

      go :
          (x y : Bool)
          → ltb (length accounts) limits.account_capacity ≡ x
          → ltb (length cleaned) limits.account_capacity ≡ y
          → length
              (if x
                then count_failure limits account now new_account accounts
                else if y
                then count_failure limits account now new_account cleaned
                else (limited, cleaned)).1
            ≤ limits.account_capacity
      go true y e f =
          count_failure_small account now new_account accounts
            (λ v. omega (arith, length-put_le account v accounts, ltb→lt _ _ e))
      go false true e f =
          count_failure_small account now new_account cleaned
            (λ v. omega (arith, length-put_le account v cleaned, ltb→lt _ _ f))
      go false false e f = omega (arith, length-clean_accounts_le now accounts)

  pub fail_known_small :
      (account : Text) (now : ℕ) (found : Option Account) (accounts : Map Account)
      → lookup account accounts ≡ found
      → length accounts ≤ limits.account_capacity
      → length (fail_known limits account now found accounts).1 ≤ limits.account_capacity
  fail_known_small account now none accounts e h = admit_account_small account now accounts h
  fail_known_small account now (some state) accounts e h = go (leb state.expires_at now)
    where
      go :
          (x : Bool)
          → length
              (if x
                then admit_account limits account now (erase account accounts)
                else count_failure limits account now state accounts).1
            ≤ limits.account_capacity
      go true =
          admit_account_small account now (erase account accounts)
            (omega (arith, length-erase_le account accounts))
      go false =
          count_failure_small account now state accounts
            (λ v. omega (arith, length-put_known account state v accounts e))
