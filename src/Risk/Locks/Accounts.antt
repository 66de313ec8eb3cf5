-- ===== src/Risk/Locks/Accounts.antt =====
-- The accounts of the memory backend while one of them is locked.
use cool_admin_go_next.Common.{
  ℕ, ◌≤◌, ◌<◌, ◌≡◌, refl, ◌∙◌, Bool, true, false, [], ◌∷◌, Text, Option, none, some, Map, lookup,
  erase, put, length, leb, ltb, if◌then◌else◌, text_eq, arith, lookup-put_other, lookup-put_same,
  lookup-erase_other,
}
use cool_admin_go_next.Risk.Memory.{
  Limits, RiskResult, allowed, limited, Account, Backend, clean_accounts,
}
use cool_admin_go_next.Risk.Operations.{
  check_account, fail_account, count_failure, admit_account, fail_known, new_account,
}
use cool_admin_go_next.Risk.Runs.{RiskOp, op_clear_failure}

-- The account is locked until the time at least, and its entry does not expire before.
pub record Locked (account : Text) (until : ℕ) (accounts : Map Account) : Type 0 where
  pub state : Account
  pub known : lookup account accounts ≡ some state
  pub lasts : until ≤ state.lock_until
  pub stays : until ≤ state.expires_at

abbrev pub clears : Text → RiskOp → Bool
clears account (op_clear_failure other) = text_eq other account
clears account _ = false

lookup-clean_accounts :
    (account : Text) (now : ℕ) (accounts : Map Account) {state : Account}
    → lookup account accounts ≡ some state
    → now < state.expires_at
    → lookup account (clean_accounts now accounts) ≡ some state
unfolding lookup clean_accounts
lookup-clean_accounts account now [] h late = absurd (cc)
lookup-clean_accounts account now ((k, v) ∷ accounts) {state} h late =
    go (text_eq k account) (leb v.expires_at now) refl refl
      (λ t. lookup-clean_accounts account now accounts t late) h
  where
    kept : Map Account
    kept = clean_accounts now accounts

    go :
        (x y : Bool)
        → text_eq k account ≡ x
        → leb v.expires_at now ≡ y
        → (lookup account accounts ≡ some state → lookup account kept ≡ some state)
        → (if x then some v else lookup account accounts) ≡ some state
        → lookup account (if y then kept else (k, v) ∷ kept) ≡ some state
    go true true e f rest t =
        let same : v ≡ state = cc in
        let late' : now < v.expires_at = rw same late in absurd (ground arith)
    go true false e f rest t = rw e t
    go false true e f rest t = rest t
    go false false e f rest t = rw e (rest t)

module _ (limits : Limits) (account : Text) (until : ℕ) where
  Locked-other :
      (other : Text) (v : Account) (accounts : Map Account)
      → text_eq other account ≡ false
      → Locked account until accounts
      → Locked account until (put other v accounts)
  Locked-other other v accounts differ l = record {
    state = l.state;
    known = lookup-put_other account other v accounts differ ∙ l.known;
    lasts = l.lasts;
    stays = l.stays;
  }

  pub Locked-erase :
      (other : Text) (accounts : Map Account)
      → text_eq other account ≡ false
      → Locked account until accounts
      → Locked account until (erase other accounts)
  Locked-erase other accounts differ l = record {
    state = l.state;
    known = lookup-erase_other account other accounts differ ∙ l.known;
    lasts = l.lasts;
    stays = l.stays;
  }

  Locked-clean :
      (now : ℕ) (accounts : Map Account)
      → now < until
      → Locked account until accounts
      → Locked account until (clean_accounts now accounts)
  Locked-clean now accounts early l = record {
    state = l.state;
    known = lookup-clean_accounts account now accounts l.known (omega (arith, l.stays));
    lasts = l.lasts;
    stays = l.stays;
  }

  count_failure_other :
      (other : Text) (now : ℕ) (state : Account) (accounts : Map Account)
      → text_eq other account ≡ false
      → Locked account until accounts
      → Locked account until (count_failure limits other now state accounts).1
  count_failure_other other now state accounts differ l = go (ltb now state.lock_until)
    where
      go :
          (x : Bool)
          → Locked account until
              (if◌then◌else◌ {A = RiskResult × Map Account} x
                (allowed, put other state accounts)
                (allowed, put other (fail_account limits now state) accounts)).1
      go true = Locked-other other state accounts differ l
      go false = Locked-other other (fail_account limits now state) accounts differ l

  admit_account_other :
      (other : Text) (now : ℕ) (accounts : Map Account)
      → text_eq other account ≡ false
      → now < until
      → Locked account until accounts
      → Locked account until (admit_account limits other now accounts).1
  unfolding admit_account
  admit_account_other other now accounts differ early l =
      go (ltb (length accounts) limits.account_capacity)
        (ltb (length cleaned) limits.account_capacity)
    where
      cleaned : Map Account
      cleaned = clean_accounts now accounts

      go :
          (x y : Bool)
          → Locked account until
              (if◌then◌else◌ {A = RiskResult × Map Account} x
                (count_failure limits other now new_account accounts)
                (if y
                  then count_failure limits other now new_account cleaned
                  else (limited, cleaned))).1
      go true y = count_failure_other other now new_account accounts differ l
      go false true =
          count_failure_other other now new_account cleaned differ
            (Locked-clean now accounts early l)
      go false false = Locked-clean now accounts early l

  -- A failure of another account.
  pub fail_known_other :
      (other : Text) (now : ℕ) (found : Option Account) (accounts : Map Account)
      → text_eq other account ≡ false
      → now < until
      → Locked account until accounts
      → Locked account until (fail_known limits other now found accounts).1
  fail_known_other other now none accounts differ early l =
      admit_account_other other now accounts differ early l
  fail_known_other other now (some state) accounts differ early l = go (leb state.expires_at now)
    where
      go :
          (x : Bool)
          → Locked account until
              (if◌then◌else◌ {A = RiskResult × Map Account} x
                (admit_account limits other now (erase other accounts))
                (count_failure limits other now state accounts)).1
      go true =
          admit_account_other other now (erase other accounts) differ early
            (Locked-erase other accounts differ l)
      go false = count_failure_other other now state accounts differ l

  -- A failure of the locked account itself changes nothing.
  pub fail_known-Locked :
      (now : ℕ) (accounts : Map Account)
      → now < until
      → (l : Locked account until accounts)
      → Locked account until (fail_known limits account now (lookup account accounts) accounts).1
  fail_known-Locked now accounts early l =
      let valid : leb l.state.expires_at now ≡ false = ground arith in
      let locked : ltb now l.state.lock_until ≡ true = ground arith in
      rw (l.known, valid, locked)
        (record {
          state = l.state;
          known = lookup-put_same account l.state accounts;
          lasts = l.lasts;
          stays = l.stays;
        })

  pub check_account_other :
      (other : Text) (now : ℕ) (found : Option Account) (b : Backend)
      → text_eq other account ≡ false
      → Locked account until b.accounts
      → Locked account until (check_account limits other now found b).1.accounts
  check_account_other other now none b differ l = l
  check_account_other other now (some state) b differ l =
      go (leb state.expires_at now) (ltb now state.lock_until)
    where
      go :
          (x y : Bool)
          → Locked account until
              (if◌then◌else◌ {A = RiskResult × Backend} x
                (allowed, record b { accounts = erase other b.accounts })
                (if y then (limited, b) else (allowed, b))).1.accounts
      go true y = Locked-erase other b.accounts differ l
      go false true = l
      go false false = l

  -- The check of the locked account refuses the login and changes nothing.
  pub check_account-Locked :
      (now : ℕ) (b : Backend)
      → now < until
      → (l : Locked account until b.accounts)
      → check_account limits account now (lookup account b.accounts) b ≡ (limited, b)
  check_account-Locked now b early l =
      let valid : leb l.state.expires_at now ≡ false = ground arith in
      let locked : ltb now l.state.lock_until ≡ true = ground arith in rw (l.known, valid, locked)
