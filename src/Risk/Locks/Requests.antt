-- ===== src/Risk/Locks/Requests.antt =====
-- An account that is locked stays locked until its time, whatever is requested.
use cool_admin_go_next.Common.{
  ℕ, suc, ◌+◌, ◌≤◌, ◌<◌, ◌≡◌, refl, sym, ◌∙◌, ap, subst, Bool, true, false, List, [], ◌∷◌, Text,
  Option, none, some, Map, lookup, put, leb, ltb, if◌then◌else◌, text_eq, text_eq_iff, arith, All,
  not, ◌||◌, inl, inr, Bool-cases, lookup-put_same,
}
use cool_admin_go_next.Risk.Memory.{
  Limits, RiskResult, allowed, limited, matched, not_matched, conflict, Window, Client, Account,
  Backend, increase_window, remove_captcha,
}
use cool_admin_go_next.Risk.Operations.{
  client_state, with_captcha, found_client, store_captcha, save_captcha, consume_captcha,
  check_account, count_login, allow_login, record_login_failure, clear_login_failure, fail_account,
  fail_known, has_lapsed, later_time,
}
use cool_admin_go_next.Outbox.Backoff.{lock_duration}
use cool_admin_go_next.Risk.Keeping.{client_state-Admits, with_captcha-Goes, allow_captcha-Keeps}
use cool_admin_go_next.Risk.Runs.{
  RiskOp, op_allow_captcha, op_save_captcha, op_consume_captcha, op_allow_login, op_record_failure,
  op_clear_failure, Timed, perform, perform_all,
}
use cool_admin_go_next.Risk.Locks.Accounts.{
  Locked, clears, Locked-erase, fail_known_other, fail_known-Locked, check_account_other,
  check_account-Locked,
}

module _ (limits : Limits) (account : Text) (until : ℕ) where
  -- The operations on captchas leave the accounts alone.
  save_found_accounts :
      (client captcha_id answer : Text) (now : ℕ) (r : Option Client × Backend)
      → (found_client limits r (λ _.
          with_captcha limits client now
            (λ d. (allowed, store_captcha limits client captcha_id answer now d)))).1.accounts
        ≡ r.1.accounts
  save_found_accounts client captcha_id answer now (none, b) = refl
  save_found_accounts client captcha_id answer now (some state, b) =
      elim (with_captcha-Goes limits client now
        (λ d. (allowed, store_captcha limits client captcha_id answer now d)) b) [
          | inl (d, s, r) ↦ rw r s.accounts
          | inr (d, s, room, r) ↦ rw r s.accounts
        ]

  save_captcha_accounts :
      (client captcha_id answer : Text) (now : ℕ) (b : Backend)
      → (save_captcha limits client captcha_id answer now b).1.accounts ≡ b.accounts
  unfolding save_captcha
  save_captcha_accounts client captcha_id answer now b =
      elim (lookup captcha_id b.captchas)
        as (λ found.
          (elim found as (λ _. RiskResult × Backend) [
            | some _ ↦ (conflict, b)
            | none ↦ found_client limits (client_state limits client now b) (λ _.
                with_captcha limits client now
                  (λ d. (allowed, store_captcha limits client captcha_id answer now d)))
          ]).1.accounts
          ≡ b.accounts) [
            | some _ ↦ refl
            | none ↦
                save_found_accounts client captcha_id answer now (client_state limits client now b)
                ∙ (client_state-Admits limits client now b).keeps.accounts
          ]

  consume_captcha_accounts :
      (captcha_id answer : Text) (now : ℕ) (b : Backend)
      → (consume_captcha limits captcha_id answer now b).1.accounts ≡ b.accounts
  unfolding consume_captcha remove_captcha
  consume_captcha_accounts captcha_id answer now b =
      elim (lookup captcha_id b.captchas)
        as (λ found.
          (elim found as (λ _. RiskResult × Backend) [
            | none ↦ (not_matched, b)
            | some c ↦ (
              if leb c.expires_at now || not (text_eq c.answer answer)
                  then not_matched
                  else matched,
              remove_captcha captcha_id c.client b,
            )
          ]).1.accounts
          ≡ b.accounts) [ none ↦ refl | some c ↦ refl ]

  -- A login of the locked account is refused, and a login of any account keeps the lock.
  found_login-Locked :
      (client other : Text) (now : ℕ) (r : Option Client × Backend)
      → now < until
      → Locked account until r.1.accounts
      → let after = found_client limits r (count_login limits client other now) in
        Locked account until after.1.accounts × (text_eq other account ≡ true → after.0 ≡ limited)
  found_login-Locked client other now (none, b) early l = (l, λ _. refl)
  found_login-Locked client other now (some state, b) early l =
      go (ltb limits.ip_rate_limit window.count)
    where
      window : Window
      window = increase_window now limits.ip_rate_window state.login

      counted : Backend
      counted = record b { clients = put client (record state { login = window }) b.clients }

      checked : RiskResult × Backend
      checked = check_account limits other now (lookup other b.accounts) counted

      result :
          Locked account until checked.1.accounts
          × (text_eq other account ≡ true → checked.0 ≡ limited)
      result = elim (Bool-cases (text_eq other account)) [
        | inl e ↦
            let same : other ≡ account = (text_eq_iff other account).0 e in
            let refused : checked ≡ (limited, counted) =
              rw same (check_account-Locked limits account until now counted early l) in
            (
              subst (λ p. Locked account until p.1.accounts) (sym refused) l,
              λ _. ap (λ p. p.0) refused,
            )
        | inr e ↦ (
          check_account_other limits account until other now (lookup other b.accounts) counted e l,
          λ t. absurd (cc),
        )
      ]

      go :
          (x : Bool)
          → let after = if◌then◌else◌ {A = RiskResult × Backend} x (limited, counted) checked in
            Locked account until after.1.accounts
            × (text_eq other account ≡ true → after.0 ≡ limited)
      go true = (l, λ _. refl)
      go false = result

  fail-Locked :
      (other : Text) (now : ℕ) (accounts : Map Account)
      → now < until
      → Locked account until accounts
      → Locked account until (fail_known limits other now (lookup other accounts) accounts).1
  fail-Locked other now accounts early l = elim (Bool-cases (text_eq other account)) [
    | inl e ↦
        let same : other ≡ account = (text_eq_iff other account).0 e in
        rw same (fail_known-Locked limits account until now accounts early l)
    | inr e ↦
        fail_known_other limits account until other now (lookup other accounts) accounts e early l
  ]

  perform-Locked :
      (op : RiskOp) (now : ℕ) (b : Backend)
      → clears account op ≡ false
      → now < until
      → Locked account until b.accounts
      → Locked account until (perform limits op now b).1.accounts
  unfolding perform allow_login record_login_failure clear_login_failure
  perform-Locked (op_allow_captcha client) now b s early l =
      rw (allow_captcha-Keeps limits client now b).accounts l
  perform-Locked (op_save_captcha client captcha_id answer) now b s early l =
      rw (save_captcha_accounts client captcha_id answer now b) l
  perform-Locked (op_consume_captcha captcha_id answer) now b s early l =
      rw (consume_captcha_accounts captcha_id answer now b) l
  perform-Locked (op_allow_login client other) now b s early l =
      (found_login-Locked client other now (client_state limits client now b) early
        (rw (client_state-Admits limits client now b).keeps.accounts l)).0
  perform-Locked (op_record_failure other) now b s early l =
      fail-Locked other now b.accounts early l
  perform-Locked (op_clear_failure other) now b s early l =
      Locked-erase limits account until other b.accounts s l

  pub perform_all-Locked :
      (ts : List Timed) (b : Backend)
      → All (λ t. (clears account t.op ≡ false) × (t.now < until)) ts
      → Locked account until b.accounts
      → Locked account until (perform_all limits ts b).accounts
  unfolding perform_all
  perform_all-Locked [] b s l = l
  perform_all-Locked (t ∷ ts) b ((s, early), ss) l =
      perform_all-Locked ts (perform limits t.op t.now b).1 ss
        (perform-Locked t.op t.now b s early l)

  pub allow_login-Locked :
      (client : Text) (now : ℕ) (b : Backend)
      → now < until
      → Locked account until b.accounts
      → (allow_login limits client account now b).0 ≡ limited
  unfolding allow_login
  allow_login-Locked client now b early l =
      (found_login-Locked client account now (client_state limits client now b) early
          (rw (client_state-Admits limits client now b).keeps.accounts l)).1
        ((text_eq_iff account account).1 refl)

later_time_right : (limits : Limits) (a b : ℕ) → b ≤ later_time limits a b
later_time_right limits a b = ground arith

fail_account-Locked :
    (limits : Limits) (account : Text) (now : ℕ) (state : Account) (accounts : Map Account)
    → has_lapsed limits now state.last_failure ≡ false
    → limits.failure_limit ≤ suc state.failures
    → Locked account
        (now
          + lock_duration limits.lock_base limits.lock_max limits.failure_limit
              (suc state.failures))
        (put account (fail_account limits now state) accounts)
unfolding fail_account
fail_account-Locked limits account now state accounts recent enough =
    let reached : leb limits.failure_limit (suc state.failures) ≡ true = ground arith in
    let failed = fail_account limits now state in
    let span =
      lock_duration limits.lock_base limits.lock_max limits.failure_limit (suc state.failures) in
    let ends : failed.lock_until ≡ now + span = rw (recent, reached) in
    let stays : failed.lock_until ≤ failed.expires_at =
      later_time_right limits (now + limits.failure_window) failed.lock_until in
    record {
      state = failed;
      known = lookup-put_same account failed accounts;
      lasts = omega (arith, ends);
      stays = omega (arith, ends);
    }

-- When a failure counts for an account that is known, has not expired, is not locked, failed last
-- within the window, and reaches the failure limit with it, then for the lock duration of that number
-- of failures every login to it is refused, from any client and whatever requests come in between,
-- as long as none clears the account.
pub record_login_failure_locks :
    (limits : Limits) (account client : Text) (now later : ℕ) (state : Account) (ts : List Timed)
    (b : Backend)
    → lookup account b.accounts ≡ some state
    → now < state.expires_at
    → state.lock_until ≤ now
    → has_lapsed limits now state.last_failure ≡ false
    → limits.failure_limit ≤ suc state.failures
    → let until =
        now
        + lock_duration limits.lock_base limits.lock_max limits.failure_limit
            (suc state.failures) in
      All (λ t. (clears account t.op ≡ false) × (t.now < until)) ts
      → later < until
      → (allow_login limits client account later
          (perform_all limits ts (record_login_failure limits account now b).1)).0
        ≡ limited
unfolding record_login_failure
record_login_failure_locks limits account client now later state ts b known live unlocked recent
      enough others early =
    let until =
      now
      + lock_duration limits.lock_base limits.lock_max limits.failure_limit (suc state.failures) in
    let valid : leb state.expires_at now ≡ false = ground arith in
    let free : ltb now state.lock_until ≡ false = ground arith in
    let failed : Locked account until (record_login_failure limits account now b).1.accounts =
      rw (known, valid, free)
        (fail_account-Locked limits account now state b.accounts recent enough) in
    allow_login-Locked limits account until client later _ early (
      perform_all-Locked limits account until ts (record_login_failure limits account now b).1
        others failed)
