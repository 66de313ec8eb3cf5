-- ===== src/Risk/Operations.antt =====
-- The operations of the memory backend (cool-next/risk/risk.go), each under one lock.
use cool_admin_go_next.Common.{
  ℕ, suc, ◌+◌, Bool, false, not, Text, Option, none, some, Map, lookup, erase, put, length, leb,
  ltb, if◌then◌else◌, text_eq, ◌||◌,
}
use cool_admin_go_next.Outbox.Backoff.{lock_duration}
use cool_admin_go_next.Risk.Memory.{
  Limits, RiskResult, allowed, limited, matched, not_matched, conflict, Client, Account, Backend,
  empty_window, captchas_of, increase_window, remove_captcha, clean_captchas, clean_all,
  clean_client, clean_clients, clean_accounts,
}

abbrev pub new_client : Client
new_client = record { captcha = empty_window; login = empty_window }

abbrev pub new_account : Account
new_account = record { failures = 0; last_failure = none; lock_until = 0; expires_at = 0 }

module _ (limits : Limits) where
  abbrev pub add_client : Text → Backend → Option Client × Backend
  add_client client b = (some new_client, record b { clients = put client new_client b.clients })

  -- `clientLocked` for a client that is not known.
  unfoldable pub admit_client : Text → ℕ → Backend → Option Client × Backend
  unfolding clean_clients
  admit_client client now b =
      let cleaned = clean_clients now b in
      if ltb (length b.clients) limits.client_capacity
      then add_client client b
      else if ltb (length cleaned.clients) limits.client_capacity
      then add_client client cleaned
      else (none, cleaned)

  -- `clientLocked`: the client's state, which is then in the map.
  unfoldable pub client_state : Text → ℕ → Backend → Option Client × Backend
  unfolding clean_client admit_client
  client_state client now b =
      let cleaned = clean_client client now b in
      elim (lookup client cleaned.clients) [
        | some state ↦ (some state, cleaned)
        | none ↦ admit_client client now cleaned
      ]

  -- Room among the captchas, after a cleaning if that is needed.
  unfoldable pub with_room : ℕ → (Backend → RiskResult × Backend) → Backend → RiskResult × Backend
  unfolding clean_all
  with_room now found b =
      if ltb (length b.captchas) limits.captcha_capacity
      then found b
      else let cleaned = clean_all now b in
        if ltb (length cleaned.captchas) limits.captcha_capacity
        then found cleaned
        else (limited, cleaned)

  -- The client's own captchas, and room for one more.
  unfoldable pub with_captcha :
      Text → ℕ → (Backend → RiskResult × Backend) → Backend → RiskResult × Backend
  unfolding clean_captchas with_room
  with_captcha client now found b =
      let cleaned = clean_captchas client now b in
      if leb limits.outstanding_per_ip (length (captchas_of client cleaned))
      then (limited, cleaned)
      else with_room now found cleaned

  abbrev pub found_client :
      Option Client × Backend → (Client → Backend → RiskResult × Backend) → RiskResult × Backend
  found_client (none, b) found = (limited, b)
  found_client (some state, b) found = found state b

  abbrev pub count_captcha : Text → ℕ → Client → Backend → RiskResult × Backend
  count_captcha client now state b =
      let window = increase_window now limits.captcha_rate_window state.captcha in
      let counted = record b {
        clients = put client (record state { captcha = window }) b.clients;
      } in
      if ltb limits.captcha_rate_limit window.count
      then (limited, counted)
      else with_captcha client now (λ d. (allowed, d)) counted

  unfoldable pub allow_captcha : Text → ℕ → Backend → RiskResult × Backend
  unfolding client_state
  allow_captcha client now b = found_client (client_state client now b) (count_captcha client now)

  -- Both maps are written.
  abbrev pub store_captcha : Text → Text → Text → ℕ → Backend → Backend
  store_captcha client captcha_id answer now b =
      let expires_at = now + limits.captcha_ttl in
      record b {
        captchas =
            put captcha_id (record { answer = answer; client = client; expires_at = expires_at })
              b.captchas;
        captchas_by_client =
            put client (put captcha_id expires_at (captchas_of client b)) b.captchas_by_client;
      }

  unfoldable pub save_captcha : Text → Text → Text → ℕ → Backend → RiskResult × Backend
  unfolding client_state with_captcha
  save_captcha client captcha_id answer now b = elim (lookup captcha_id b.captchas) [
    | some _ ↦ (conflict, b)
    | none ↦ found_client (client_state client now b) (λ _.
        with_captcha client now (λ d. (allowed, store_captcha client captcha_id answer now d)))
  ]

  unfoldable pub consume_captcha : Text → Text → ℕ → Backend → RiskResult × Backend
  unfolding remove_captcha
  consume_captcha captcha_id answer now b = elim (lookup captcha_id b.captchas) [
    | none ↦ (not_matched, b)
    | some c ↦ (
      if leb c.expires_at now || not (text_eq c.answer answer) then not_matched else matched,
      remove_captcha captcha_id c.client b,
    )
  ]

  -- What `allowLogin` finds of the account.
  abbrev pub check_account : Text → ℕ → Option Account → Backend → RiskResult × Backend
  check_account account now none b = (allowed, b)
  check_account account now (some state) b =
      if leb state.expires_at now
      then (allowed, record b { accounts = erase account b.accounts })
      else if ltb now state.lock_until
      then (limited, b)
      else (allowed, b)

  abbrev pub count_login : Text → Text → ℕ → Client → Backend → RiskResult × Backend
  count_login client account now state b =
      let window = increase_window now limits.ip_rate_window state.login in
      let counted = record b { clients = put client (record state { login = window }) b.clients } in
      if ltb limits.ip_rate_limit window.count
      then (limited, counted)
      else check_account account now (lookup account counted.accounts) counted

  unfoldable pub allow_login : Text → Text → ℕ → Backend → RiskResult × Backend
  unfolding client_state
  allow_login client account now b =
      found_client (client_state client now b) (count_login client account now)

  abbrev pub has_lapsed : ℕ → Option ℕ → Bool
  has_lapsed now none = false
  has_lapsed now (some last) = leb (last + limits.failure_window) now

  abbrev pub later_time : ℕ → ℕ → ℕ
  later_time first second = if ltb first second then second else first

  -- The account's state after one more failure.
  unfoldable pub fail_account : ℕ → Account → Account
  unfolding lock_duration
  fail_account now state =
      let failures = if has_lapsed now state.last_failure then 1 else suc state.failures in
      let lock_until =
        if leb limits.failure_limit failures
        then now + lock_duration limits.lock_base limits.lock_max limits.failure_limit failures
        else state.lock_until in
      record {
        failures = failures;
        last_failure = some now;
        lock_until = lock_until;
        expires_at = later_time (now + limits.failure_window) lock_until;
      }

  abbrev pub count_failure : Text → ℕ → Account → Map Account → RiskResult × Map Account
  count_failure account now state accounts =
      if ltb now state.lock_until
      then (allowed, put account state accounts)
      else (allowed, put account (fail_account now state) accounts)

  -- A new account, if there is room.
  unfoldable pub admit_account : Text → ℕ → Map Account → RiskResult × Map Account
  unfolding clean_accounts
  admit_account account now accounts =
      let cleaned = clean_accounts now accounts in
      if ltb (length accounts) limits.account_capacity
      then count_failure account now new_account accounts
      else if ltb (length cleaned) limits.account_capacity
      then count_failure account now new_account cleaned
      else (limited, cleaned)

  abbrev pub fail_known : Text → ℕ → Option Account → Map Account → RiskResult × Map Account
  fail_known account now none accounts = admit_account account now accounts
  fail_known account now (some state) accounts =
      if leb state.expires_at now
      then admit_account account now (erase account accounts)
      else count_failure account now state accounts

  abbrev pub with_accounts : Backend → RiskResult × Map Account → RiskResult × Backend
  with_accounts b (r, accounts) = (r, record b { accounts = accounts })

  unfoldable pub record_login_failure : Text → ℕ → Backend → RiskResult × Backend
  record_login_failure account now b =
      with_accounts b (fail_known account now (lookup account b.accounts) b.accounts)

  unfoldable pub clear_login_failure : Text → Backend → RiskResult × Backend
  clear_login_failure account b = (allowed, record b { accounts = erase account b.accounts })
