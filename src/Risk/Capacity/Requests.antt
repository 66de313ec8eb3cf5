-- ===== src/Risk/Capacity/Requests.antt =====
-- The memory backend stays within its capacities, whatever is requested.
use cool_admin_go_next.Common.{
  ℕ, ◌+◌, ◌≤◌, ◌<◌, ◌≡◌, refl, Bool, true, false, not, List, [], ◌∷◌, Text, Option, none, some, Map,
  lookup, erase, put, length, leb, ltb, if◌then◌else◌, text_eq, text_eq_iff, arith, Bool-cases, inl,
  inr, length-put_le, length-erase_le, lookup-put_same, lookup-put_other, ◌||◌,
}
use cool_admin_go_next.Risk.Memory.{
  Limits, RiskResult, allowed, limited, matched, not_matched, conflict, Window, Client, Account,
  Backend, or_empty, increase_window, remove_captcha,
}
use cool_admin_go_next.Risk.Operations.{
  client_state, with_captcha, found_client, store_captcha, save_captcha, consume_captcha,
  check_account, count_login, allow_login, record_login_failure, clear_login_failure,
}
use cool_admin_go_next.Risk.Shrinking.{remove_captcha-Shrinks, rewrite_client-Shrinks}
use cool_admin_go_next.Risk.Keeping.{
  IsBounded, Shrinks-IsBounded, Admits, client_state-Admits, Roomy, with_captcha-Goes,
  allow_captcha-Keeps,
}
use cool_admin_go_next.Risk.Runs.{
  RiskOp, op_allow_captcha, op_save_captcha, op_consume_captcha, op_allow_login, op_record_failure,
  op_clear_failure, Timed, perform, perform_all,
}
use cool_admin_go_next.Risk.Capacity.Accounts.{fail_known_small}

captchas_of-put :
    (client other id : Text) (e : ℕ) (m : Map (Map ℕ)) (limit : ℕ)
    → length (or_empty (lookup client m)) < limit
    → length (or_empty (lookup other m)) ≤ limit
    → length (or_empty (lookup other (put client (put id e (or_empty (lookup client m))) m)))
      ≤ limit
captchas_of-put client other id e m limit room rest = elim (Bool-cases (text_eq client other)) [
  | inl same ↦
      let eq : client ≡ other = (text_eq_iff client other).0 same in
      rw (← eq, lookup-put_same client (put id e (or_empty (lookup client m))) m)
        (omega (arith, length-put_le id e (or_empty (lookup client m))))
  | inr differ ↦
      rw (lookup-put_other other client (put id e (or_empty (lookup client m))) m differ) rest
]

module _ (limits : Limits) where
  store_captcha-IsBounded :
      (client id answer : Text) (now : ℕ) (d : Backend)
      → IsBounded limits d
      → Roomy limits client d
      → IsBounded limits (store_captcha limits client id answer now d)
  store_captcha-IsBounded client id answer now d h (room, own) = record {
    clients = h.clients;
    accounts = h.accounts;
    captchas = omega (
      arith,
      length-put_le id
          (record { answer = answer; client = client; expires_at = now + limits.captcha_ttl })
          d.captchas,
    );
    outstanding = λ other.
        captchas_of-put client other id (now + limits.captcha_ttl) d.captchas_by_client
          limits.outstanding_per_ip own (h.outstanding other);
  }

  save_found-IsBounded :
      (client id answer : Text) (now : ℕ) (r : Option Client × Backend)
      → IsBounded limits r.1
      → IsBounded limits
          (found_client limits r (λ _.
            with_captcha limits client now
              (λ d. (allowed, store_captcha limits client id answer now d)))).1
  save_found-IsBounded client id answer now (none, b) h = h
  save_found-IsBounded client id answer now (some state, b) h =
      elim (with_captcha-Goes limits client now
        (λ d. (allowed, store_captcha limits client id answer now d)) b) [
          | inl (d, s, r) ↦ rw r (Shrinks-IsBounded limits s h)
          | inr (d, s, room, r) ↦
              rw r
                (store_captcha-IsBounded client id answer now d (Shrinks-IsBounded limits s h) room)
        ]

  save_captcha-IsBounded :
      (client id answer : Text) (now : ℕ) (b : Backend)
      → IsBounded limits b
      → IsBounded limits (save_captcha limits client id answer now b).1
  unfolding save_captcha
  save_captcha-IsBounded client id answer now b h =
      elim (lookup id b.captchas)
        as (λ found.
          IsBounded limits
            (elim found as (λ _. RiskResult × Backend) [
              | some _ ↦ (conflict, b)
              | none ↦ found_client limits (client_state limits client now b) (λ _.
                  with_captcha limits client now
                    (λ d. (allowed, store_captcha limits client id answer now d)))
            ]).1) [
              | some _ ↦ h
              | none ↦
                  save_found-IsBounded client id answer now (client_state limits client now b)
                    ((client_state-Admits limits client now b).keeps.bounded h)
            ]

  accounts-IsBounded :
      (b : Backend) (accounts : Map Account)
      → IsBounded limits b
      → length accounts ≤ limits.account_capacity
      → IsBounded limits (record b { accounts = accounts })
  accounts-IsBounded b accounts h small = record {
    clients = h.clients;
    accounts = small;
    captchas = h.captchas;
    outstanding = h.outstanding;
  }

  consume_captcha-IsBounded :
      (id answer : Text) (now : ℕ) (b : Backend)
      → IsBounded limits b
      → IsBounded limits (consume_captcha limits id answer now b).1
  unfolding consume_captcha
  consume_captcha-IsBounded id answer now b h =
      elim (lookup id b.captchas)
        as (λ found.
          IsBounded limits
            (elim found as (λ _. RiskResult × Backend) [
              | none ↦ (not_matched, b)
              | some c ↦ (
                if leb c.expires_at now || not (text_eq c.answer answer)
                    then not_matched
                    else matched,
                remove_captcha id c.client b,
              )
            ]).1) [
              | none ↦ h
              | some c ↦ Shrinks-IsBounded limits (remove_captcha-Shrinks id c.client b) h
            ]

  check_account-IsBounded :
      (account : Text) (now : ℕ) (found : Option Account) (b : Backend)
      → IsBounded limits b
      → IsBounded limits (check_account limits account now found b).1
  check_account-IsBounded account now none b h = h
  check_account-IsBounded account now (some state) b h =
      go (leb state.expires_at now) (ltb now state.lock_until)
    where
      erased : Backend
      erased = record b { accounts = erase account b.accounts }

      go :
          (x y : Bool)
          → IsBounded limits
              (if◌then◌else◌ {A = RiskResult × Backend} x
                (allowed, erased)
                (if y then (limited, b) else (allowed, b))).1
      go true y =
          accounts-IsBounded b (erase account b.accounts) h
            (omega (arith, length-erase_le account b.accounts, h.accounts))
      go false true = h
      go false false = h

  count_login-IsBounded :
      (client account : Text) (now : ℕ) (state : Client) (b : Backend)
      → lookup client b.clients ≡ some state
      → IsBounded limits b
      → IsBounded limits (count_login limits client account now state b).1
  count_login-IsBounded client account now state b known h =
      go (ltb limits.ip_rate_limit window.count)
    where
      window : Window
      window = increase_window now limits.ip_rate_window state.login

      counted : Backend
      counted = record b { clients = put client (record state { login = window }) b.clients }

      still : IsBounded limits counted
      still =
          Shrinks-IsBounded limits
            (rewrite_client-Shrinks client state (record state { login = window }) b known) h

      go :
          (x : Bool)
          → IsBounded limits
              (if x
                then (limited, counted)
                else check_account limits account now (lookup account counted.accounts) counted).1
      go true = still
      go false = check_account-IsBounded account now (lookup account counted.accounts) counted still

  allow_login-IsBounded :
      (client account : Text) (now : ℕ) (b : Backend)
      → IsBounded limits b
      → IsBounded limits (allow_login limits client account now b).1
  unfolding allow_login
  allow_login-IsBounded client account now b h =
      go (client_state limits client now b) admits.known (admits.keeps.bounded h)
    where
      admits : Admits limits client b (client_state limits client now b)
      admits = client_state-Admits limits client now b

      go :
          (r : Option Client × Backend)
          → ((state : Client) → r.0 ≡ some state → lookup client r.1.clients ≡ some state)
          → IsBounded limits r.1
          → IsBounded limits (found_client limits r (count_login limits client account now)).1
      go (none, d) known bounded = bounded
      go (some state, d) known bounded =
          count_login-IsBounded client account now state d (known state refl) bounded

  perform-IsBounded :
      (op : RiskOp) (now : ℕ) (b : Backend)
      → IsBounded limits b
      → IsBounded limits (perform limits op now b).1
  unfolding perform record_login_failure clear_login_failure
  perform-IsBounded (op_allow_captcha client) now b h =
      (allow_captcha-Keeps limits client now b).bounded h
  perform-IsBounded (op_save_captcha client id answer) now b h =
      save_captcha-IsBounded client id answer now b h
  perform-IsBounded (op_consume_captcha id answer) now b h =
      consume_captcha-IsBounded id answer now b h
  perform-IsBounded (op_allow_login client account) now b h =
      allow_login-IsBounded client account now b h
  perform-IsBounded (op_record_failure account) now b h =
      accounts-IsBounded b _ h
        (fail_known_small limits account now (lookup account b.accounts) b.accounts refl h.accounts)
  perform-IsBounded (op_clear_failure account) now b h =
      accounts-IsBounded b (erase account b.accounts) h
        (omega (arith, length-erase_le account b.accounts, h.accounts))

-- However many requests arrive, from whichever clients and at whatever times, the memory backend
-- keeps at most as many clients, accounts and captchas as it is configured for, and at most the
-- configured number of outstanding captchas for each client.
pub perform_all-IsBounded :
    (limits : Limits) (ts : List Timed) (b : Backend)
    → IsBounded limits b
    → IsBounded limits (perform_all limits ts b)
unfolding perform_all
perform_all-IsBounded limits [] b h = h
perform_all-IsBounded limits (t ∷ ts) b h =
    perform_all-IsBounded limits ts _ (perform-IsBounded limits t.op t.now b h)
