-- ===== src/Risk/Captchas.antt =====
-- A captcha is consumed once.
use cool_admin_go_next.Common.{
  ℕ, ◌≡◌, refl, ◌∙◌, Bool, true, false, List, [], ◌∷◌, Text, Option, none, some, lookup, erase, put,
  leb, ltb, if◌then◌else◌, text_eq, All, ◌||◌, not, inl, inr, lookup-put_other, lookup-erase_same,
  lookup-erase-none,
}
use cool_admin_go_next.Risk.Memory.{
  Limits, RiskResult, allowed, limited, matched, not_matched, conflict, Window, Client, Captcha,
  Account, Backend, increase_window, remove_captcha,
}
use cool_admin_go_next.Risk.Operations.{
  client_state, with_captcha, found_client, store_captcha, save_captcha, consume_captcha,
  check_account, count_login, allow_login, record_login_failure, clear_login_failure,
}
use cool_admin_go_next.Risk.Keeping.{client_state-Admits, with_captcha-Goes, allow_captcha-Keeps}
use cool_admin_go_next.Risk.Runs.{
  RiskOp, op_allow_captcha, op_save_captcha, op_consume_captcha, op_allow_login, op_record_failure,
  op_clear_failure, Timed, perform, perform_all,
}

abbrev pub Gone : Text → Backend → Type 0
Gone id b = lookup id b.captchas ≡ none

-- Whether the operation saves a captcha under the id.
abbrev pub saves : Text → RiskOp → Bool
saves id (op_save_captcha client captcha_id answer) = text_eq captcha_id id
saves id _ = false

module _ (limits : Limits) (id : Text) where
  save_found-Gone :
      (client captcha_id answer : Text) (now : ℕ) (r : Option Client × Backend)
      → text_eq captcha_id id ≡ false
      → Gone id r.1
      → Gone id
          (found_client limits r (λ _.
            with_captcha limits client now
              (λ d. (allowed, store_captcha limits client captcha_id answer now d)))).1
  save_found-Gone client captcha_id answer now (none, b) other h = h
  save_found-Gone client captcha_id answer now (some state, b) other h =
      elim (with_captcha-Goes limits client now
        (λ d. (allowed, store_captcha limits client captcha_id answer now d)) b) [
          | inl (d, s, r) ↦ rw r (s.gone id h)
          | inr (d, s, room, r) ↦
              rw r (lookup-put_other id captcha_id _ d.captchas other ∙ s.gone id h)
        ]

  save_captcha-Gone :
      (client captcha_id answer : Text) (now : ℕ) (b : Backend)
      → text_eq captcha_id id ≡ false
      → Gone id b
      → Gone id (save_captcha limits client captcha_id answer now b).1
  unfolding save_captcha
  save_captcha-Gone client captcha_id answer now b other h =
      elim (lookup captcha_id b.captchas)
        as (λ found.
          Gone id
            (elim found as (λ _. RiskResult × Backend) [
              | some _ ↦ (conflict, b)
              | none ↦ found_client limits (client_state limits client now b) (λ _.
                  with_captcha limits client now
                    (λ d. (allowed, store_captcha limits client captcha_id answer now d)))
            ]).1) [
              | some _ ↦ h
              | none ↦
                  save_found-Gone client captcha_id answer now (client_state limits client now b)
                    other ((client_state-Admits limits client now b).keeps.gone id h)
            ]

  consume_captcha-Gone :
      (captcha_id answer : Text) (now : ℕ) (b : Backend)
      → Gone id b
      → Gone id (consume_captcha limits captcha_id answer now b).1
  unfolding consume_captcha remove_captcha
  consume_captcha-Gone captcha_id answer now b h =
      elim (lookup captcha_id b.captchas)
        as (λ found.
          Gone id
            (elim found as (λ _. RiskResult × Backend) [
              | none ↦ (not_matched, b)
              | some c ↦ (
                if leb c.expires_at now || not (text_eq c.answer answer)
                    then not_matched
                    else matched,
                remove_captcha captcha_id c.client b,
              )
            ]).1) [ none ↦ h | some c ↦ lookup-erase-none id captcha_id b.captchas h ]

  check_account-Gone :
      (account : Text) (now : ℕ) (found : Option Account) (b : Backend)
      → Gone id b
      → Gone id (check_account limits account now found b).1
  check_account-Gone account now none b h = h
  check_account-Gone account now (some state) b h =
      go (leb state.expires_at now) (ltb now state.lock_until)
    where
      go :
          (x y : Bool)
          → Gone id
              (if◌then◌else◌ {A = RiskResult × Backend} x
                (allowed, record b { accounts = erase account b.accounts })
                (if y then (limited, b) else (allowed, b))).1
      go true y = h
      go false true = h
      go false false = h

  found_login-Gone :
      (client account : Text) (now : ℕ) (r : Option Client × Backend)
      → Gone id r.1
      → Gone id (found_client limits r (count_login limits client account now)).1
  found_login-Gone client account now (none, b) h = h
  found_login-Gone client account now (some state, b) h = go (ltb limits.ip_rate_limit window.count)
    where
      window : Window
      window = increase_window now limits.ip_rate_window state.login

      counted : Backend
      counted = record b { clients = put client (record state { login = window }) b.clients }

      go :
          (x : Bool)
          → Gone id
              (if◌then◌else◌ {A = RiskResult × Backend} x
                (limited, counted)
                (check_account limits account now (lookup account counted.accounts) counted)).1
      go true = h
      go false = check_account-Gone account now (lookup account counted.accounts) counted h

  perform-Gone :
      (op : RiskOp) (now : ℕ) (b : Backend)
      → saves id op ≡ false
      → Gone id b
      → Gone id (perform limits op now b).1
  unfolding perform allow_login record_login_failure clear_login_failure
  perform-Gone (op_allow_captcha client) now b s h =
      (allow_captcha-Keeps limits client now b).gone id h
  perform-Gone (op_save_captcha client captcha_id answer) now b s h =
      save_captcha-Gone client captcha_id answer now b s h
  perform-Gone (op_consume_captcha captcha_id answer) now b s h =
      consume_captcha-Gone captcha_id answer now b h
  perform-Gone (op_allow_login client account) now b s h =
      found_login-Gone client account now (client_state limits client now b)
        ((client_state-Admits limits client now b).keeps.gone id h)
  perform-Gone (op_record_failure account) now b s h = h
  perform-Gone (op_clear_failure account) now b s h = h

  perform_all-Gone :
      (ts : List Timed) (b : Backend)
      → All (λ t. saves id t.op ≡ false) ts
      → Gone id b
      → Gone id (perform_all limits ts b)
  unfolding perform_all
  perform_all-Gone [] b s h = h
  perform_all-Gone (t ∷ ts) b (s, ss) h =
      perform_all-Gone ts (perform limits t.op t.now b).1 ss (perform-Gone t.op t.now b s h)

  consume_captcha_removes :
      (answer : Text) (now : ℕ) (b : Backend) → Gone id (consume_captcha limits id answer now b).1
  unfolding consume_captcha remove_captcha
  consume_captcha_removes answer now b = go (lookup id b.captchas) refl
    where
      go :
          (found : Option Captcha)
          → lookup id b.captchas ≡ found
          → Gone id
              (elim found as (λ _. RiskResult × Backend) [
                | none ↦ (not_matched, b)
                | some c ↦ (
                  if leb c.expires_at now || not (text_eq c.answer answer)
                      then not_matched
                      else matched,
                  remove_captcha id c.client b,
                )
              ]).1
      go none e = e
      go (some c) e = lookup-erase_same id b.captchas

  consume_captcha_missed :
      (answer : Text) (now : ℕ) (b : Backend)
      → Gone id b
      → (consume_captcha limits id answer now b).0 ≡ not_matched
  unfolding consume_captcha
  consume_captcha_missed answer now b h = go (lookup id b.captchas) h
    where
      go :
          (found : Option Captcha)
          → found ≡ none
          → (elim found as (λ _. RiskResult × Backend) [
            | none ↦ (not_matched, b)
            | some c ↦ (
              if leb c.expires_at now || not (text_eq c.answer answer)
                  then not_matched
                  else matched,
              remove_captcha id c.client b,
            )
          ]).0
            ≡ not_matched
      go none e = refl
      go (some c) e = absurd (cc)

-- A captcha can be tried once: after an attempt to consume it, right or wrong, and after any further
-- requests that do not save a captcha under the same id again, no answer to it matches.
pub consume_captcha_once :
    (limits : Limits) (id first second : Text) (now later : ℕ) (ts : List Timed) (b : Backend)
    → All (λ t. saves id t.op ≡ false) ts
    → (consume_captcha limits id second later
        (perform_all limits ts (consume_captcha limits id first now b).1)).0
      ≡ not_matched
consume_captcha_once limits id first second now later ts b others =
    let consumed = (consume_captcha limits id first now b).1 in
    consume_captcha_missed limits id second later (perform_all limits ts consumed) (
      perform_all-Gone limits id ts consumed others (consume_captcha_removes limits id first now b))
