-- ===== src/Risk/Memory.antt =====
-- The memory backend of risk control (cool-next/risk/risk.go): `memoryRiskBackend` and its
-- operations. Each holds the backend's mutex from start to end, so it is one step. Times are
-- natural numbers; the zero time is 0, before every clock reading, and `IsZero` is a `none`.
use cool_admin_go_next.Common.{
  ℕ, suc, ◌+◌, Bool, true, false, [], ◌∷◌, Text, Option, none, some, Map, lookup, erase, put, leb,
  ◌==◌, if◌then◌else◌, ◌&&◌,
}

-- CaptchaConfig, LoginConfig and the capacities of Config.
pub record Limits : Type 0 where
  pub client_capacity : ℕ
  pub account_capacity : ℕ
  pub captcha_ttl : ℕ
  pub captcha_capacity : ℕ
  pub outstanding_per_ip : ℕ
  pub captcha_rate_limit : ℕ
  pub captcha_rate_window : ℕ
  pub ip_rate_limit : ℕ
  pub ip_rate_window : ℕ
  pub failure_limit : ℕ
  pub failure_window : ℕ
  pub lock_base : ℕ
  pub lock_max : ℕ

pub data RiskResult : Type 0 where
  allowed limited matched not_matched conflict : RiskResult

pub record Window : Type 0 where
  pub count : ℕ
  pub expires_at : ℕ

pub record Client : Type 0 where
  pub captcha : Window
  pub login : Window

pub record Captcha : Type 0 where
  pub answer : Text
  pub client : Text
  pub expires_at : ℕ

pub record Account : Type 0 where
  pub failures : ℕ
  pub last_failure : Option ℕ
  pub lock_until : ℕ
  pub expires_at : ℕ

pub record Backend : Type 0 where
  pub clients : Map Client
  pub accounts : Map Account
  pub captchas : Map Captcha
  pub captchas_by_client : Map (Map ℕ)

abbrev pub empty_window : Window
empty_window = record { count = 0; expires_at = 0 }

abbrev pub new_backend : Backend
new_backend = record { clients = []; accounts = []; captchas = []; captchas_by_client = [] }

-- A map that is missing is read as an empty one.
abbrev pub or_empty : Option (Map ℕ) → Map ℕ
or_empty none = []
or_empty (some m) = m

abbrev pub captchas_of : Text → Backend → Map ℕ
captchas_of client b = or_empty (lookup client b.captchas_by_client)

abbrev pub increase_window : ℕ → ℕ → Window → Window
increase_window now duration w =
    if leb w.expires_at now
    then record { count = 1; expires_at = now + duration }
    else record w { count = suc w.count }

abbrev pub reset_window : ℕ → Window → Window
reset_window now w = if leb w.expires_at now then empty_window else w

abbrev pub is_empty_map {ℓ} : {A : Type ℓ} → Map A → Bool
is_empty_map [] = true
is_empty_map (_ ∷ _) = false

abbrev pub write_captchas : Text → Map ℕ → Map (Map ℕ) → Map (Map ℕ)
write_captchas client rest m = if is_empty_map rest then erase client m else put client rest m

unfoldable pub remove_captcha : Text → Text → Backend → Backend
remove_captcha captcha_id client b = record b {
  captchas = erase captcha_id b.captchas;
  captchas_by_client =
      write_captchas client (erase captcha_id (captchas_of client b)) b.captchas_by_client;
}

-- The loop of `cleanCaptchasLocked` over the entries that it found.
unfoldable pub clean_entries : Text → ℕ → Map ℕ → Backend → Backend
unfolding remove_captcha
clean_entries client now [] b = b
clean_entries client now ((captcha_id, expires_at) ∷ entries) b =
    clean_entries client now entries
      (if leb expires_at now then remove_captcha captcha_id client b else b)

unfoldable pub clean_captchas : Text → ℕ → Backend → Backend
unfolding clean_entries
clean_captchas client now b = clean_entries client now (captchas_of client b) b

-- The loop of `cleanAllLocked`.
unfoldable pub clean_records : ℕ → Map Captcha → Backend → Backend
unfolding remove_captcha
clean_records now [] b = b
clean_records now ((captcha_id, c) ∷ entries) b =
    clean_records now entries
      (if leb c.expires_at now then remove_captcha captcha_id c.client b else b)

unfoldable pub clean_all : ℕ → Backend → Backend
unfolding clean_records
clean_all now b = clean_records now b.captchas b

abbrev pub is_idle : Text → Client → Backend → Bool
is_idle client state b =
    state.captcha.count == 0 && state.login.count == 0 && is_empty_map (captchas_of client b)

abbrev pub reset_client : ℕ → Client → Client
reset_client now state = record {
  captcha = reset_window now state.captcha;
  login = reset_window now state.login;
}

-- `cleanClientLocked` for a client that is known: the windows are reset in place.
unfoldable pub clean_known : Text → ℕ → Client → Backend → Backend
unfolding clean_captchas
clean_known client now state b =
    let cleaned =
      clean_captchas client now
        (record b { clients = put client (reset_client now state) b.clients }) in
    if is_idle client (reset_client now state) cleaned
    then record cleaned { clients = erase client cleaned.clients }
    else cleaned

unfoldable pub clean_client : Text → ℕ → Backend → Backend
unfolding clean_known
clean_client client now b = elim (lookup client b.clients) [
  | none ↦ b
  | some state ↦ clean_known client now state b
]

unfoldable pub clean_each_client : ℕ → Map Client → Backend → Backend
unfolding clean_client
clean_each_client now [] b = b
clean_each_client now ((client, _) ∷ clients) b =
    clean_each_client now clients (clean_client client now b)

unfoldable pub clean_clients : ℕ → Backend → Backend
unfolding clean_all clean_each_client
clean_clients now b = let all = clean_all now b in clean_each_client now all.clients all

-- `cleanAccountsLocked`
unfoldable pub clean_accounts : ℕ → Map Account → Map Account
clean_accounts now [] = []
clean_accounts now ((account, state) ∷ accounts) =
    let rest = clean_accounts now accounts in
    if leb state.expires_at now then rest else (account, state) ∷ rest
