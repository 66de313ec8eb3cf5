-- ===== src/Risk/Runs.antt =====
-- Runs of the memory backend: any sequence of its operations at any times.
use cool_admin_go_next.Common.{ℕ, List, [], ◌∷◌, Text}
use cool_admin_go_next.Risk.Memory.{Limits, RiskResult, Backend}
use cool_admin_go_next.Risk.Operations.{
  allow_captcha, save_captcha, consume_captcha, allow_login, record_login_failure,
  clear_login_failure,
}

-- The methods of `riskBackend`.
pub data RiskOp : Type 0 where
  op_allow_captcha : Text → RiskOp
  op_save_captcha : Text → Text → Text → RiskOp
  op_consume_captcha : Text → Text → RiskOp
  op_allow_login : Text → Text → RiskOp
  op_record_failure : Text → RiskOp
  op_clear_failure : Text → RiskOp

pub record Timed : Type 0 where
  pub op : RiskOp
  pub now : ℕ

module _ (limits : Limits) where
  unfoldable pub perform : RiskOp → ℕ → Backend → RiskResult × Backend
  perform (op_allow_captcha client) now b = allow_captcha limits client now b
  perform (op_save_captcha client captcha_id answer) now b =
      save_captcha limits client captcha_id answer now b
  perform (op_consume_captcha captcha_id answer) now b =
      consume_captcha limits captcha_id answer now b
  perform (op_allow_login client account) now b = allow_login limits client account now b
  perform (op_record_failure account) now b = record_login_failure limits account now b
  perform (op_clear_failure account) now b = clear_login_failure limits account b

  unfoldable pub perform_all : List Timed → Backend → Backend
  unfolding perform
  perform_all [] b = b
  perform_all (t ∷ ts) b = perform_all ts (perform t.op t.now b).1
