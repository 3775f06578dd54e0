-- ===== src/Models/Audits.antt =====
-- app/models/audit_log.py. The caller's address, its agent and the details are left out.
use prime_pizza_backend.Base.{ℕ, Option}
use prime_pizza_backend.Text.{Text}
use prime_pizza_backend.Enums.{AuditAction}

pub record AuditLog : Type 0 where
  pub user_id : Option ℕ
  pub action : AuditAction
  pub resource_type : Text
  pub resource_id : Option Text
  pub message : Option Text
