-- ===== src/Store/Audit.antt =====
-- store/audit.go: the table of audit events. A row holds the event, its owner, tenant and actor
-- trimmed; its metadata are kept in place of their JSON text.
use harness_platform_monorep.Prelude.{none, some, List, ◌==◌, if◌then◌else◌, is_empty, trim_space}
use harness_platform_monorep.Domain.Problem.{ErrorCode}
use harness_platform_monorep.Domain.Audit
use harness_platform_monorep.Domain.Audit.{SecurityAuditEvent}
use harness_platform_monorep.Store.Table.{Result, err, insert_row}

-- `auditToRow`.
abbrev pub audit_row : SecurityAuditEvent → SecurityAuditEvent
audit_row e = record e {
  owner_user_id = trim_space e.owner_user_id;
  tenant_id = trim_space e.tenant_id;
  actor_id = trim_space e.actor_id;
}

-- `Store.AppendAudit`.
unfoldable pub append_audit :
    SecurityAuditEvent → List SecurityAuditEvent → List SecurityAuditEvent × Result (Unit {0})
append_audit e rows =
    if is_empty (trim_space e.owner_user_id)
    then (rows, err ErrorCode.invalid_argument)
    else elim (Audit.validate e) [
      | some c ↦ (rows, err c)
      | none ↦ insert_row (λ r. r.id == e.id) (audit_row e) rows
    ]
