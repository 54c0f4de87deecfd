-- ===== src/Federation/Sweep.antt =====
-- The audit list, the statistics and the sweep: `getMessage` to `expireMessages` of
-- src/modules/federation/memory-store.ts.
use otto_control.Prelude.{
  ℕ, String, ◌===◌, Bool, true, false, not, ◌&&◌, Option, none, some, List, [], ◌∷◌, ◌++◌, get,
  update, values, leb, if◌then◌else◌, select, take, total, one_if,
}
use mathlib.Core.List.{reverse}
use otto_control.Federation.Records.{Message, MessageStatus, AuditEvent, Store}
use otto_control.Federation.Directory.{is_queued, expire}
use otto_control.Federation.Limits.{live_nonces, live_windows, window_start}

unfoldable pub get_message : Store → String → Option Message
get_message s id = get id s.messages

unfoldable pub append_audit_event : Store → AuditEvent → Store
append_audit_event s e = record s { audit_events = s.audit_events ++ e ∷ [] }

-- `auditEvents.slice(-limit).reverse()`, for a positive limit.
unfoldable pub list_audit_events : Store → ℕ → List AuditEvent
list_audit_events s limit = take limit (reverse s.audit_events)

pub record QueueStats : Type 0 where
  pub pending : ℕ
  pub claimed : ℕ
  pub delivered : ℕ
  pub expired : ℕ

abbrev pub is_status : MessageStatus → MessageStatus → Bool
is_status MessageStatus.pending MessageStatus.pending = true
is_status MessageStatus.claimed MessageStatus.claimed = true
is_status MessageStatus.delivered MessageStatus.delivered = true
is_status MessageStatus.expired MessageStatus.expired = true
is_status _ _ = false

-- What one message adds to the entry of a status.
abbrev pub part : (Message → ℕ) → MessageStatus → Message → ℕ
part f st m = if is_status m.status st then f m else 0

abbrev pub stats_by : (Message → ℕ) → List Message → QueueStats
stats_by f ms = record {
  pending = total (part f MessageStatus.pending) ms;
  claimed = total (part f MessageStatus.claimed) ms;
  delivered = total (part f MessageStatus.delivered) ms;
  expired = total (part f MessageStatus.expired) ms;
}

unfoldable pub queue_stats : Store → QueueStats
queue_stats s = stats_by (λ m. 1) (values s.messages)

unfoldable pub queue_bytes : Store → QueueStats
queue_bytes s = stats_by (λ m. m.size_bytes) (values s.messages)

pub record DeploymentUsage : Type 0 where
  pub pending_messages : ℕ
  pub claimed_messages : ℕ
  pub pending_bytes : ℕ
  pub claimed_bytes : ℕ

abbrev pub is_to : String → Message → Bool
is_to d m = m.envelope.recipient_deployment_id === d

unfoldable pub deployment_usage : Store → String → DeploymentUsage
deployment_usage s d =
    let ms = select (is_to d) (values s.messages) in
    record {
      pending_messages = total (part (λ m. 1) MessageStatus.pending) ms;
      claimed_messages = total (part (λ m. 1) MessageStatus.claimed) ms;
      pending_bytes = total (part (λ m. m.size_bytes) MessageStatus.pending) ms;
      claimed_bytes = total (part (λ m. m.size_bytes) MessageStatus.claimed) ms;
    }

pub record SweepResult : Type 0 where
  pub expired : ℕ
  pub purged : ℕ

abbrev pub is_overdue : ℕ → Message → Bool
is_overdue now m = is_queued m && leb m.envelope.expires_at now

abbrev pub is_purged : ℕ → Message → Bool
is_purged before m = elim m.status [
  | MessageStatus.pending ↦ false
  | MessageStatus.claimed ↦ false
  | MessageStatus.delivered ↦ elim m.delivered_at [ none ↦ false | some t ↦ leb t before ]
  | MessageStatus.expired ↦ leb m.envelope.expires_at before
]

unfoldable pub expire_messages : Store → ℕ → ℕ → SweepResult × Store
expire_messages s now delivered_before =
    let ms = update (λ m. if is_overdue now m then expire m else m) s.messages in
    (
      record {
        expired = total (λ m. one_if (is_overdue now m)) (values s.messages);
        purged = total (λ m. one_if (is_purged delivered_before m)) (values ms);
      },
      record s {
        messages = select (λ e. not (is_purged delivered_before e.1)) ms;
        nonces = live_nonces now s.nonces;
        rate_windows = live_windows (window_start now) s.rate_windows;
      },
    )
