-- ===== src/Telemetry/State.antt =====
-- The counters of src/telemetry.ts and of the collector of src/internal/metrics.ts.
use claw_crony.Base.{ℕ, ◌+◌, Option, none, some}
use claw_crony.Base.Dict.{Dict}

-- `A2AMetrics`
pub record Collector : Type 0 where
  pub messages_sent : ℕ
  pub messages_received : ℕ
  pub acks_sent : ℕ
  pub retries : ℕ
  pub idempotent_hits : ℕ
  pub dead_letters : ℕ
  pub errors : ℕ
  pub security_rejections : ℕ
  pub loop_rejections : ℕ
  pub last_send_at : Option ℕ
  pub last_receive_at : Option ℕ

abbrev pub empty_metrics : Collector
empty_metrics = record {
  messages_sent = 0;
  messages_received = 0;
  acks_sent = 0;
  retries = 0;
  idempotent_hits = 0;
  dead_letters = 0;
  errors = 0;
  security_rejections = 0;
  loop_rejections = 0;
  last_send_at = none;
  last_receive_at = none;
}

abbrev pub record_send : ℕ → Collector → Collector
record_send now c = record c { messages_sent = c.messages_sent + 1; last_send_at = some now }

abbrev pub record_receive : ℕ → Collector → Collector
record_receive now c = record c {
  messages_received = c.messages_received + 1;
  last_receive_at = some now;
}

abbrev pub record_error : Collector → Collector
record_error c = record c { errors = c.errors + 1 }

abbrev pub record_security : Collector → Collector
record_security c = record c { security_rejections = c.security_rejections + 1 }

-- `HttpMetrics`
pub record Http : Type 0 where
  pub requests_total : ℕ
  pub jsonrpc_requests : ℕ
  pub rest_requests : ℕ
  pub metrics_requests : ℕ
  pub shared_context_requests : ℕ
  pub outbound_requests : ℕ
  pub security_rejections : ℕ
  pub last_request_at : Option ℕ

-- `TaskMetrics`
pub record Tasks : Type 0 where
  pub queued : ℕ
  pub started : ℕ
  pub completed : ℕ
  pub failed : ℕ
  pub canceled : ℕ
  pub rejected : ℕ
  pub timed_out : ℕ
  pub queue_rejections : ℕ
  pub active : ℕ
  pub queue_depth : ℕ
  pub max_active_observed : ℕ
  pub max_queue_depth_observed : ℕ
  pub total_duration_ms : ℕ
  pub finished : ℕ
  pub expired : ℕ
  pub last_started_at : Option ℕ
  pub last_finished_at : Option ℕ
  pub last_cleanup_at : Option ℕ

pub record Telemetry : Type 0 where
  pub collector : Collector
  pub http : Http
  pub tasks : Tasks
  pub peer_retries : Dict ℕ
