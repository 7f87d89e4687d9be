-- ===== src/Telemetry.antt =====
-- src/telemetry.ts and the collector of src/internal/metrics.ts: counters of requests and tasks. Times are
-- in milliseconds, where the source keeps their ISO texts. The regular expression `/timed out/i` is the
-- parameter `is_timeout`. Log lines and the audit callback are left out: they change no counter. No peer
-- has the name of a property of JavaScript's `Object.prototype`.
pub mod Events
mod Balance
pub mod Tally
pub mod Average
pub mod Peers
mod Tests
mod State
pub use State.*
use claw_crony.Base.{
  ℕ, ◌+◌, ◌*◌, ◌/◌, ◌<◌, max, String, Bool, true, false, Option, none, some, List, [], ◌∷◌, ltb,
  ◌==◌, if◌then◌else◌,
}
use claw_crony.Base.Dict.{Dict, lookup, insert}
use claw_crony.PeerHealth.{PeerState, Health, Circuit}

pub init : Telemetry
init = record {
  collector = empty_metrics;
  http = record {
    requests_total = 0;
    jsonrpc_requests = 0;
    rest_requests = 0;
    metrics_requests = 0;
    shared_context_requests = 0;
    outbound_requests = 0;
    security_rejections = 0;
    last_request_at = none;
  };
  tasks = record {
    queued = 0;
    started = 0;
    completed = 0;
    failed = 0;
    canceled = 0;
    rejected = 0;
    timed_out = 0;
    queue_rejections = 0;
    active = 0;
    queue_depth = 0;
    max_active_observed = 0;
    max_queue_depth_observed = 0;
    total_duration_ms = 0;
    finished = 0;
    expired = 0;
    last_started_at = none;
    last_finished_at = none;
    last_cleanup_at = none;
  };
  peer_retries = [];
}

pub data Route : Type 0 where
  jsonrpc rest metrics shared_context : Route

-- `TerminalTaskState`
pub data Outcome : Type 0 where
  completed failed canceled rejected : Outcome

abbrev pub count_route : Route → Http → Http
count_route jsonrpc h = record h { jsonrpc_requests = h.jsonrpc_requests + 1 }
count_route rest h = record h { rest_requests = h.rest_requests + 1 }
count_route metrics h = record h { metrics_requests = h.metrics_requests + 1 }
count_route shared_context h = record h { shared_context_requests = h.shared_context_requests + 1 }

pub record_inbound_http : ℕ → Route → Telemetry → Telemetry
record_inbound_http now route t = record t {
  collector = record_receive now t.collector;
  http =
      count_route route
        (record t.http { requests_total = t.http.requests_total + 1; last_request_at = some now });
}

pub record_outbound_request : ℕ → Bool → Telemetry → Telemetry
record_outbound_request now ok t = record t {
  http = record t.http { outbound_requests = t.http.outbound_requests + 1 };
  collector = if ok then record_send now t.collector else record_error t.collector;
}

-- `x || 0`
abbrev pub or_zero : Option ℕ → ℕ
or_zero none = 0
or_zero (some n) = n

pub record_peer_retry : String → Telemetry → Telemetry
record_peer_retry peer t = record t {
  peer_retries = insert peer (or_zero (lookup peer t.peer_retries) + 1) t.peer_retries;
}

pub record_security_rejection : Telemetry → Telemetry
record_security_rejection t = record t {
  collector = record_security t.collector;
  http = record t.http { security_rejections = t.http.security_rejections + 1 };
}

pub set_queue_state : ℕ → ℕ → Tasks → Tasks
set_queue_state active depth s = record s {
  active = active;
  queue_depth = depth;
  max_active_observed = max s.max_active_observed active;
  max_queue_depth_observed = max s.max_queue_depth_observed depth;
}

pub record_task_queued : ℕ → Telemetry → Telemetry
unfolding set_queue_state
record_task_queued depth t = record t {
  tasks = set_queue_state t.tasks.active depth (record t.tasks { queued = t.tasks.queued + 1 });
}

pub record_task_start : ℕ → ℕ → ℕ → Telemetry → Telemetry
unfolding set_queue_state
record_task_start now active depth t = record t {
  tasks =
      set_queue_state active depth
        (record t.tasks { started = t.tasks.started + 1; last_started_at = some now });
}

module _ (is_timeout : String → Bool) where
  abbrev pub is_timeout_error : Option String → Bool
  is_timeout_error none = false
  is_timeout_error (some message) = is_timeout message

  -- The branches on the state, whose tests exclude each other.
  abbrev pub count_outcome : Outcome → Option String → Telemetry → Telemetry
  count_outcome completed error t = record t {
    tasks = record t.tasks { completed = t.tasks.completed + 1 };
  }
  count_outcome failed error t = record t {
    collector = record_error t.collector;
    tasks = record t.tasks {
      failed = t.tasks.failed + 1;
      timed_out = if is_timeout_error error then t.tasks.timed_out + 1 else t.tasks.timed_out;
    };
  }
  count_outcome canceled error t = record t {
    tasks = record t.tasks { canceled = t.tasks.canceled + 1 };
  }
  count_outcome rejected error t = record t {
    tasks = record t.tasks { rejected = t.tasks.rejected + 1 };
  }

  pub record_task_finish : ℕ → Outcome → ℕ → ℕ → ℕ → Option String → Telemetry → Telemetry
  unfolding set_queue_state
  record_task_finish now outcome duration active depth error t =
      count_outcome outcome error (record t {
        tasks = set_queue_state active depth (record t.tasks {
          finished = t.tasks.finished + 1;
          total_duration_ms = t.tasks.total_duration_ms + duration;
          last_finished_at = some now;
        });
      })

pub record_queue_rejected : ℕ → Telemetry → Telemetry
unfolding set_queue_state
record_queue_rejected depth t = record t {
  tasks = set_queue_state t.tasks.active depth (record t.tasks {
    queue_rejections = t.tasks.queue_rejections + 1;
    rejected = t.tasks.rejected + 1;
  });
}

pub record_task_expired : ℕ → Telemetry → Telemetry
record_task_expired now t = record t {
  tasks = record t.tasks { expired = t.tasks.expired + 1; last_cleanup_at = some now };
}

-- `Number((total / finished).toFixed(2))` in hundredths, the quotient taken exactly: of two equally near
-- ones the larger.
pub average_hundredths : Tasks → ℕ
average_hundredths s =
    if ltb 0 s.finished then (200 * s.total_duration_ms + s.finished) / (2 * s.finished) else 0

pub record PeerMetrics : Type 0 where
  pub health : Health
  pub circuit : Circuit
  pub consecutive_failures : ℕ
  pub total_retries : ℕ
  pub last_check_at : Option ℕ

-- A time of 0 counts as none.
abbrev pub truthy_time : Option ℕ → Option ℕ
truthy_time none = none
truthy_time (some t) = if t == 0 then none else some t

abbrev pub describe : ℕ → PeerState → PeerMetrics
describe retries s = record {
  health = s.health;
  circuit = s.circuit;
  consecutive_failures = s.consecutive_failures;
  total_retries = retries;
  last_check_at = truthy_time s.last_check_at;
}

-- The loop of `snapshot` over the states of the health manager.
pub peer_metrics : Dict ℕ → Dict PeerState → Dict PeerMetrics → Dict PeerMetrics
peer_metrics retries [] peers = peers
peer_metrics retries ((name, s) ∷ states) peers =
    peer_metrics retries states (insert name (describe (or_zero (lookup name retries)) s) peers)

pub record Snapshot : Type 0 where
  pub protocol : Collector
  pub http : Http
  pub tasks : Tasks
  pub average_duration : ℕ
  pub peers : Dict PeerMetrics

-- `states` is what the provider of peer states gives, and nothing where none is registered.
pub snapshot : Dict PeerState → Telemetry → Snapshot
unfolding average_hundredths peer_metrics
snapshot states t = record {
  protocol = t.collector;
  http = t.http;
  tasks = t.tasks;
  average_duration = average_hundredths t.tasks;
  peers = peer_metrics t.peer_retries states [];
}
