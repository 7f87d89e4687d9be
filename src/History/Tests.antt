-- ===== src/History/Tests.antt =====
-- Runs of src/history.ts and src/audit.ts.
use claw_crony.Base.{◌≡◌, refl, Bool, true, false, none, some, List, [], ◌∷◌, take}
use claw_crony.Base.Text.{codes}
use claw_crony.Base.Json.{Fields, keys, str, arr, obj, nil, cons, end, field}
use claw_crony.History.{
  redacted, redact_object, Entry, Filter, Options, matches_filter, File, with_redacted,
  record_entry, tail, blank, malformed, entry_line,
}
use claw_crony.History.Redact.{IsRedactedFields, redact_object-IsRedacted}
use claw_crony.History.Tail.{newest, tail-record_entry}
use claw_crony.History.Audit.{Call, record_inbound, record_security_event}

abbrev details : Fields
details = field (codes "peer") (str (codes "a")) (
    field (codes "nested")
      (arr (cons (obj (field (codes "accessToken") (str (codes "x")) end)) nil))
      (field (codes "Ciphertext") (str (codes "c")) end))

redacted-details :
    redact_object true details
    ≡ field (codes "peer") (str (codes "a")) (
        field
          (codes "nested")
          (arr (cons (obj (field (codes "accessToken") redacted end)) nil))
          (field (codes "Ciphertext") (str (codes "c")) end))
unfolding redact_object
redacted-details = refl

abbrev entry : Entry
entry = record {
  ts = codes "t";
  kind = codes "send.failed";
  status = codes "failure";
  direction = none;
  match_id = some 3;
  message_id = none;
  peer = none;
  duration_ms = none;
  detail = some details;
}

abbrev failures : Filter
failures = record {
  count = some 0;
  kind = none;
  status = some (codes "failure");
  direction = none;
  match_id = some 3;
  peer = some [];
}

abbrev options : Options
options = record { enabled = true; include_encrypted_payloads = false }

abbrev file : File Entry
file = some (blank ∷ malformed ∷ entry_line entry ∷ [])

entry_passes : matches_filter failures entry ≡ true
unfolding matches_filter
entry_passes = refl

redact_object-IsRedacted_example :
    IsRedactedFields false (redact_object false details)
    × (keys (redact_object false details) ≡ keys details)
    × (redact_object false (redact_object false details) ≡ redact_object false details)
redact_object-IsRedacted_example = redact_object-IsRedacted false details

tail-record_entry_example :
    (tail failures (record_entry options true entry file)
      ≡ with_redacted false entry ∷ take 0 (newest failures file))
    × (tail failures (record_entry options false entry file) ≡ tail failures file)
tail-record_entry_example = tail-record_entry options entry failures file refl entry_passes

abbrev calls : List (Bool × Call)
calls =
    (true, record_inbound (codes "1") (codes "t") (codes "c") (codes "completed") 5)
    ∷ (false, record_security_event (codes "2") (codes "http") (codes "auth"))
    ∷ (true, record_security_event (codes "3") (codes "rpc") (codes "auth"))
    ∷ []
