-- ===== src/History/Audit.antt =====
-- src/audit.ts: the audit log of tasks and rejections, on the same kind of file.
use claw_crony.Base.{
  zero, suc, ℕ, ◌≡◌, refl, sym, ap, ◌∙◌, Bool, true, false, Option, none, some, List, [], ◌∷◌, ◌++◌,
  append-nil, append_assoc, if◌then◌else◌, take, count, reverse,
}
use claw_crony.Base.Text.{Text, codes}
use claw_crony.History.{File, write, entries_of, lines_of, last_reversed}
use claw_crony.History.Tail.{last_reversed-take, entries_of-appended}

pub data Direction : Type 0 where
  inbound outbound : Direction

pub data EventType : Type 0 where
  task security : EventType

-- `AuditEntry`
pub record AuditEntry : Type 0 where
  pub ts : Text
  pub direction : Direction
  pub event_type : EventType
  pub task_id : Option Text
  pub context_id : Option Text
  pub peer : Option Text
  pub status : Text
  pub status_code : Option ℕ
  pub duration_ms : Option ℕ
  pub detail : Option Text

unfoldable pub inbound_entry : Text → Text → Text → Text → ℕ → AuditEntry
inbound_entry now task_id context_id status duration_ms = record {
  ts = now;
  direction = inbound;
  event_type = task;
  task_id = some task_id;
  context_id = some context_id;
  peer = none;
  status = status;
  status_code = none;
  duration_ms = some duration_ms;
  detail = none;
}

unfoldable pub outbound_entry : Text → Text → Bool → ℕ → ℕ → AuditEntry
outbound_entry now peer ok status_code duration_ms = record {
  ts = now;
  direction = outbound;
  event_type = task;
  task_id = none;
  context_id = none;
  peer = some peer;
  status = if ok then codes "success" else codes "failure";
  status_code = some status_code;
  duration_ms = some duration_ms;
  detail = none;
}

unfoldable pub security_entry : Text → Text → Text → AuditEntry
security_entry now surface reason = record {
  ts = now;
  direction = inbound;
  event_type = security;
  task_id = none;
  context_id = none;
  peer = none;
  status = codes "rejected";
  status_code = none;
  duration_ms = none;
  detail = some (surface ++ (codes ": " ++ reason));
}

-- The calls of the logger, with whether the file system takes the line.
pub data Call : Type 0 where
  record_inbound : Text → Text → Text → Text → ℕ → Call
  record_outbound : Text → Text → Bool → ℕ → ℕ → Call
  record_security_event : Text → Text → Text → Call

unfoldable pub entry_of : Call → AuditEntry
unfolding inbound_entry outbound_entry security_entry
entry_of (record_inbound now task_id context_id status ms) =
    inbound_entry now task_id context_id status ms
entry_of (record_outbound now peer ok code ms) = outbound_entry now peer ok code ms
entry_of (record_security_event now surface reason) = security_entry now surface reason

unfoldable pub run : List (Bool × Call) → File AuditEntry → File AuditEntry
unfolding write entry_of
run [] file = file
run ((succeeds, call) ∷ calls) file = run calls (write succeeds (entry_of call) file)

-- `entries.slice(-count).reverse()`: `slice(-0)` gives all entries.
unfoldable pub tail : ℕ → File AuditEntry → List AuditEntry
unfolding last_reversed entries_of
tail zero file = reverse (entries_of (lines_of file))
tail (suc count) file = last_reversed (suc count) (entries_of (lines_of file))

-- The entries of the calls whose lines were taken.
abbrev pub logged : List (Bool × Call) → List AuditEntry
logged [] = []
logged ((succeeds, call) ∷ calls) = if succeeds then entry_of call ∷ logged calls else logged calls

entries_of-write :
    (succeeds : Bool) (e : AuditEntry) (file : File AuditEntry)
    → entries_of (lines_of (write succeeds e file))
      ≡ entries_of (lines_of file) ++ (if succeeds then e ∷ [] else [])
unfolding write
entries_of-write true e file = entries_of-appended e file
entries_of-write false e file = sym (append-nil (entries_of (lines_of file)))

entries_of-run :
    (calls : List (Bool × Call)) (file : File AuditEntry)
    → entries_of (lines_of (run calls file)) ≡ entries_of (lines_of file) ++ logged calls
unfolding run
entries_of-run [] file = sym (append-nil (entries_of (lines_of file)))
entries_of-run ((true, call) ∷ calls) file =
    entries_of-run calls (write true (entry_of call) file)
    ∙ ap (λ t. t ++ logged calls) (entries_of-write true (entry_of call) file)
    ∙ append_assoc (entries_of (lines_of file)) (entry_of call ∷ []) (logged calls)
entries_of-run ((false, call) ∷ calls) file =
    entries_of-run calls (write false (entry_of call) file)
    ∙ ap (λ t. t ++ logged calls)
        (entries_of-write false (entry_of call) file ∙ append-nil (entries_of (lines_of file)))

-- After any calls on a log that had no file, `tail` for a count above 0 gives the entries of the
-- last calls whose lines were taken, the newest first, at most as many as the count; for the count
-- 0 it gives all of them.
pub tail-run :
    (calls : List (Bool × Call)) (count : ℕ)
    → (tail (suc count) (run calls none) ≡ take (suc count) (reverse (logged calls)))
      × (tail 0 (run calls none) ≡ reverse (logged calls))
unfolding tail
tail-run calls count =
    let all : entries_of (lines_of (run calls none)) ≡ logged calls = entries_of-run calls none in
    (rw (tail, all) (last_reversed-take (suc count) (logged calls)), rw (tail, all) refl)
