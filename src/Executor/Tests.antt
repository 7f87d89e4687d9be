-- ===== src/Executor/Tests.antt =====
-- Runs of src/executor.ts.
use claw_crony.Base.{
  ◌+◌, ◌≤◌, String, ◌≡◌, refl, ◌≢◌, ◌⊎◌, true, false, none, some, List, [], ◌∷◌, arith, eq_iff,
  length,
}
use claw_crony.Base.Text.{Text, codes}
use claw_crony.Base.Json.{Json, Fields, get, null, str, arr, obj, nil, cons, end, field}
use claw_crony.Base.Dict.{Dict, lookup}
use claw_crony.FileSecurity.Uri.{Platform}
use claw_crony.Executor.Fragments.{extract_text_fragments}
use claw_crony.Executor.Response.{AgentResponse, extract_agent_response}
use claw_crony.Executor.Files.{Security, validate_inbound_file_parts}
use claw_crony.Executor.Nested.{file_part_of}
use claw_crony.Executor.Contexts.{remember_task_context, cancel_task, canceled}
use claw_crony.Executor.Contexts
use claw_crony.Executor.Rpc.{Frame, close, Event, run, connection, requests, receives}
use claw_crony.Executor.Promises.{told, waits, asked, AskedOnce, run-AskedOnce}
use claw_crony.Executor.Bridge.{
  answered, Gateway, Setup, Request, TaskState, execute, recent_history,
}
use claw_crony.Executor.States.{IsCourse, execute-IsCourse}

abbrev stringify : Json → Text
stringify v = codes "{}"

-- Only the text with the one address parses.
abbrev platform : Platform
platform = record {
  parse_url = λ a. none;
  to_string = λ url. url.hostname;
  net = record { is_ipv4 = λ a. false; is_ipv6 = λ a. false };
}

abbrev security : Security
security = record { allowed_mime_types = codes "image/*" ∷ []; max_inline_file_size_bytes = 3 }

abbrev text_of : String → Json
text_of t =
    obj (field (codes "kind") (str (codes "text")) (field (codes "text") (str (codes t)) end))

abbrev inline_file : String → Fields
inline_file bytes =
    field (codes "bytes") (str (codes bytes)) (field (codes "name") (str (codes "a")) end)

abbrev message_with : Json → Json
message_with part = obj (field (codes "parts") (arr (cons (text_of " hi ") (cons part nil))) end)

fragments :
    extract_text_fragments stringify (message_with (text_of "you")) ≡ codes "hi" ∷ codes "you" ∷ []
unfolding extract_text_fragments get
fragments = refl

too_large :
    validate_inbound_file_parts platform security
      (message_with (file_part_of (inline_file "YWJjZA==")))
    ≢ none
unfolding validate_inbound_file_parts get
too_large = λ h. cc

abbrev final : Json
final = obj (
    field (codes "result")
      (obj (
        field (codes "payloads")
          (arr (
            cons
              (obj (
                field (codes "text") (str (codes "done"))
                  (field (codes "mediaUrl") (str (codes "u")) end)))
              (cons
                (obj (
                  field (codes "mediaUrls")
                    (arr (cons (str (codes "u")) (cons (str (codes "v")) nil))) end))
                nil)))
          end))
      end)

abbrev response : AgentResponse
response = record { text = codes "done"; media_urls = codes "u" ∷ codes "v" ∷ [] }

read_response : extract_agent_response stringify final ≡ some response
unfolding extract_agent_response get
read_response = refl

abbrev remote_file : Fields
remote_file = field (codes "uri") (str (codes "http://10.0.0.1/")) end

abbrev two_tasks : Dict String
two_tasks = ("t1", "c1") ∷ ("t2", "c2") ∷ []

two_tasks-IsValid : Contexts.IsValid 2 two_tasks
unfolding lookup
two_tasks-IsValid = record {
  nodup = (ground (arith, eq_iff "t2" "t1"), (refl, tt));
  small = omega arith;
  named = refl;
}

cancel_known : (cancel_task "t1" two_tasks).1 ≡ canceled "t1" "c1" ∷ Contexts.finished ∷ []
unfolding cancel_task lookup
cancel_known = refl

remember_task_context-IsValid_example :
    Contexts.IsValid 2 (remember_task_context 2 "t3" "c3" two_tasks)
    × (lookup "t3" (remember_task_context 2 "t3" "c3" two_tasks) ≡ some "c3")
remember_task_context-IsValid_example =
    Contexts.remember_task_context-IsValid 2 "t3" "c3" two_tasks (omega arith)
      (ground (arith, eq_iff "t3" "")) two_tasks-IsValid

abbrev reply : Frame
reply = record { id = "r1"; ok = true; payload = "p"; status = none; error_message = none }

abbrev events : List Event
events =
    requests "r1" "agent" true true
    ∷ requests "r2" "chat.history" false true
    ∷ receives reply
    ∷ receives reply
    ∷ []

events-AskedOnce : AskedOnce events
events-AskedOnce k = ground (arith, eq_iff "r1" k, eq_iff "r2" k, eq_iff "r1" "r2")

run-AskedOnce_example :
    (told "r1" (run events connection).settled + waits "r1" (run events connection).pending
      ≡ asked "r1" events)
    × (told "r1" (close (run events connection)).settled ≡ asked "r1" events)
run-AskedOnce_example = run-AskedOnce events "r1" events-AskedOnce

abbrev gateway : Gateway
gateway = record {
  connects = answered tt;
  agent = λ key text. answered final;
  history = λ key. answered null;
}

abbrev setup : Setup
setup = record {
  platform = platform;
  security = security;
  stringify = stringify;
  default_agent_id = codes "main";
}

abbrev ask : Request
ask = record { agent_id = []; context_id = codes "c"; message = text_of "hi"; history = [] }

execute-IsCourse_example :
    ((last : TaskState) × IsCourse
        (recent_history 200 ask.history)
        last
        ((execute setup gateway 2 ask).0))
    × (length (recent_history 200 ask.history) ≤ 200)
    × ((validate_inbound_file_parts platform security (text_of "hi") ≡ none)
        ⊎ ((execute setup gateway 2 ask).1 ≡ []))
execute-IsCourse_example = execute-IsCourse setup gateway 2 ask
