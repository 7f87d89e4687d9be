-- ===== src/Internal/Inbox/Tests.antt =====
-- Runs of src/internal/transport.ts with a parser that takes every text for the value true.
use claw_crony.Base.{ℕ, ◌≤◌, ◌≡◌, refl, ◌↔◌, true, false, none, some, List, [], ◌∷◌, length}
use claw_crony.Base.Text.{Text, codes, same, starts_with, includes}
use claw_crony.Base.Json.{Json, bool}
use claw_crony.Base.Integers.{pos}
use claw_crony.Internal.Inbox.{
  read_body, header_string, Incoming, problem, Message, Web, headers_of, reply_of, process_body,
  with_body, at_path, handle_request, result_of, chunk, ended, errored, broken, absent, single,
  several, handled, responded,
}
use claw_crony.Internal.Inbox.Handed.{IsAccepted, message_of, handle_request-IsAccepted}

abbrev web : Web
web = record {
  pathname = λ url. some url;
  parse = λ t. some (bool true);
  decode = λ b. b;
  number = λ t. none;
  on_message = λ m. handled 202 [];
}

abbrev incoming : Text → Incoming
incoming url = record {
  url = some url;
  method = codes "POST";
  content_type = some (codes "application/json; charset=utf-8");
  signature = single (codes "s");
  timestamp = absent;
  nonce = several (codes "n" ∷ []);
  source_gateway = absent;
  body = chunk (1 ∷ []) ∷ chunk (2 ∷ []) ∷ ended ∷ [];
}

abbrev message : Message
message = record {
  envelope = bool true;
  raw_body = 1 ∷ 2 ∷ [];
  headers = record {
    signature = codes "s";
    timestamp = pos 0;
    nonce = codes "n";
    source_gateway_id = [];
  };
}

accepted :
    handle_request web (incoming (codes "/a2a/v1/inbox"))
    ≡ (some (record { status_code = 202; body = bool true }), message ∷ [])
unfolding handle_request at_path same includes starts_with with_body read_body process_body
    headers_of header_string reply_of
accepted = refl

elsewhere : handle_request web (incoming (codes "/")) ≡ (some (problem 404 "Not found"), [])
unfolding handle_request at_path same
elsewhere = refl

broken_off : read_body [] (chunk (1 ∷ []) ∷ errored ∷ []) ≡ some broken
unfolding read_body
broken_off = refl

redirected : (result_of (responded 301 [])).success ≡ false
unfolding result_of
redirected = refl

handle_request-IsAccepted_example :
    (((handle_request web (incoming (codes "/a2a/v1/inbox"))).1 ≡ message ∷ []) ↔ (
      (b : List ℕ) × (envelope : Json) × IsAccepted web
        (incoming (codes "/a2a/v1/inbox"))
        b
        envelope
      × (message ≡ message_of web (incoming (codes "/a2a/v1/inbox")) envelope b)))
    × (length ((handle_request web (incoming (codes "/a2a/v1/inbox"))).1) ≤ 1)
handle_request-IsAccepted_example =
    handle_request-IsAccepted web (incoming (codes "/a2a/v1/inbox")) message
