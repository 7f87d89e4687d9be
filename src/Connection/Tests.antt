-- ===== src/Connection/Tests.antt =====
-- Runs of src/connection-session.ts and src/connection-descriptor.ts.
use claw_crony.Base.{◌≡◌, refl, ◌↔◌, Option, none, some, List, [], ◌∷◌, if◌then◌else◌, filter, All}
use claw_crony.Base.Text.{Text, codes, same, starts_with, ends_with, lower, trim}
use claw_crony.Base.Json.{Fields, get, str, end, field}
use claw_crony.Hub.Agents.{Endpoint, Descriptor}
use claw_crony.Hub.Resolve.{endpoints_of}
use claw_crony.Executor.Fragments.{non_empty}
use claw_crony.Base.Order.{sort_with, insert_with}
use claw_crony.Connection.{
  priority, metadata_agent_card_url, Parsed, derive_agent_card_url, is_a2a,
  resolve_a2a_agent_card_url, strip_last_slash, build_agent_card_url_from_address, Side, Session,
  build_connection_session_view, a2a_mode, generic_mode, use_a2a,
}
use claw_crony.Connection.Modes.{HasNoCard, build_connection_session_view-mode}

abbrev parse : Text → Option Parsed
parse t =
    if starts_with t (codes "https:")
    then some (record { protocol = codes "https:"; origin = t })
    else none

abbrev card : Fields
card = field (codes "agentCardUrl") (str (codes " card ")) end

abbrev first : Endpoint
first = record {
  protocol = codes "A2A";
  transport = codes "jsonrpc";
  url = codes "https:a";
  auth = none;
  metadata = none;
}

abbrev second : Endpoint
second = record {
  protocol = codes "a2a";
  transport = codes "grpc";
  url = codes "g";
  auth = none;
  metadata = some card;
}

abbrev published : List Endpoint → Option Descriptor
published es =
    some
      (record { signing = none; encryption = none; endpoints = es; protocols = codes "a2a" ∷ [] })

-- A card in the metadata goes before one that is derived, whatever the transport.
metadata_first :
    resolve_a2a_agent_card_url parse (published (first ∷ second ∷ [])) ≡ some (codes "card")
unfolding resolve_a2a_agent_card_url is_a2a priority sort_with insert_with metadata_agent_card_url
    derive_agent_card_url same lower trim get non_empty
metadata_first = refl

derived :
    resolve_a2a_agent_card_url parse (published (first ∷ []))
    ≡ some (codes "https:a/.well-known/agent.json")
unfolding resolve_a2a_agent_card_url is_a2a priority sort_with insert_with metadata_agent_card_url
    derive_agent_card_url same lower trim get non_empty starts_with
derived = refl

address :
    build_agent_card_url_from_address (codes "host:80/") (codes "card.json")
    ≡ codes "http://host:80/card.json"
unfolding build_agent_card_url_from_address strip_last_slash starts_with ends_with
address = refl

abbrev side : Option Descriptor → Side
side d = record {
  agent_id = some 1;
  client_id = none;
  public_key = none;
  signing_public_key = none;
  descriptor = d;
}

abbrev session : Session
session = record {
  id = 1;
  request_id = 2;
  offer_id = 3;
  requester = side (published (first ∷ []));
  responder = side none;
  status = codes "open";
}

build_connection_session_view-mode_example :
    (((build_connection_session_view parse session).recommended_mode ≡ generic_mode)
      ↔ All (HasNoCard parse) (filter is_a2a (endpoints_of session.responder.descriptor)))
    × (((url : Text) × ((build_connection_session_view parse session).next_steps ≡ use_a2a url))
        ↔ ((build_connection_session_view parse session).recommended_mode ≡ a2a_mode))
build_connection_session_view-mode_example = build_connection_session_view-mode parse session
