-- ===== src/ConnectionState/Tests.antt =====
-- Runs of src/connection-state.ts.
use claw_crony.Base.{◌≡◌, refl, String, Option, none, some, List, [], ◌∷◌, ℕ, arith}
use claw_crony.ConnectionState.{
  entry, nullish, whole, other, CachedRequest, CachedOffer, CachedSession, State, Raw, unique,
  normalize_state,
}
use claw_crony.ConnectionState.History.{
  Event, requested, offered, file_after, Remembers, file_after-Remembers,
}

abbrev request : ℕ → String → CachedRequest
request n title = record {
  id = n;
  title = title;
  summary = "help";
  request_type = none;
  status = some "open";
  moderation_status = none;
  created_at = none;
  cached_at = "t";
}

abbrev offer : CachedOffer
offer = record {
  id = 7;
  request_id = 1;
  message = "yes";
  status = none;
  moderation_status = none;
  created_at = none;
  cached_at = "t";
}

abbrev state : State
state = record {
  updated_at = some "t";
  created_request_ids = 2 ∷ 1 ∷ [];
  created_offer_ids = [];
  accepted_session_ids = [];
  requests = entry (request 2 "b") ∷ entry (request 1 "a") ∷ [];
  offers = [];
  sessions = [];
}

abbrev history : List (Event × String)
history =
    (requested (request 1 "c"), "t3")
    ∷ (offered offer, "t2")
    ∷ (requested (request 2 "b"), "t1")
    ∷ (requested (request 1 "a"), "t0")
    ∷ []

unique-run : unique [] (whole 3 ∷ other ∷ whole 0 ∷ whole 3 ∷ whole 1 ∷ []) ≡ 3 ∷ 1 ∷ []
unfolding unique
unique-run = refl

abbrev broken : Option Raw
broken = some (record {
  updated_at = none;
  created_request_ids = some (whole 3 ∷ other ∷ []);
  created_offer_ids = none;
  accepted_session_ids = none;
  requests = some (nullish ∷ []);
  offers = none;
  sessions = none;
})

abbrev session : CachedSession
session = record {
  id = 9;
  request_id = 1;
  offer_id = 7;
  status = none;
  requester_client_id = none;
  responder_client_id = none;
  recommended_mode = none;
  protocols = none;
  a2a_agent_card_url = none;
  shared_context_room_id = none;
  created_at = none;
  cached_at = "t";
}

file_after-Remembers_example :
    (file : Option Raw) × (file_after history ≡ some file)
    × Remembers history (normalize_state file)
file_after-Remembers_example =
    file_after-Remembers history (omega arith, (omega arith, (omega arith, (omega arith, tt))))
