-- ===== src/Connection.antt =====
-- src/connection-descriptor.ts, src/protocols/a2a.ts, src/protocols/generic.ts and
-- src/connection-session.ts: how the two sides of a session can reach each other. The URL parser is an argument.
pub mod Modes
mod Tests
use claw_crony.Base.{
  ℕ, zero, suc, ◌+◌, ◌-◌, ◌*◌, ◌/◌, ◌%◌, ◌^◌, ◌≤◌, ◌<◌, min, max, String, ◌≡◌, refl, sym, ap, ◌∙◌,
  subst, ◌≡⟨◌⟩◌, ◌∎, ◌≢◌, ◌↔◌, ◌⊎◌, inl, inr, Bool, true, false, not, ◌&&◌, ◌||◌, Option, none,
  some, List, [], ◌∷◌, ◌++◌, map, append-nil, append_assoc, arith, eq_iff, str_eq, ltb, leb, ◌==◌,
  if◌then◌else◌, ltb→lt, leb→le, lt→ltb, le→leb, ==_iff, Bool-cases, Option-cases, ◌>>=◌, length,
  length-append, take, drop, length-take, filter, length-filter-le, any, find?, All, All-append,
  All-filter, All-take, All-map_imp, List-cases, bit, count, count-append, count-filter_le, AnyOf,
  reverse, length-drop, length-reverse, take-append_le, take-length_le, reverse-drop,
  take-reverse-append, filter-append, filter-passes, All-reverse, WhenSome, bind-WhenSome,
  chain-WhenSome,
}
use claw_crony.Base.Text.{
  Text, codes, same, same_iff, starts_with, starts_with_append, starts_with_split, ends_with,
  ends_with_self, ends_with_append, ends_with_split, includes, lower_code, lower, lower-append,
  lower_idem, length-lower, is_space, trim_start, keep_unless_blank, trim_end, trim, cons_head,
  split, Free, split-append, split-Free, join, split-join, clip, length-clip_le,
}
use claw_crony.Base.Json.{
  Json, Items, Fields, get, put, keys, null, bool, num, str, arr, obj, nil, cons, end, field,
}
use claw_crony.Base.Order.{sort_with}
use claw_crony.FileSecurity.Numerals.{decimal_of}
use claw_crony.Executor.Fragments.{non_empty}
use claw_crony.Hub.Agents.{
  Endpoint, KeyRef, Descriptor, HubAgent, Role, Match, requester_role, provider_role, observer_role,
}
use claw_crony.Hub.Values.{dedupe_strings, descriptor_protocols}
use claw_crony.Hub.Resolve.{endpoints_of}

-- `normalize`
abbrev pub normal : Text → Text
normal t = lower (trim t)

unfoldable pub priority : Endpoint → ℕ
unfolding same lower trim
priority e =
    if same (normal e.transport) (codes "jsonrpc")
    then 0
    else if same (normal e.transport) (codes "http-json")
    then 1
    else if same (normal e.transport) (codes "grpc")
    then 2
    else 3

abbrev text_in : Option Json → Option Text
text_in (some (str t)) = non_empty (trim t)
text_in _ = none

unfoldable pub metadata_agent_card_url : Endpoint → Option Text
unfolding get non_empty trim
metadata_agent_card_url e = elim e.metadata [
  | none ↦ none
  | some fs ↦ text_in (get (codes "agentCardUrl") fs)
]

-- The protocol and the origin of a URL.
pub record Parsed : Type 0 where
  pub protocol : Text
  pub origin : Text

abbrev pub well_known : Parsed → Option Text
well_known url =
    if same url.protocol (codes "http:") || same url.protocol (codes "https:")
    then some (url.origin ++ codes "/.well-known/agent.json")
    else none

unfoldable pub derive_agent_card_url : (Text → Option Parsed) → Text → Option Text
unfolding same
derive_agent_card_url parse url = parse url >>= well_known

abbrev pub first_some : (Endpoint → Option Text) → List Endpoint → Option Text
first_some f [] = none
first_some f (e ∷ es) = elim (f e) [ none ↦ first_some f es | some t ↦ some t ]

abbrev pub or_else {ℓ} : {A : Type ℓ} → Option A → Option A → Option A
or_else (some a) b = some a
or_else none b = b

unfoldable pub is_a2a : Endpoint → Bool
unfolding same lower trim
is_a2a e = same (normal e.protocol) (codes "a2a")

-- `replace(/\/$/, "")`
unfoldable pub strip_last_slash : Text → Text
unfolding ends_with
strip_last_slash t = if ends_with t (codes "/") then take (length t - 1) t else t

unfoldable pub build_agent_card_url_from_address : Text → Text → Text
unfolding starts_with strip_last_slash
build_agent_card_url_from_address address path =
    strip_last_slash (
      if starts_with address (codes "http://") || starts_with address (codes "https://")
      then address
      else codes "http://" ++ address)
    ++ (if starts_with path (codes "/") then path else b'/' ∷ path)

abbrev value_or : Option Text → Text → Text
value_or (some t) u = t
value_or none u = u

module _ (parse : Text → Option Parsed) where
  unfoldable pub resolve_a2a_agent_card_url : Option Descriptor → Option Text
  unfolding is_a2a priority sort_with metadata_agent_card_url derive_agent_card_url
  resolve_a2a_agent_card_url descriptor =
      let endpoints =
        sort_with (λ a b. leb (priority a) (priority b))
          (filter is_a2a (endpoints_of descriptor)) in
      or_else (first_some metadata_agent_card_url endpoints)
        (first_some (λ e. derive_agent_card_url parse e.url) endpoints)

  unfoldable pub resolve_peer_agent_card_url : Option Descriptor → Text → Text → Text
  unfolding resolve_a2a_agent_card_url build_agent_card_url_from_address
  resolve_peer_agent_card_url descriptor address path =
      value_or (resolve_a2a_agent_card_url descriptor)
        (build_agent_card_url_from_address address path)

-- `A2aAdapterPlan`: a URL where it is available, a reason where it is not.
pub data Plan : Type 0 where
  available : Text → Option Endpoint → Plan
  no_descriptor : Plan
  no_endpoint : Plan
  no_card_url : Endpoint → Plan

abbrev pub plan_of : Option Endpoint → Option Text → Plan
plan_of endpoint (some url) = available url endpoint
plan_of none none = no_endpoint
plan_of (some endpoint) none = no_card_url endpoint

unfoldable pub plan_a2a_adapter : (Text → Option Parsed) → Option Descriptor → Plan
unfolding is_a2a resolve_a2a_agent_card_url
plan_a2a_adapter parse none = no_descriptor
plan_a2a_adapter parse (some d) =
    plan_of (find? is_a2a d.endpoints) (resolve_a2a_agent_card_url parse (some d))

unfoldable pub collect_protocols : Option Descriptor → List Text
unfolding dedupe_strings descriptor_protocols
collect_protocols d = dedupe_strings (descriptor_protocols d)

-- The identity of one side of a session.
pub record Side : Type 0 where
  pub agent_id : Option ℕ
  pub client_id : Option Text
  pub public_key : Option Text
  pub signing_public_key : Option Text
  pub descriptor : Option Descriptor

-- `ConnectionSessionLike`
pub record Session : Type 0 where
  pub id : ℕ
  pub request_id : ℕ
  pub offer_id : ℕ
  pub requester : Side
  pub responder : Side
  pub status : Text

-- `ConnectionParticipantView`
pub record Participant : Type 0 where
  pub is_requester : Bool
  pub side : Side
  pub protocols : List Text

pub data Mode : Type 0 where
  a2a_mode generic_mode : Mode

-- `nextSteps`: the card's URL; or why A2A is not selected, and the protocols, if an endpoint was published.
pub data Steps : Type 0 where
  use_a2a : Text → Steps
  use_generic : Plan → Option (List Text) → Steps

-- `ConnectionSessionView`
pub record View : Type 0 where
  pub session_id : ℕ
  pub request_id : ℕ
  pub offer_id : ℕ
  pub status : Text
  pub requester : Participant
  pub responder : Participant
  pub recommended_mode : Mode
  pub a2a : Plan
  pub protocols : List Text
  pub endpoint_count : ℕ
  pub next_steps : Steps

unfoldable pub build_participant : Bool → Side → Participant
unfolding collect_protocols
build_participant is_requester side = record {
  is_requester = is_requester;
  side = side;
  protocols = collect_protocols side.descriptor;
}

abbrev pub mode_of : Plan → Mode
mode_of (available url endpoint) = a2a_mode
mode_of _ = generic_mode

unfoldable pub build_next_steps : Plan → List Text → ℕ → Steps
build_next_steps (available url endpoint) protocols count = use_a2a url
build_next_steps plan protocols count =
    use_generic plan (if ltb 0 count then some protocols else none)

unfoldable pub build_connection_session_view : (Text → Option Parsed) → Session → View
unfolding build_participant plan_a2a_adapter dedupe_strings build_next_steps
build_connection_session_view parse s =
    let requester = build_participant true s.requester in
    let responder = build_participant false s.responder in
    let plan = plan_a2a_adapter parse s.responder.descriptor in
    let protocols = dedupe_strings (requester.protocols ++ responder.protocols) in
    let count =
      length (endpoints_of s.requester.descriptor) + length (endpoints_of s.responder.descriptor) in
    record {
      session_id = s.id;
      request_id = s.request_id;
      offer_id = s.offer_id;
      status = s.status;
      requester = requester;
      responder = responder;
      recommended_mode = mode_of plan;
      a2a = plan;
      protocols = protocols;
      endpoint_count = count;
      next_steps = build_next_steps plan protocols count;
    }
