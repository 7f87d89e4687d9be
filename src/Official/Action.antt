-- ===== src/Official/Action.antt =====
-- `normalizeAction`, `findAction`, `endpointPriority`, `selectHttpEndpoint` and `forbiddenList` of
-- src/official-agent-call.ts.
use claw_crony.Base.{
  ℕ, ◌-◌, String, Bool, true, false, not, ◌&&◌, ◌||◌, Option, none, some, List, [], ◌∷◌, map, ltb,
  leb, ◌==◌, if◌then◌else◌, ◌>>=◌, length, drop, filter, any,
}
use claw_crony.Base.Text.{Text, codes, same, includes, lower, is_space, trim_start, trim}
use claw_crony.Base.Json.{Json, Items, get, str, arr, obj, nil, cons}
use claw_crony.Base.Order.{sort_with}
use claw_crony.Executor.Fragments.{as_string}
use claw_crony.Hub.Agents.{Endpoint, HubAgent}

-- `NormalizedAction`
pub record Action : Type 0 where
  pub name : Text
  pub risk_level : Text
  pub method : Text
  pub path : Text

abbrev pub upper_code : ℕ → ℕ
upper_code c = if leb 97 c && leb c 122 then c - 32 else c

unfoldable pub upper : Text → Text
upper t = map upper_code t

-- `lower(value)`; of an absent value or one of another type the empty text
unfoldable pub lower_value : Option Json → Text
unfolding lower trim
lower_value (some (str t)) = lower (trim t)
lower_value _ = []

abbrev pub is_letter : ℕ → Bool
is_letter c = (leb 65 c && leb c 90) || (leb 97 c && leb c 122)

unfoldable pub letters_of : Text → Text
letters_of [] = []
letters_of (c ∷ t) = let rest = letters_of t in if is_letter c then c ∷ rest else []

-- `endpoint.match(/^([A-Za-z]+)\s+(\S+)$/)`, the two groups
unfoldable pub match_endpoint : Text → Option (Text × Text)
unfolding letters_of trim_start
match_endpoint t =
    let word = letters_of t in
    let rest = drop (length word) t in
    let path = trim_start rest in
    if ltb 0 (length word)
      && ltb (length path) (length rest)
      && ltb 0 (length path)
      && not (any is_space path)
    then some (word, path)
    else none

-- The method and the path where the declaration does not give both: those of the endpoint, if it has the form.
unfoldable pub with_endpoint : Text → Option Text → Option Text → Text × Option Text
unfolding match_endpoint upper
with_endpoint method path none = (method, path)
with_endpoint method path (some endpoint) =
    if length method == 0 || is_none path
    then elim (match_endpoint endpoint) [
      | none ↦ (method, path)
      | some (word, rest) ↦ (upper word, some rest)
    ]
    else (method, path)
  where
    is_none : Option Text → Bool
    is_none none = true
    is_none (some p) = false

abbrev pub is_method : Text → Bool
is_method m = same m (codes "GET") || same m (codes "POST")

unfoldable pub complete : Option Text → Text → Text → Option Text → Option Action
unfolding same
complete (some name) risk_level method (some path) =
    if ltb 0 (length risk_level) && is_method method
    then some (record { name = name; risk_level = risk_level; method = method; path = path })
    else none
complete _ risk_level method _ = none

unfoldable pub normalize_action : Json → Option Action
unfolding get as_string lower_value upper with_endpoint complete
normalize_action (obj action) =
    let declared =
      with_endpoint (upper (lower_value (get (codes "method") action)))
        (as_string (get (codes "path") action)) (as_string (get (codes "endpoint") action)) in
    complete (as_string (get (codes "name") action)) (lower_value (get (codes "riskLevel") action))
      (declared.0) (declared.1)
normalize_action _ = none

abbrev pub choose : Option Action → Text → Option Action → Option Action
choose none name others = others
choose (some a) name others = if same (lower a.name) name then some a else others

unfoldable pub first_action : Text → Items → Option Action
unfolding normalize_action same lower
first_action name nil = none
first_action name (cons raw items) = choose (normalize_action raw) name (first_action name items)

-- `agent.capabilityManifest?.[key]`
unfoldable pub manifest_entry : HubAgent → String → Option Json
unfolding get
manifest_entry agent key = agent.capability_manifest >>= (λ manifest. get (codes key) manifest)

abbrev pub items_of : Option Json → Items
items_of (some (arr items)) = items
items_of _ = nil

unfoldable pub find_action : HubAgent → Text → Option Action
unfolding manifest_entry first_action lower trim
find_action agent action_name =
    first_action (lower (trim action_name)) (items_of (manifest_entry agent "actions"))

-- The entries of a list that are texts with more than white space.
unfoldable pub texts_of : Items → List Text
unfolding trim
texts_of nil = []
texts_of (cons (str t) items) =
    let rest = texts_of items in if ltb 0 (length (trim t)) then t ∷ rest else rest
texts_of (cons _ items) = texts_of items

unfoldable pub forbidden_in : Option Json → List Text
unfolding get texts_of
forbidden_in (some (obj policy)) = texts_of (items_of (get (codes "forbidden") policy))
forbidden_in _ = []

unfoldable pub forbidden_list : HubAgent → String → List Text
unfolding manifest_entry forbidden_in
forbidden_list agent policy_key = forbidden_in (manifest_entry agent policy_key)

unfoldable pub endpoint_priority : Endpoint → ℕ
unfolding lower trim same includes
endpoint_priority e =
    let protocol = lower (trim e.protocol) in
    if same protocol (codes "custom-http")
    then 0
    else if same protocol (codes "http") || same protocol (codes "https")
    then 1
    else if same protocol (codes "http-json") || includes (lower e.transport) (codes "http")
    then 2
    else 10

unfoldable pub is_http_endpoint : Endpoint → Bool
unfolding lower trim same includes
is_http_endpoint e =
    let protocol = lower (trim e.protocol) in
    let transport = lower (trim e.transport) in
    not (same protocol (codes "openapi"))
    && (includes protocol (codes "http")
        || includes transport (codes "http")
        || same transport (codes "https"))

abbrev pub endpoints_of : HubAgent → List Endpoint
endpoints_of agent = elim agent.connection_descriptor [ none ↦ [] | some d ↦ d.endpoints ]

abbrev pub head {ℓ} : {A : Type ℓ} → List A → Option A
head [] = none
head (x ∷ xs) = some x

unfoldable pub select_http_endpoint : HubAgent → Option Endpoint
unfolding is_http_endpoint endpoint_priority sort_with
select_http_endpoint agent = head (
    sort_with (λ a b. leb (endpoint_priority a) (endpoint_priority b))
      (filter is_http_endpoint (endpoints_of agent)))
