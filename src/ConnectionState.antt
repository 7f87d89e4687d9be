-- ===== src/ConnectionState.antt =====
-- src/connection-state.ts: the file of requests, offers and sessions that the client has seen. A file
-- is what JSON.parse gives for it: none when it is missing, no JSON, or no object. Ids that the Hub
-- gives are whole numbers of 0 and more; what a file holds instead of one may be anything. Errors of
-- the disk are not modelled: a save replaces the file (it renames a complete copy).
pub mod Newest
pub mod Recent
pub mod Store
pub mod History
pub mod Throws
mod Tests
use claw_crony.Base.{
  ℕ, zero, suc, String, Bool, true, false, not, ◌||◌, ◌>>=◌, Option, none, some, List, [], ◌∷◌, map,
  ◌==◌, any, take, if◌then◌else◌,
}

-- An element of an array of ids in a file.
pub data RawId : Type 0 where
  whole : ℕ → RawId
  other : RawId

-- An element of an array of records in a file: a record, a value whose `id` equals no number, or a
-- value that has no properties.
pub data Stored {ℓ} (A : Type ℓ) : Type ℓ where
  entry : A → Stored A
  foreign : Stored A
  nullish : Stored A

pub record CachedRequest : Type 0 where
  pub id : ℕ
  pub title : String
  pub summary : String
  pub request_type : Option String
  pub status : Option String
  pub moderation_status : Option String
  pub created_at : Option String
  pub cached_at : String

pub record CachedOffer : Type 0 where
  pub id : ℕ
  pub request_id : ℕ
  pub message : String
  pub status : Option String
  pub moderation_status : Option String
  pub created_at : Option String
  pub cached_at : String

pub record CachedSession : Type 0 where
  pub id : ℕ
  pub request_id : ℕ
  pub offer_id : ℕ
  pub status : Option String
  pub requester_client_id : Option String
  pub responder_client_id : Option String
  pub recommended_mode : Option String
  pub protocols : Option (List String)
  pub a2a_agent_card_url : Option String
  pub shared_context_room_id : Option String
  pub created_at : Option String
  pub cached_at : String

-- `ConnectionState`, without its constant version.
pub record State : Type 0 where
  pub updated_at : Option String
  pub created_request_ids : List ℕ
  pub created_offer_ids : List ℕ
  pub accepted_session_ids : List ℕ
  pub requests : List (Stored CachedRequest)
  pub offers : List (Stored CachedOffer)
  pub sessions : List (Stored CachedSession)

-- A parsed file: none where a field holds no text, or no array.
pub record Raw : Type 0 where
  pub updated_at : Option String
  pub created_request_ids : Option (List RawId)
  pub created_offer_ids : Option (List RawId)
  pub accepted_session_ids : Option (List RawId)
  pub requests : Option (List (Stored CachedRequest))
  pub offers : Option (List (Stored CachedOffer))
  pub sessions : Option (List (Stored CachedSession))

abbrev pub max_records : ℕ
max_records = 100

pub default_state : State
default_state = record {
  updated_at = none;
  created_request_ids = [];
  created_offer_ids = [];
  accepted_session_ids = [];
  requests = [];
  offers = [];
  sessions = [];
}

-- `seen.has(id)`
abbrev pub has : ℕ → List ℕ → Bool
has n = any (λ m. m == n)

-- The loop of `uniqueNewest`; the first argument is `seen`.
pub unique : List ℕ → List RawId → List ℕ
unique seen [] = []
unique seen (other ∷ ids) = unique seen ids
unique seen (whole n ∷ ids) = elim ((n == 0) || has n seen) [
  | true ↦ unique seen ids
  | false ↦ n ∷ unique (n ∷ seen) ids
]

pub unique_newest : List RawId → List ℕ
unfolding unique
unique_newest ids = take max_records (unique [] ids)

module _ {ℓ} {A : Type ℓ} (id : A → ℕ) where
  -- `records.filter((record) => record.id !== next.id)`, which throws on a value without properties.
  pub without : ℕ → List (Stored A) → Option (List (Stored A))
  without n [] = some []
  without n (nullish ∷ records) = none
  without n (foreign ∷ records) = do rest ← without n records; some (foreign ∷ rest)
  without n (entry r ∷ records) = do
    rest ← without n records
    some (if id r == n then rest else entry r ∷ rest)

  pub upsert_newest : List (Stored A) → A → Option (List (Stored A))
  unfolding without
  upsert_newest records next = do
    rest ← without (id next) records
    some (take max_records (entry next ∷ rest))

abbrev pub or_empty {ℓ} : {A : Type ℓ} → Option (List A) → List A
or_empty none = []
or_empty (some xs) = xs

pub normalize_state : Option Raw → State
unfolding default_state unique_newest
normalize_state none = default_state
normalize_state (some raw) = record {
  updated_at = raw.updated_at;
  created_request_ids = unique_newest (or_empty raw.created_request_ids);
  created_offer_ids = unique_newest (or_empty raw.created_offer_ids);
  accepted_session_ids = unique_newest (or_empty raw.accepted_session_ids);
  requests = take max_records (or_empty raw.requests);
  offers = take max_records (or_empty raw.offers);
  sessions = take max_records (or_empty raw.sessions);
}

-- What a parse of the saved text gives.
pub save : State → Option Raw
save s = some (record {
  updated_at = s.updated_at;
  created_request_ids = some (map whole s.created_request_ids);
  created_offer_ids = some (map whole s.created_offer_ids);
  accepted_session_ids = some (map whole s.accepted_session_ids);
  requests = some s.requests;
  offers = some s.offers;
  sessions = some s.sessions;
})

-- `update`: the state that is saved and returned, or none where the mutator throws.
pub update : (State → Option State) → String → Option Raw → Option State
unfolding normalize_state
update mutator now file = do
  state ← mutator (normalize_state file)
  some (record state { updated_at = some now })

abbrev pub request_id_of : CachedRequest → ℕ
request_id_of r = r.id

abbrev pub offer_id_of : CachedOffer → ℕ
offer_id_of r = r.id

abbrev pub session_id_of : CachedSession → ℕ
session_id_of r = r.id

-- The three `record…` methods and their mutators; the record holds the fields of the Hub's object and the
-- time of caching.
pub add_request : CachedRequest → State → Option State
unfolding unique_newest upsert_newest
add_request r state = do
  requests ← upsert_newest request_id_of state.requests r
  some (record state {
    created_request_ids = unique_newest (whole r.id ∷ map whole state.created_request_ids);
    requests = requests;
  })

pub record_request : CachedRequest → String → Option Raw → Option State
unfolding add_request update
record_request r now = update (add_request r) now

pub add_offer : CachedOffer → State → Option State
unfolding unique_newest upsert_newest
add_offer r state = do
  offers ← upsert_newest offer_id_of state.offers r
  some (record state {
    created_offer_ids = unique_newest (whole r.id ∷ map whole state.created_offer_ids);
    offers = offers;
  })

pub record_offer : CachedOffer → String → Option Raw → Option State
unfolding add_offer update
record_offer r now = update (add_offer r) now

pub add_session : CachedSession → State → Option State
unfolding unique_newest upsert_newest
add_session r state = do
  sessions ← upsert_newest session_id_of state.sessions r
  some (record state {
    accepted_session_ids = unique_newest (whole r.id ∷ map whole state.accepted_session_ids);
    sessions = sessions;
  })

pub record_session : CachedSession → String → Option Raw → Option State
unfolding add_session update
record_session r now = update (add_session r) now
