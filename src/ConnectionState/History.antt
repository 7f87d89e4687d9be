-- ===== src/ConnectionState/History.antt =====
-- src/connection-state.ts over a history of recorded requests, offers and sessions, each of which loads
-- the file and saves it.
use claw_crony.Base.{
  ℕ, ◌≤◌, ◌<◌, ◌≡◌, refl, sym, subst, String, Option, none, some, List, [], ◌∷◌, map, All, length,
  ◌>>=◌,
}
use claw_crony.ConnectionState.{
  whole, Stored, entry, CachedRequest, CachedOffer, CachedSession, State, Raw, max_records,
  default_state, unique_newest, upsert_newest, normalize_state, save, update, request_id_of,
  offer_id_of, session_id_of, add_request, add_offer, add_session, record_request, record_offer,
  record_session,
}
use claw_crony.ConnectionState.Store.{IsIdList, IsValid, normalize_state-save}
use claw_crony.ConnectionState.Recent.{
  newest, newest_ids, upsert_newest-newest, unique_newest-newest, newest_ids-IsIdList,
  length-newest,
}

pub data Event : Type 0 where
  requested : CachedRequest → Event
  offered : CachedOffer → Event
  accepted : CachedSession → Event

abbrev pub record_event : Event → String → Option Raw → Option State
record_event (requested r) = record_request r
record_event (offered r) = record_offer r
record_event (accepted r) = record_session r

-- The file after a history, its last event first, from no file; none where a method has thrown.
abbrev pub file_after : List (Event × String) → Option (Option Raw)
file_after [] = some none
file_after ((event, now) ∷ events) = do
  file ← file_after events
  state ← record_event event now file
  some (save state)

abbrev pub requests_of : List (Event × String) → List CachedRequest
requests_of [] = []
requests_of ((requested r, now) ∷ events) = r ∷ requests_of events
requests_of ((offered r, now) ∷ events) = requests_of events
requests_of ((accepted r, now) ∷ events) = requests_of events

abbrev pub offers_of : List (Event × String) → List CachedOffer
offers_of [] = []
offers_of ((requested r, now) ∷ events) = offers_of events
offers_of ((offered r, now) ∷ events) = r ∷ offers_of events
offers_of ((accepted r, now) ∷ events) = offers_of events

abbrev pub sessions_of : List (Event × String) → List CachedSession
sessions_of [] = []
sessions_of ((requested r, now) ∷ events) = sessions_of events
sessions_of ((offered r, now) ∷ events) = sessions_of events
sessions_of ((accepted r, now) ∷ events) = r ∷ sessions_of events

abbrev pub HasPositiveId : Event × String → Type 0
HasPositiveId (requested r, now) = 0 < r.id
HasPositiveId (offered r, now) = 0 < r.id
HasPositiveId (accepted r, now) = 0 < r.id

-- Ids and records are the newest 100 different ones of a list.
abbrev pub Keeps : {A : Type 0} → (A → ℕ) → List A → List ℕ → List (Stored A) → Type 0
Keeps id history ids records =
    (ids ≡ newest_ids (map id history)) × (records ≡ map entry (newest id history))

abbrev pub Remembers : List (Event × String) → State → Type 0
Remembers h s =
    Keeps request_id_of (requests_of h) s.created_request_ids s.requests
    × (Keeps offer_id_of (offers_of h) s.created_offer_ids s.offers
        × Keeps session_id_of (sessions_of h) s.accepted_session_ids s.sessions)

positive-requests :
    (h : List (Event × String))
    → All HasPositiveId h
    → All (λ n. 0 < n) (map request_id_of (requests_of h))
positive-requests [] p = tt
positive-requests ((requested r, now) ∷ h) (q, p) = (q, positive-requests h p)
positive-requests ((offered r, now) ∷ h) (q, p) = positive-requests h p
positive-requests ((accepted r, now) ∷ h) (q, p) = positive-requests h p

positive-offers :
    (h : List (Event × String))
    → All HasPositiveId h
    → All (λ n. 0 < n) (map offer_id_of (offers_of h))
positive-offers [] p = tt
positive-offers ((requested r, now) ∷ h) (q, p) = positive-offers h p
positive-offers ((offered r, now) ∷ h) (q, p) = (q, positive-offers h p)
positive-offers ((accepted r, now) ∷ h) (q, p) = positive-offers h p

positive-sessions :
    (h : List (Event × String))
    → All HasPositiveId h
    → All (λ n. 0 < n) (map session_id_of (sessions_of h))
positive-sessions [] p = tt
positive-sessions ((requested r, now) ∷ h) (q, p) = positive-sessions h p
positive-sessions ((offered r, now) ∷ h) (q, p) = positive-sessions h p
positive-sessions ((accepted r, now) ∷ h) (q, p) = (q, positive-sessions h p)

Keeps-cons :
    {A : Type 0} (id : A → ℕ) (x : A) (history : List A) (ids : List ℕ) (records : List (Stored A))
    → Keeps id history ids records
    → 0 < id x
    → All (λ n. 0 < n) (map id history)
    → (upsert_newest id records x ≡ some (map entry (newest id (x ∷ history))))
      × Keeps id
          (x ∷ history)
          (unique_newest (whole (id x) ∷ map whole ids))
          (map entry (newest id (x ∷ history)))
Keeps-cons {A} id x history ids records (e, f) p h = (
  subst (λ rs. upsert_newest id rs x ≡ some (map entry (newest id (x ∷ history)))) (sym f)
      (upsert_newest-newest id x history),
  (
    subst (λ is. unique_newest (whole (id x) ∷ map whole is) ≡ newest_ids (id x ∷ map id history))
        (sym e) (unique_newest-newest (id x) (map id history) p h),
    refl,
  ),
)

Remembers-IsValid :
    (h : List (Event × String)) (s : State) → All HasPositiveId h → Remembers h s → IsValid s
Remembers-IsValid h s p ((e, f), ((e', f'), (e'', f''))) = (
  (
    subst IsIdList (sym e) (newest_ids-IsIdList _ (positive-requests h p)),
    (
      subst IsIdList (sym e') (newest_ids-IsIdList _ (positive-offers h p)),
      subst IsIdList (sym e'') (newest_ids-IsIdList _ (positive-sessions h p)),
    ),
  ),
  (
    subst (λ xs. length xs ≤ max_records) (sym f) (length-newest request_id_of (requests_of h)),
    (
      subst (λ xs. length xs ≤ max_records) (sym f') (length-newest offer_id_of (offers_of h)),
      subst (λ xs. length xs ≤ max_records) (sym f'') (length-newest session_id_of (sessions_of h)),
    ),
  ),
)

record_request-some :
    (r : CachedRequest) (now : String) (file : Option Raw) (found : List (Stored CachedRequest))
    → upsert_newest request_id_of (normalize_state file).requests r ≡ some found
    → record_request r now file
      ≡ some (record (normalize_state file) {
        created_request_ids =
            unique_newest (whole r.id ∷ map whole (normalize_state file).created_request_ids);
        requests = found;
        updated_at = some now;
      })
unfolding add_request record_request update
record_request-some r now file found e = rw e refl

record_offer-some :
    (r : CachedOffer) (now : String) (file : Option Raw) (found : List (Stored CachedOffer))
    → upsert_newest offer_id_of (normalize_state file).offers r ≡ some found
    → record_offer r now file
      ≡ some (record (normalize_state file) {
        created_offer_ids =
            unique_newest (whole r.id ∷ map whole (normalize_state file).created_offer_ids);
        offers = found;
        updated_at = some now;
      })
unfolding add_offer record_offer update
record_offer-some r now file found e = rw e refl

record_session-some :
    (r : CachedSession) (now : String) (file : Option Raw) (found : List (Stored CachedSession))
    → upsert_newest session_id_of (normalize_state file).sessions r ≡ some found
    → record_session r now file
      ≡ some (record (normalize_state file) {
        accepted_session_ids =
            unique_newest (whole r.id ∷ map whole (normalize_state file).accepted_session_ids);
        sessions = found;
        updated_at = some now;
      })
unfolding add_session record_session update
record_session-some r now file found e = rw e refl

-- One event on a file that remembers the history before it.
record_event-Remembers :
    (event : Event) (now : String) (h : List (Event × String)) (file : Option Raw)
    → HasPositiveId (event, now)
    → All HasPositiveId h
    → Remembers h (normalize_state file)
    → (s : State) × (record_event event now file ≡ some s) × Remembers ((event, now) ∷ h) s
record_event-Remembers (requested r) now h file p ps (own, (second, third)) =
    let (found, kept) =
      Keeps-cons request_id_of r (requests_of h) _ _ own p (positive-requests h ps) in
    (_, record_request-some r now file _ found, (kept, (second, third)))
record_event-Remembers (offered r) now h file p ps (first, (own, third)) =
    let (found, kept) = Keeps-cons offer_id_of r (offers_of h) _ _ own p (positive-offers h ps) in
    (_, record_offer-some r now file _ found, (first, (kept, third)))
record_event-Remembers (accepted r) now h file p ps (first, (second, own)) =
    let (found, kept) =
      Keeps-cons session_id_of r (sessions_of h) _ _ own p (positive-sessions h ps) in
    (_, record_session-some r now file _ found, (first, (second, kept)))

-- After any history of events with positive ids, from no file, no method has thrown, and a load gives of
-- each kind the ids and the records of the newest 100 different ones, the last first.
pub file_after-Remembers :
    (h : List (Event × String))
    → All HasPositiveId h
    → (file : Option Raw) × (file_after h ≡ some file) × Remembers h (normalize_state file)
unfolding normalize_state default_state
file_after-Remembers [] p = (none, refl, ((refl, refl), ((refl, refl), (refl, refl))))
file_after-Remembers ((event, now) ∷ h) (p, ps) =
    let (file, found, kept) = file_after-Remembers h ps in
    let (s, recorded, next) = record_event-Remembers event now h file p ps kept in
    (
      save s,
      rw (found, recorded) refl,
      subst (Remembers ((event, now) ∷ h))
          (sym (normalize_state-save s (Remembers-IsValid ((event, now) ∷ h) s (p, ps) next))) next,
    )
