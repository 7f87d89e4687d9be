-- ===== src/Internal/Inbox/Handed.antt =====
-- src/internal/transport.ts: which requests reach the handler of messages.
use claw_crony.Base.{
  ℕ, ◌≤◌, ◌≡◌, refl, sym, ap, ◌∙◌, ◌↔◌, inl, inr, Bool, true, false, not, Option, none, some, List,
  [], ◌∷◌, arith, if◌then◌else◌, Option-cases, length,
}
use claw_crony.Base.Text.{Text, codes, same, same_iff, includes}
use claw_crony.Base.Json.{Json}
use claw_crony.Internal.Inbox.{
  Body, read_body, Incoming, Reply, problem, Message, Web, or_text, headers_of, process_body,
  with_body, at_path, handle_request, whole, too_large, broken,
}
use claw_crony.Internal.Inbox.Chunks.{Arrives, read_body_iff}

-- What is asked of a request whose octets and envelope are given.
pub record IsAccepted (web : Web) (req : Incoming) (b : List ℕ) (envelope : Json) : Type 0 where
  pub is_inbox : web.pathname (or_text req.url "/") ≡ some (codes "/a2a/v1/inbox")
  pub is_post : req.method ≡ codes "POST"
  pub is_json : includes (or_text req.content_type "") (codes "application/json") ≡ true
  pub arrives : Arrives req.body b
  pub is_small : length b ≤ 2097152
  pub parses : web.parse (web.decode b) ≡ some envelope

guard-hands :
    (c : Bool) (r : Reply) (p : Option Reply × List Message) (m : Message)
    → (if c then (some r, []) else p).1 ≡ m ∷ []
    → (c ≡ false) × (p.1 ≡ m ∷ [])
guard-hands true r p m h = absurd (cc)
guard-hands false r p m h = (refl, h)

module _ (web : Web) (req : Incoming) where
  abbrev pub message_of : Json → List ℕ → Message
  message_of envelope b = record {
    envelope = envelope;
    raw_body = web.decode b;
    headers = headers_of web req;
  }

  process_body-hands :
      (raw : Text) (m : Message)
      → (process_body web raw req).1 ≡ m ∷ []
      → (envelope : Json) × (web.parse raw ≡ some envelope)
        × (m ≡ record { envelope = envelope; raw_body = raw; headers = headers_of web req })
  unfolding process_body
  process_body-hands raw m h = elim (Option-cases (web.parse raw)) [
    | inl n ↦ absurd (let k : [] ≡ m ∷ [] = rw (process_body, n) at h in cc)
    | inr (envelope, p) ↦
        let k : record { envelope = envelope; raw_body = raw; headers = headers_of web req } ∷ []
            ≡ m ∷ [] =
          rw (process_body, p) at h in
        (envelope, p, cc)
  ]

  with_body-hands :
      (o : Option Body) (m : Message)
      → (with_body web o req).1 ≡ m ∷ []
      → (b : List ℕ) × (envelope : Json) × (o ≡ some (whole b))
        × (web.parse (web.decode b) ≡ some envelope)
        × (m ≡ message_of envelope b)
  unfolding with_body
  with_body-hands none m h = absurd (cc)
  with_body-hands (some too_large) m h = absurd (cc)
  with_body-hands (some broken) m h = absurd (cc)
  with_body-hands (some (whole b)) m h =
      let (envelope, p, e) = process_body-hands (web.decode b) m h in (b, envelope, refl, p, e)

  at_path-hands :
      (o : Option Text) (m : Message)
      → web.pathname (or_text req.url "/") ≡ o
      → (at_path web o req).1 ≡ m ∷ []
      → (b : List ℕ) × (envelope : Json) × IsAccepted web req b envelope
        × (m ≡ message_of envelope b)
  unfolding at_path
  at_path-hands none m u h = absurd (cc)
  at_path-hands (some path) m u h =
      let (inbox, e1) =
        guard-hands (not (same path (codes "/a2a/v1/inbox"))) (problem 404 "Not found") _ m h in
      let (post, e2) =
        guard-hands (not (same req.method (codes "POST"))) (problem 405 "Method not allowed") _ m
          e1 in
      let (json, e3) =
        guard-hands (not (includes (or_text req.content_type "") (codes "application/json")))
          (problem 400 "Content-Type must be application/json") _ m e2 in
      let (b, envelope, r, p, e) = with_body-hands (read_body [] req.body) m e3 in
      let (arrives, small) = (read_body_iff req.body b).0 r in
      (
        b,
        envelope,
        record {
          is_inbox = u ∙ ap some ((same_iff path (codes "/a2a/v1/inbox")).0 (ground arith));
          is_post = (same_iff req.method (codes "POST")).0 (ground arith);
          is_json = ground arith;
          arrives = arrives;
          is_small = small;
          parses = p;
        },
        e,
      )

  IsAccepted-hands :
      (b : List ℕ) (envelope : Json)
      → IsAccepted web req b envelope
      → (handle_request web req).1 ≡ message_of envelope b ∷ []
  unfolding handle_request at_path with_body process_body
  IsAccepted-hands b envelope ok =
      let post = (same_iff req.method (codes "POST")).1 ok.is_post in
      let read = (read_body_iff req.body b).1 (ok.arrives, ok.is_small) in
      rw
        (
          handle_request, ok.is_inbox, at_path, post, ok.is_json, read, with_body, process_body,
          ok.parses,
        )
        refl

  process_body-once : (raw : Text) → length ((process_body web raw req).1) ≤ 1
  unfolding process_body
  process_body-once raw = elim (Option-cases (web.parse raw)) [
    | inl n ↦ rw (process_body, n) (omega arith)
    | inr (envelope, p) ↦ rw (process_body, p) (omega arith)
  ]

  with_body-once : (o : Option Body) → length ((with_body web o req).1) ≤ 1
  unfolding with_body
  with_body-once none = omega arith
  with_body-once (some too_large) = omega arith
  with_body-once (some broken) = omega arith
  with_body-once (some (whole b)) = process_body-once (web.decode b)

  guard-once :
      (c : Bool) (r : Reply) (p : Option Reply × List Message)
      → length (p.1) ≤ 1
      → length ((if c then (some r, []) else p).1) ≤ 1
  guard-once true r p h = omega arith
  guard-once false r p h = h

  at_path-once : (o : Option Text) → length ((at_path web o req).1) ≤ 1
  unfolding at_path
  at_path-once none = omega arith
  at_path-once (some path) =
      let whole_body = with_body web (read_body [] req.body) req in
      let is_json = includes (or_text req.content_type "") (codes "application/json") in
      let declared : Option Reply × List Message =
        if not is_json
        then (some (problem 400 "Content-Type must be application/json"), [])
        else whole_body in
      let posted : Option Reply × List Message =
        if not (same req.method (codes "POST"))
        then (some (problem 405 "Method not allowed"), [])
        else declared in
      guard-once (not (same path (codes "/a2a/v1/inbox"))) (problem 404 "Not found") posted (
        guard-once (not (same req.method (codes "POST"))) (problem 405 "Method not allowed")
          declared
          (guard-once (not is_json) (problem 400 "Content-Type must be application/json") whole_body
            (with_body-once (read_body [] req.body))))

  -- A message is handed to the handler exactly when the request is a POST to the inbox that declares JSON, its body
  -- arrives whole in chunks of at most 2 MiB together, and the body parses. The message has that envelope, the text of the body
  -- and the headers of the request. No request hands over two messages.
  pub handle_request-IsAccepted :
      (m : Message)
      → (((handle_request web req).1 ≡ m ∷ []) ↔ (
          (b : List ℕ) × (envelope : Json) × IsAccepted web req b envelope
          × (m ≡ message_of envelope b)))
        × (length ((handle_request web req).1) ≤ 1)
  unfolding handle_request
  handle_request-IsAccepted m = (
    (
      at_path-hands (web.pathname (or_text req.url "/")) m refl,
      λ (b, envelope, ok, e). IsAccepted-hands b envelope ok ∙ ap (λ x. x ∷ []) (sym e),
    ),
    at_path-once (web.pathname (or_text req.url "/")),
  )
