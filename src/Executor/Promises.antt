-- ===== src/Executor/Promises.antt =====
-- src/executor.ts: every request of a connection is answered once.
use claw_crony.Base.{
  ℕ, ◌+◌, ◌≤◌, String, ◌≡◌, refl, inl, inr, ◌&&◌, none, some, List, [], ◌∷◌, ◌++◌, arith, eq_iff,
  str_eq, Bool-cases, Option-cases, bit, count, count-append,
}
use claw_crony.Base.Dict.{
  Dict, lookup, insert, erase, NodupKeys, lookup-insert, lookup-erase, insert-NodupKeys,
  erase-NodupKeys,
}
use claw_crony.Executor.Rpc.{
  Pending, Outcome, Connection, Frame, settle, request, time_out, is_accepted, outcome_of,
  handle_response, rejections, close, Event, step, run, connection, not_connected, timed_out,
  send_failed, requests, times_out, receives, closes,
}

-- How often the promise of an id was told something.
abbrev pub told : String → List (String × Outcome) → ℕ
told k = count (λ s. str_eq s.0 k)

abbrev pub waits : String → Dict Pending → ℕ
waits k d = elim (lookup k d) [ none ↦ 0 | some entry ↦ 1 ]

-- How often an id was given to a request.
abbrev pub asked_by : String → Event → ℕ
asked_by k (requests id method final sends) = bit (str_eq id k)
asked_by k _ = 0

abbrev pub asked : String → List Event → ℕ
asked k [] = 0
asked k (e ∷ es) = asked_by k e + asked k es

-- A request of the event has an id that waits for nothing.
abbrev IsFresh : Event → Connection → Type 0
IsFresh (requests id method final sends) c = lookup id c.pending ≡ none
IsFresh _ c = Unit

waits-insert :
    (k id : String) (p : Pending) (d : Dict Pending)
    → lookup id d ≡ none
    → waits k (insert id p d) ≡ bit (str_eq id k) + waits k d
waits-insert k id p d h = ground (arith, lookup-insert id k p d, eq_iff id k)

waits-erase-insert :
    (k id : String) (p : Pending) (d : Dict Pending)
    → lookup id d ≡ none
    → waits k (erase id (insert id p d)) ≡ waits k d
waits-erase-insert k id p d h =
    ground (arith, lookup-erase id k (insert id p d), lookup-insert id k p d, eq_iff id k)

waits-erase :
    (k id : String) (p : Pending) (d : Dict Pending)
    → lookup id d ≡ some p
    → bit (str_eq id k) + waits k (erase id d) ≡ waits k d
waits-erase k id p d h = ground (arith, lookup-erase id k d, eq_iff id k)

told-append_one :
    (k id : String) (o : Outcome) (s : List (String × Outcome))
    → told k (s ++ ((id, o) ∷ [])) ≡ told k s + bit (str_eq id k)
told-append_one k id o s =
    omega (arith, count-append (λ (x : String × Outcome). str_eq x.0 k) s ((id, o) ∷ []))

told-rejections : (k : String) (d : Dict Pending) → NodupKeys d → told k (rejections d) ≡ waits k d
unfolding lookup
told-rejections k [] u = refl
told-rejections k ((id, p) ∷ d) (f, u) = ground (arith, told-rejections k d u, eq_iff id k)

settle-balance :
    (k id : String) (o : Outcome) (p : Pending) (c : Connection)
    → lookup id c.pending ≡ some p
    → told k (settle id o c).settled + waits k (settle id o c).pending
      ≡ told k c.settled + waits k c.pending + 0
unfolding settle
settle-balance k id o p c h =
    omega (arith, told-append_one k id o c.settled, waits-erase k id p c.pending h)

time_out-balance :
    (k id : String) (c : Connection)
    → told k (time_out id c).settled + waits k (time_out id c).pending
      ≡ told k c.settled + waits k c.pending + 0
unfolding time_out
time_out-balance k id c = elim (Option-cases (lookup id c.pending)) [
  | inl e ↦ rw (time_out, e) (omega arith)
  | inr (p, e) ↦ rw (time_out, e) (settle-balance k id timed_out p c e)
]

handle_response-balance :
    (k : String) (frame : Frame) (c : Connection)
    → told k (handle_response frame c).settled + waits k (handle_response frame c).pending
      ≡ told k c.settled + waits k c.pending + 0
unfolding handle_response
handle_response-balance k frame c = elim (Option-cases (lookup frame.id c.pending)) [
  | inl e ↦ rw (handle_response, e) (omega arith)
  | inr (p, e) ↦ elim (Bool-cases (p.expect_final && is_accepted frame.status)) [
    | inl w ↦ rw (handle_response, e, w) (omega arith)
    | inr w ↦ rw (handle_response, e, w) (settle-balance k frame.id (outcome_of p frame) p c e)
  ]
]

-- A step makes no promise or answer of an id out of nothing, and loses none.
step-balance :
    (k : String) (e : Event) (c : Connection)
    → NodupKeys c.pending
    → IsFresh e c
    → told k (step e c).settled + waits k (step e c).pending
      ≡ told k c.settled + waits k c.pending + asked_by k e
unfolding step request close settle lookup
step-balance k (requests id method final sends) c u f =
    let entry : Pending = record { method = method; expect_final = final } in
    grind (
      arith,
      told-append_one k id not_connected c.settled,
      told-append_one k id send_failed c.settled,
      waits-insert k id entry c.pending f,
      waits-erase-insert k id entry c.pending f,
    )
step-balance k (times_out id) c u f = time_out-balance k id c
step-balance k (receives frame) c u f = handle_response-balance k frame c
step-balance k closes c u f = omega (
  arith,
  told-rejections k c.pending u,
  count-append (λ (x : String × Outcome). str_eq x.0 k) c.settled (rejections c.pending),
)

step-NodupKeys : (e : Event) (c : Connection) → NodupKeys c.pending → NodupKeys (step e c).pending
unfolding step request time_out handle_response close settle
step-NodupKeys (requests id method final sends) c u =
    let entry : Pending = record { method = method; expect_final = final } in
    let added = insert-NodupKeys id entry c.pending u in
    grind (arith, erase-NodupKeys id (insert id entry c.pending) added)
step-NodupKeys (times_out id) c u = grind (arith, erase-NodupKeys id c.pending u)
step-NodupKeys (receives frame) c u = grind (arith, erase-NodupKeys frame.id c.pending u)
step-NodupKeys closes c u = tt

-- No id is given to two requests.
abbrev pub AskedOnce : List Event → Type 0
AskedOnce es = (k : String) → asked k es ≤ 1

-- What is told, waits or is still to be asked of an id is at most one.
abbrev AtMostOnce : Connection → List Event → Type 0
AtMostOnce c es = (k : String) → told k c.settled + waits k c.pending + asked k es ≤ 1

waits-none : (k : String) (d : Dict Pending) → waits k d ≡ 0 → lookup k d ≡ none
waits-none k d h = ground arith

AtMostOnce-IsFresh :
    (e : Event) (es : List Event) (c : Connection) → AtMostOnce c (e ∷ es) → IsFresh e c
AtMostOnce-IsFresh (requests id method final sends) es c h =
    waits-none id c.pending (let b = h id in ground (arith, eq_iff id id))
AtMostOnce-IsFresh (times_out id) es c h = tt
AtMostOnce-IsFresh (receives frame) es c h = tt
AtMostOnce-IsFresh closes es c h = tt

run-balance :
    (es : List Event) (c : Connection) (k : String)
    → NodupKeys c.pending
    → AtMostOnce c es
    → (told k (run es c).settled + waits k (run es c).pending
        ≡ told k c.settled + waits k c.pending + asked k es)
      × NodupKeys (run es c).pending
unfolding run
run-balance [] c k u h = (omega arith, u)
run-balance (e ∷ es) c k u h =
    let fresh = AtMostOnce-IsFresh e es c h in
    let next : AtMostOnce (step e c) es =
      λ j. (let b = h j in omega (arith, step-balance j e c u fresh)) in
    let rest = run-balance es (step e c) k (step-NodupKeys e c u) next in
    (omega (arith, rest.0, step-balance k e c u fresh), rest.1)

told-close :
    (k : String) (c : Connection)
    → NodupKeys c.pending
    → told k (close c).settled ≡ told k c.settled + waits k c.pending
unfolding close
told-close k c u = omega (
  arith,
  told-rejections k c.pending u,
  count-append (λ (x : String × Outcome). str_eq x.0 k) c.settled (rejections c.pending),
)

-- With no id given to two requests, after any events the promise of every request either waits or was
-- told an outcome, and that once. When the connection is then closed, every promise was told
-- exactly one outcome.
pub run-AskedOnce :
    (es : List Event) (k : String)
    → AskedOnce es
    → (told k (run es connection).settled + waits k (run es connection).pending ≡ asked k es)
      × (told k (close (run es connection)).settled ≡ asked k es)
unfolding lookup
run-AskedOnce es k once =
    let balance = run-balance es connection k tt (λ j. (let b = once j in omega arith)) in
    (
      omega (arith, balance.0),
      omega (arith, balance.0, told-close k (run es connection) (balance.1)),
    )
