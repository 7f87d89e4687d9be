-- ===== src/Executor/Answers.antt =====
-- src/executor.ts: what the parts of an answer hold.
use claw_crony.Base.{
  ◌≤◌, ◌≡◌, refl, sym, ap, subst, inl, inr, Bool, true, false, ◌&&◌, ◌||◌, Option, none, some, List,
  [], ◌∷◌, ◌++◌, map, arith, ltb, ◌==◌, if◌then◌else◌, Bool-cases, length, All, All-append,
  WhenSome,
}
use claw_crony.Base.Text.{Text, codes, same, same_iff, trim}
use claw_crony.Base.Json.{Json, Items, null, bool, num, str, arr, obj, nil, cons}
use claw_crony.Executor.Fragments.{as_string, non_empty}
use claw_crony.Executor.Response.{
  AgentResponse, has, push_new, push_all, items_of, get_in, extract_media_urls_from_payload,
  push_urls, collect_urls, extract_agent_response, Part, or_empty_text, text_parts,
  build_response_parts, text_part, file_part,
}

-- No text stands in the list twice.
abbrev pub NoDup : List Text → Type 0
NoDup [] = Unit
NoDup (u ∷ us) = (has us u ≡ false) × NoDup us

abbrev pub Full : List Text → Type 0
Full = All (λ t. 1 ≤ length t)

has-append : (xs : List Text) (y z : Text) → has (xs ++ (y ∷ [])) z ≡ (has xs z || same y z)
has-append [] y z = ground arith
has-append (x ∷ xs) y z = ground (arith, has-append xs y z)

same_sym : (a b : Text) → same a b ≡ true → same b a ≡ true
same_sym a b h = (same_iff b a).1 (sym ((same_iff a b).0 h))

NoDup-append : (xs : List Text) (y : Text) → NoDup xs → has xs y ≡ false → NoDup (xs ++ (y ∷ []))
NoDup-append [] y h e = (refl, tt)
NoDup-append (x ∷ xs) y (f, h) e =
    (ground (arith, has-append xs y x, same_sym y x), NoDup-append xs y h (ground arith))

-- The property of every list of urls on the way.
abbrev Good : List Text → Type 0
Good urls = NoDup urls × Full urls

push_new-Good :
    (urls : List Text) (o : Option Text)
    → Good urls
    → WhenSome (λ u. 1 ≤ length u) o
    → Good (push_new urls o)
unfolding push_new
push_new-Good urls none h k = h
push_new-Good urls (some u) (d, f) k = elim (Bool-cases (has urls u)) [
  | inl e ↦ rw e (d, f)
  | inr e ↦ rw e (NoDup-append urls u d e, All-append (λ t. 1 ≤ length t) urls (u ∷ []) f (k, tt))
]

non_empty-long : (t : Text) → WhenSome (λ u. 1 ≤ length u) (non_empty t)
unfolding non_empty
non_empty-long [] = tt
non_empty-long (c ∷ t) = omega arith

as_string-long : (v : Option Json) → WhenSome (λ u. 1 ≤ length u) (as_string v)
unfolding as_string
as_string-long none = tt
as_string-long (some null) = tt
as_string-long (some (bool b)) = tt
as_string-long (some (num n)) = tt
as_string-long (some (str t)) = non_empty-long (trim t)
as_string-long (some (arr items)) = tt
as_string-long (some (obj fs)) = tt

push_all-Good : (urls : List Text) (items : Items) → Good urls → Good (push_all urls items)
unfolding push_all
push_all-Good urls nil h = h
push_all-Good urls (cons v items) h =
    push_all-Good (push_new urls (as_string (some v))) items
      (push_new-Good urls (as_string (some v)) h (as_string-long (some v)))

push_urls-Good : (urls us : List Text) → Good urls → Full us → Good (push_urls urls us)
unfolding push_urls
push_urls-Good urls [] h f = h
push_urls-Good urls (u ∷ us) h (k, f) =
    push_urls-Good (push_new urls (some u)) us (push_new-Good urls (some u) h k) f

payload-Good : (v : Json) → Good (extract_media_urls_from_payload v)
unfolding extract_media_urls_from_payload
payload-Good v =
    let single = get_in (codes "mediaUrl") (some v) in
    push_all-Good (push_new [] (as_string single)) (items_of (get_in (codes "mediaUrls") (some v)))
      (push_new-Good [] (as_string single) (tt, tt) (as_string-long single))

collect_urls-Good : (urls : List Text) (items : Items) → Good urls → Good (collect_urls urls items)
unfolding collect_urls
collect_urls-Good urls nil h = h
collect_urls-Good urls (cons v items) h =
    collect_urls-Good (push_urls urls (extract_media_urls_from_payload v)) items
      (push_urls-Good urls (extract_media_urls_from_payload v) h ((payload-Good v).1))

abbrev pub uris : List Part → List Text
uris [] = []
uris (text_part t ∷ ps) = uris ps
uris (file_part u ∷ ps) = u ∷ uris ps

abbrev pub texts : List Part → List Text
texts [] = []
texts (text_part t ∷ ps) = t ∷ texts ps
texts (file_part u ∷ ps) = texts ps

uris-map : (us : List Text) → uris (map (λ u. file_part u) us) ≡ us
uris-map [] = refl
uris-map (u ∷ us) = ap (λ t. u ∷ t) (uris-map us)

texts-map : (us : List Text) → texts (map (λ u. file_part u) us) ≡ []
texts-map [] = refl
texts-map (u ∷ us) = texts-map us

-- The parts of any response: at least one, the files of the urls in their order, and one text,
-- which is left out where it is empty and there is a file.
pub build_response_parts_lem :
    (r : AgentResponse)
    → (1 ≤ length (build_response_parts r))
      × (uris (build_response_parts r) ≡ r.media_urls)
      × (texts (build_response_parts r)
          ≡ (if (length r.text == 0) && ltb 0 (length r.media_urls) then [] else r.text ∷ []))
unfolding build_response_parts
build_response_parts_lem r = parts r.text r.media_urls
  where
    parts :
        (t : Text) (us : List Text)
        → (1 ≤ length (or_empty_text (text_parts t ++ map (λ u. file_part u) us)))
          × (uris (or_empty_text (text_parts t ++ map (λ u. file_part u) us)) ≡ us)
          × (texts (or_empty_text (text_parts t ++ map (λ u. file_part u) us))
              ≡ (if (length t == 0) && ltb 0 (length us) then [] else t ∷ []))
    parts [] [] = (omega arith, refl, refl)
    parts [] (u ∷ us) = (omega arith, ap (λ t. u ∷ t) (uris-map us), ground (arith, texts-map us))
    parts (c ∷ t) us = (omega arith, uris-map us, ground (arith, texts-map us))

urls_of :
    (b : Bool) (t : Text) (us : List Text) (r : AgentResponse)
    → (if b then none else some (record { text = t; media_urls = us })) ≡ some r
    → us ≡ r.media_urls
urls_of true t us r h = absurd (cc)
urls_of false t us r h =
    let e : record { text = t; media_urls = us } ≡ r = cc in
    ap (λ (x : AgentResponse). x.media_urls) e

-- A response that is read from a payload has a text or a file, and no file of it is blank or there
-- twice. The parts of its message hold those files in their order.
pub extract_agent_response-NoDup :
    (stringify : Json → Text) (payload : Json) (r : AgentResponse)
    → extract_agent_response stringify payload ≡ some r
    → NoDup r.media_urls
      × Full r.media_urls
      × (uris (build_response_parts r) ≡ r.media_urls)
      × (1 ≤ length (build_response_parts r))
unfolding extract_agent_response
extract_agent_response-NoDup stringify payload r h =
    let payloads = items_of (get_in (codes "payloads") (get_in (codes "result") (some payload))) in
    let good = collect_urls-Good [] payloads (tt, tt) in
    let same_urls : collect_urls [] payloads ≡ r.media_urls =
      urls_of _ _ (collect_urls [] payloads) r h in
    (
      subst NoDup same_urls (good.0),
      subst Full same_urls (good.1),
      (build_response_parts_lem r).1,
      (build_response_parts_lem r).0,
    )
