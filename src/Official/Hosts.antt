-- ===== src/Official/Hosts.antt =====
-- src/official-agent-call.ts: where the request of `buildActionUrl` goes.
use claw_crony.Base.{
  ◌≡◌, refl, ◌∙◌, inl, inr, Bool, true, false, not, ◌||◌, Option, none, some, [], ◌∷◌, arith, ltb,
  if◌then◌else◌, Option-cases, length,
}
use claw_crony.Base.Text.{Text, codes, same, same_iff}
use claw_crony.Base.Json.{
  Json, Items, Fields, null, bool, num, str, arr, obj, nil, cons, end, field,
}
use claw_crony.FileSecurity.Uri.{Url, Verdict, passed, rejected, validate_uri_scheme_and_ip}
use claw_crony.Official.Url.{
  Web, UrlError, Built, is_absolute, append_all, add_entry, add_fields, add_query, extend_url,
  build_from, build_on, build_on_parsed, build_action_url, absolute_path, invalid_url, not_https,
  has_credentials, built, thrown,
}

-- Two URLs with the scheme, the host and the credentials of each other.
pub record IsSameOrigin (u v : Url) : Type 0 where
  pub protocols : u.protocol ≡ v.protocol
  pub usernames : u.username ≡ v.username
  pub passwords : u.password ≡ v.password
  pub hostnames : u.hostname ≡ v.hostname

-- What the URL standard says of the assignments to a path and to search parameters, and of parsing a URL again
-- that was parsed and printed.
pub record KeepsOrigin (web : Web) : Type 0 where
  pub pathname : (p : Text) (u : Url) → IsSameOrigin (web.set_pathname p u) u
  pub search : (u : Url) → IsSameOrigin (web.clear_search u) u
  pub appended : (k v : Text) (u : Url) → IsSameOrigin (web.append_param k v u) u
  pub assigned : (k v : Text) (u : Url) → IsSameOrigin (web.set_param k v u) u
  pub parsed :
      (t : Text) (u v : Url)
      → web.platform.parse_url t ≡ some u
      → web.platform.parse_url (web.platform.to_string u) ≡ some v
      → IsSameOrigin v u

pub same_origin_refl : (u : Url) → IsSameOrigin u u
same_origin_refl u = record {
  protocols = refl;
  usernames = refl;
  passwords = refl;
  hostnames = refl;
}

follow : (u v w : Url) → IsSameOrigin u v → IsSameOrigin v w → IsSameOrigin u w
follow u v w a b = record {
  protocols = a.protocols ∙ b.protocols;
  usernames = a.usernames ∙ b.usernames;
  passwords = a.passwords ∙ b.passwords;
  hostnames = a.hostnames ∙ b.hostnames;
}

guard-built :
    (b : Bool) (e : UrlError) (p : Built) (url : Text)
    → (if b then thrown e else p) ≡ built url
    → (b ≡ false) × (p ≡ built url)
guard-built true r p url h = absurd (cc)
guard-built false r p url h = (refl, h)

module _ (web : Web) (keeps : KeepsOrigin web) where
  append_all-IsSameOrigin :
      (key : Text) (items : Items) (u : Url) → IsSameOrigin (append_all web key items u) u
  unfolding append_all
  append_all-IsSameOrigin key nil u = same_origin_refl u
  append_all-IsSameOrigin key (cons null items) u = append_all-IsSameOrigin key items u
  append_all-IsSameOrigin key (cons (bool b) items) u =
      follow _ _ _ (append_all-IsSameOrigin key items _) (keeps.appended key _ u)
  append_all-IsSameOrigin key (cons (num n) items) u =
      follow _ _ _ (append_all-IsSameOrigin key items _) (keeps.appended key _ u)
  append_all-IsSameOrigin key (cons (str t) items) u =
      follow _ _ _ (append_all-IsSameOrigin key items _) (keeps.appended key _ u)
  append_all-IsSameOrigin key (cons (arr v) items) u =
      follow _ _ _ (append_all-IsSameOrigin key items _) (keeps.appended key _ u)
  append_all-IsSameOrigin key (cons (obj v) items) u =
      follow _ _ _ (append_all-IsSameOrigin key items _) (keeps.appended key _ u)

  add_entry-IsSameOrigin :
      (key : Text) (v : Json) (u : Url) → IsSameOrigin (add_entry web key v u) u
  unfolding add_entry
  add_entry-IsSameOrigin key null u = same_origin_refl u
  add_entry-IsSameOrigin key (bool b) u = keeps.assigned key _ u
  add_entry-IsSameOrigin key (num n) u = keeps.assigned key _ u
  add_entry-IsSameOrigin key (str t) u = keeps.assigned key _ u
  add_entry-IsSameOrigin key (arr items) u = append_all-IsSameOrigin key items u
  add_entry-IsSameOrigin key (obj fs) u = keeps.assigned key _ u

  add_fields-IsSameOrigin : (fs : Fields) (u : Url) → IsSameOrigin (add_fields web fs u) u
  unfolding add_fields
  add_fields-IsSameOrigin end u = same_origin_refl u
  add_fields-IsSameOrigin (field key v fs) u =
      follow _ _ _ (add_fields-IsSameOrigin fs (add_entry web key v u))
        (add_entry-IsSameOrigin key v u)

  add_query-IsSameOrigin :
      (query : Option Fields) (u : Url) → IsSameOrigin (add_query web query u) u
  unfolding add_query
  add_query-IsSameOrigin none u = same_origin_refl u
  add_query-IsSameOrigin (some fs) u = add_fields-IsSameOrigin fs u

  extend_url-IsSameOrigin :
      (base : Url) (path : Text) (query : Option Fields) (u : Url)
      → IsSameOrigin (extend_url web base path query u) u
  unfolding extend_url
  extend_url-IsSameOrigin base path query u =
      follow _ _ _ (add_query-IsSameOrigin query _)
        (follow _ _ _ (keeps.search _) (keeps.pathname _ u))

  -- What is known of a URL that was built.
  abbrev pub GoesTo : Url → Text → Type 0
  GoesTo base url =
      (u : Url) × (url ≡ web.platform.to_string u)
      × IsSameOrigin u base
      × (base.protocol ≡ codes "https:")
      × (base.username ≡ [])
      × (base.password ≡ [])
      × (validate_uri_scheme_and_ip web.platform (web.platform.to_string base) ≡ passed)

  build_from-built :
      (base_url : Text) (base : Url) (path : Text) (query : Option Fields) (verdict : Verdict)
      (url : Text)
      → web.platform.parse_url base_url ≡ some base
      → build_from web base path query verdict ≡ built url
      → (u : Url) × (url ≡ web.platform.to_string u) × IsSameOrigin u base × (verdict ≡ passed)
  unfolding build_from
  build_from-built base_url base path query (rejected r) url b h = absurd (cc)
  build_from-built base_url base path query passed url b h =
      elim (Option-cases (web.platform.parse_url (web.platform.to_string base))) [
        | inl n ↦ absurd (let k : thrown invalid_url ≡ built url = rw (build_from, n) at h in cc)
        | inr (v, p) ↦
            let k : built (web.platform.to_string (extend_url web base path query v)) ≡ built url =
              rw (build_from, p) at h in
            (
              extend_url web base path query v,
              cc,
              follow _ _ _ (extend_url-IsSameOrigin base path query v)
                  (keeps.parsed base_url base v b p),
              refl,
            )
      ]

  build_on-built :
      (base_url : Text) (base : Url) (path : Text) (query : Option Fields) (url : Text)
      → web.platform.parse_url base_url ≡ some base
      → build_on web base path query ≡ built url
      → GoesTo base url
  unfolding build_on
  build_on-built base_url base path query url b h =
      let (https, e1) = guard-built (not (same base.protocol (codes "https:"))) not_https _ url h in
      let (plain, e2) =
        guard-built (ltb 0 (length base.username) || ltb 0 (length base.password)) has_credentials _
          url e1 in
      let (u, t, o, v) = build_from-built base_url base path query _ url b e2 in
      (
        u,
        t,
        o,
        (same_iff base.protocol (codes "https:")).0 (ground arith),
        no_text base.username (ground arith),
        no_text base.password (ground arith),
        v,
      )
    where
      no_text : (t : Text) → ltb 0 (length t) ≡ false → t ≡ []
      no_text [] e = refl
      no_text (c ∷ t) e = absurd (ground arith)

  build_on_parsed-built :
      (base_url : Text) (o : Option Url) (path : Text) (query : Option Fields) (url : Text)
      → web.platform.parse_url base_url ≡ o
      → build_on_parsed web o path query ≡ built url
      → (base : Url) × (o ≡ some base) × GoesTo base url
  unfolding build_on_parsed
  build_on_parsed-built base_url none path query url b h = absurd (cc)
  build_on_parsed-built base_url (some base) path query url b h =
      (base, refl, build_on-built base_url base path query url b h)

  -- Whatever the path and the query of an action are, the URL that is built from them has the scheme, the host and the
  -- credentials of the agent's endpoint. The scheme is https, there are no credentials, and the
  -- endpoint has passed the check of its host. The path is not an absolute URL.
  pub build_action_url-GoesTo :
      (base_url path : Text) (query : Option Fields) (url : Text)
      → build_action_url web base_url path query ≡ built url
      → (is_absolute path ≡ false)
        × (base : Url) × (web.platform.parse_url base_url ≡ some base)
        × GoesTo base url
  unfolding build_action_url
  build_action_url-GoesTo base_url path query url h =
      let (a, e) = guard-built (is_absolute path) absolute_path _ url h in
      let (base, p, g) = build_on_parsed-built base_url _ path query url refl e in (a, base, p, g)
