-- ===== src/FileSecurity/Logged.antt =====
-- `sanitizeUriForLog` and `sanitizeFilePartForLog` of src/file-security.ts.
use claw_crony.Base.{ℕ, ◌+◌, ◌≤◌, ◌≡◌, refl, ap, Option, none, some, [], arith, length}
use claw_crony.Base.Text.{Text, codes, clip, length-clip_le}
use claw_crony.Base.Json.{Json, Fields, get, put, str, obj, end, field}
use claw_crony.FileSecurity.Uri.{Url, Platform}

-- The URL without user, password, query and fragment.
unfoldable pub cleaned : Url → Url
cleaned url = record {
  protocol = url.protocol;
  username = [];
  password = [];
  hostname = url.hostname;
  port = url.port;
  pathname = url.pathname;
  search = [];
  hash = [];
}

unfoldable pub sanitize_uri_for_log : Platform → ℕ → Text → Text
unfolding clip cleaned
sanitize_uri_for_log platform max_length uri = elim (platform.parse_url uri) [
  | none ↦ clip max_length uri
  | some url ↦ clip max_length (platform.to_string (cleaned url))
]

unfoldable pub redact_bytes : Fields → Fields
unfolding put
redact_bytes file = put (codes "bytes") (str (codes "[REDACTED]")) file

unfoldable pub sanitize_uri_in : Platform → Fields → Option Json → Fields
unfolding put sanitize_uri_for_log
sanitize_uri_in platform file (some (str uri)) =
    put (codes "uri") (str (sanitize_uri_for_log platform 200 uri)) file
sanitize_uri_in platform file _ = file

-- The copy of `part.file`.
unfoldable pub sanitize_file : Platform → Fields → Fields
unfolding redact_bytes sanitize_uri_in get
sanitize_file platform file =
    sanitize_uri_in platform (redact_bytes file) (get (codes "uri") (redact_bytes file))

unfoldable pub sanitize_found : Platform → Fields → Option Json → Fields
unfolding put sanitize_file
sanitize_found platform part (some (obj file)) =
    put (codes "file") (obj (sanitize_file platform file)) part
sanitize_found platform part _ = part

-- `part.file` is taken for an object or for no object: an array there is not modelled.
unfoldable pub sanitize_file_part_for_log : Platform → Fields → Fields
unfolding sanitize_found get
sanitize_file_part_for_log platform part = sanitize_found platform part (get (codes "file") part)

-- Two URIs that differ only in user, password, query and fragment.
abbrev pub SameTarget : Url → Url → Type 0
SameTarget u v =
    (u.protocol ≡ v.protocol)
    × (u.hostname ≡ v.hostname)
    × (u.port ≡ v.port)
    × (u.pathname ≡ v.pathname)

cleaned-SameTarget : (u v : Url) → SameTarget u v → cleaned u ≡ cleaned v
unfolding cleaned
cleaned-SameTarget u v (p, h, o, n) = cc

-- What is logged for a URI has at most three characters more than the limit. Two URIs that parse
-- to URLs with the same scheme, host, port and path are logged alike, so nothing of the user, the
-- password, the query and the fragment is in the log.
pub sanitize_uri_for_log-SameTarget :
    (platform : Platform) (max_length : ℕ) (a b : Text) (u v : Url)
    → platform.parse_url a ≡ some u
    → platform.parse_url b ≡ some v
    → SameTarget u v
    → (sanitize_uri_for_log platform max_length a ≡ sanitize_uri_for_log platform max_length b)
      × (length (sanitize_uri_for_log platform max_length a) ≤ max_length + 3)
unfolding sanitize_uri_for_log
sanitize_uri_for_log-SameTarget platform n a b u v pa pb s = (
  rw (sanitize_uri_for_log, pa, pb)
      (ap (λ w. clip n (platform.to_string w)) (cleaned-SameTarget u v s)),
  rw (sanitize_uri_for_log, pa) (length-clip_le n (platform.to_string (cleaned u))),
)

put_twice : (k : Text) (v w : Json) (fs : Fields) → put k w (put k v fs) ≡ put k w fs
unfolding put
put_twice k v w end = refl
put_twice k v w (field j x fs) = ground (arith, put_twice k v w fs)

get-put : (k : Text) (v w : Json) (fs : Fields) → get k fs ≡ some v → get k (put k w fs) ≡ some w
unfolding get put
get-put k v w end h = absurd (cc)
get-put k v w (field j x fs) h = ground (arith, get-put k v w fs)

-- Two parts with a file object that differ only in the value of `bytes` are logged alike.
pub sanitize_file_part_for_log-bytes :
    (platform : Platform) (part file : Fields) (bytes : Json)
    → get (codes "file") part ≡ some (obj file)
    → sanitize_file_part_for_log platform
        (put (codes "file") (obj (put (codes "bytes") bytes file)) part)
      ≡ sanitize_file_part_for_log platform part
unfolding sanitize_file_part_for_log sanitize_file redact_bytes
sanitize_file_part_for_log-bytes platform part file bytes h =
    let changed = put (codes "bytes") bytes file in
    rw
      (
        sanitize_file_part_for_log,
        h,
        get-put (codes "file") (obj file) (obj changed) part h,
        put_twice (codes "file") (obj changed) (obj (sanitize_file platform changed)) part,
        sanitize_file,
        redact_bytes,
        put_twice (codes "bytes") bytes (str (codes "[REDACTED]")) file,
      )
      refl
