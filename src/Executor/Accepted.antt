-- ===== src/Executor/Accepted.antt =====
-- src/executor.ts: which messages pass the check of their file parts.
use claw_crony.Base.{ℕ, ◌≤◌, Option, WhenSome}
use claw_crony.Base.Text.{Text, codes}
use claw_crony.Base.Json.{Json, Fields, get}
use claw_crony.FileSecurity.Uri.{Platform}
use claw_crony.FileSecurity.Media.{decoded_base64_size}
use claw_crony.FileSecurity.Media.Patterns.{IsMimeOf}
use claw_crony.FileSecurity.Uri.Inbound.{IsInbound}
use claw_crony.Base.Integers.{ℤ, pos, negsuc}
use claw_crony.Executor.Fragments.{as_string}
use claw_crony.Executor.Response.{get_in}
use claw_crony.Executor.Files.{Security}

-- The size is within the limit; what is too short to be Base64 counts as less than nothing.
abbrev pub IsWithin : ℤ → ℕ → Type 0
IsWithin (pos n) limit = n ≤ limit
IsWithin (negsuc n) limit = Unit

module _ (platform : Platform) (security : Security) where
  -- The media type, where one is given, is allowed.
  abbrev pub HasMime : Option Text → Type 0
  HasMime mime_type = WhenSome (λ m. IsMimeOf m security.allowed_mime_types) mime_type

  -- A file by URI has an allowed one and an allowed media type; an inline file is small enough,
  -- with an allowed media type too.
  pub record IsAcceptable (part : Fields) : Type 0 where
    pub by_uri :
        WhenSome
          (λ u.
            IsInbound platform u
            × HasMime (as_string (get_in (codes "mimeType") (get (codes "file") part))))
          (as_string (get_in (codes "uri") (get (codes "file") part)))
    pub inline :
        WhenSome
          (λ b.
            IsWithin (decoded_base64_size b) security.max_inline_file_size_bytes
            × HasMime (as_string (get_in (codes "mimeType") (get (codes "file") part))))
          (as_string (get_in (codes "bytes") (get (codes "file") part)))
