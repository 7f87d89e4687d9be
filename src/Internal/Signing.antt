-- ===== src/Internal/Signing.antt =====
-- src/internal/security.ts: signatures, the check of a timestamp, and the registry of peers. The
-- HMAC-SHA256 in hexadecimal is the parameter `hmac` of a secret and a text; a signed timestamp is the text of its number.
pub mod Split
mod Tests
use Prim.Native.String.{◌++◌ as text_append, len}
use claw_crony.Base.{
  ℕ, ◌+◌, ◌-◌, ◌*◌, max, String, Bool, true, false, not, Option, none, some, ltb, ◌==◌,
  if◌then◌else◌, str_eq,
}
use claw_crony.Base.Dict.{Dict, lookup, insert}

-- `SignResult`
pub record Signed : Type 0 where
  pub signature : String
  pub timestamp : String
  pub nonce : String

-- `VerifyResult`
pub data Verified : Type 0 where
  valid length_mismatch mismatch : Verified

-- `${timestamp}.${nonce}.${body}`
unfoldable pub signed_text : String → String → String → String
signed_text timestamp nonce body =
    text_append (text_append timestamp ".") (text_append (text_append nonce ".") body)

-- The comparison of the buffers; `len` is the length in UTF-8.
abbrev pub compare_texts : String → String → Verified
compare_texts signature expected =
    if not (len signature == len expected)
    then length_mismatch
    else if not (str_eq signature expected)
    then mismatch
    else valid

module _ (hmac : String → String → String) where
  pub sign_request : String → String → String → String → Signed
  unfolding signed_text
  sign_request body secret timestamp nonce = record {
    signature = hmac secret (signed_text timestamp nonce body);
    timestamp = timestamp;
    nonce = nonce;
  }

  pub verify_request : String → String → String → String → String → Verified
  unfolding signed_text
  verify_request body signature timestamp nonce secret =
      compare_texts signature (hmac secret (signed_text timestamp nonce body))

-- Whether the timestamp is within the window; `Math.abs` of the difference.
pub check_timestamp : ℕ → ℕ → ℕ → Bool
check_timestamp now timestamp skew_seconds =
    not (ltb (skew_seconds * 1_000) (max (now - timestamp) (timestamp - now)))

-- `PeerRegistry`
pub record PeerConfig : Type 0 where
  pub gateway_id : String
  pub hmac_secret : String

pub add_peer : PeerConfig → Dict PeerConfig → Dict PeerConfig
add_peer config = insert config.gateway_id config

abbrev secret_of : Option PeerConfig → Option String
secret_of none = none
secret_of (some config) = some config.hmac_secret

pub get_secret : String → Dict PeerConfig → Option String
get_secret id peers = secret_of (lookup id peers)
