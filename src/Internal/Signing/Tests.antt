-- ===== src/Internal/Signing/Tests.antt =====
-- Runs of src/internal/security.ts, with the text itself as its signature.
use Prim.Native.String.{◌++◌ as text_append}
use claw_crony.Base.{◌≡◌, refl, String, true, false}
use claw_crony.Internal.Signing.{check_timestamp}

abbrev hmac : String → String → String
hmac secret text = text_append secret text

in-window : check_timestamp 10_000 15_000 5 ≡ true
unfolding check_timestamp
in-window = refl

out_of-window : check_timestamp 10_000 15_001 5 ≡ false
unfolding check_timestamp
out_of-window = refl
