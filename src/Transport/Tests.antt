-- ===== src/Transport/Tests.antt =====
-- Runs of src/transport-fallback.ts.
use claw_crony.Base.{◌≡◌, refl, String, List, [], ◌∷◌, true, str_eq}
use claw_crony.Base.Sort.{insert_by, sort_by}
use claw_crony.Transport.{Endpoint, order_transports, is_retryable_transport_error, status}

abbrev at : String → String → Endpoint
at url transport = record { url = url; transport = transport }

abbrev given : List Endpoint
given = at "a" "GRPC" ∷ at "b" "X" ∷ at "c" "JSONRPC" ∷ at "d" "HTTP+JSON" ∷ at "e" "JSONRPC" ∷ []

given-ordered :
    order_transports given
    ≡ at "c" "JSONRPC" ∷ at "e" "JSONRPC" ∷ at "d" "HTTP+JSON" ∷ at "a" "GRPC" ∷ at "b" "X" ∷ []
unfolding order_transports sort_by insert_by
given-ordered = refl

status-429 : is_retryable_transport_error str_eq (status 429) ≡ true
unfolding is_retryable_transport_error
status-429 = refl
