-- ===== src/Internal/Signing/Split.antt =====
-- src/internal/security.ts: which requests a signature stands for.
use Prim.Native.String.{◌++◌ as text_append}
use text.Mathlib.TextLemmas.{append_assoc}
use claw_crony.Base.{◌≡◌, ◌↔◌, ◌∙◌, ap, sym, subst, String, eq_iff, arith}
use claw_crony.Internal.Signing.{valid, signed_text, compare_texts, sign_request, verify_request}

compare_texts-same : (s : String) → compare_texts s s ≡ valid
compare_texts-same s = ground (arith, eq_iff s s)

compare_texts-valid : (a b : String) → compare_texts a b ≡ valid → a ≡ b
compare_texts-valid a b h = ground (arith, eq_iff a b)

module _ (hmac : String → String → String) where
  -- A signature is valid for a body, a timestamp and a nonce exactly when it is the one that signing them with
  -- the secret gives. Verification answers the same for a nonce n with a body p.b as for the nonce n.p with the
  -- body b.
  pub verify_request-sign :
      (body part signature timestamp nonce secret : String)
      → ((verify_request hmac body signature timestamp nonce secret ≡ valid)
          ↔ (signature ≡ (sign_request hmac body secret timestamp nonce).signature))
        × (verify_request hmac
              (text_append (text_append part ".") body)
              signature
              timestamp
              nonce
              secret
            ≡ verify_request hmac body signature timestamp
                (text_append (text_append nonce ".") part)
                secret)
  unfolding verify_request sign_request signed_text
  verify_request-sign body part signature timestamp nonce secret = (
    (
      compare_texts-valid signature (hmac secret (signed_text timestamp nonce body)),
      λ h. subst (λ x. compare_texts signature x ≡ valid) h (compare_texts-same signature),
    ),
    ap (λ x. compare_texts signature (hmac secret (text_append (text_append timestamp ".") x)))
        (sym (
          ap (λ x. text_append x body) (append_assoc (text_append nonce ".") part ".")
          ∙ append_assoc (text_append nonce ".") (text_append part ".") body)),
  )
