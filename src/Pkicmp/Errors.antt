-- ===== src/Pkicmp/Errors.antt =====
-- pkicmp/errors.go: why protection and verification fail. An error is kept by its type and its
-- reason, without its text.
use go_pkicmp_ng.Prelude.{Bytes, text}

-- `InvalidReason`
pub data InvalidReason : Type 0 where
  reason_unknown unsupported_algorithm missing_shared_secret missing_signer bad_mac : InvalidReason
  signature_failed missing_trust_anchors unexpected_protection sender_mismatch : InvalidReason
  key_usage_not_permitted certificate_expired no_candidate_signer : InvalidReason

-- `InvalidReason.String`
unfoldable pub reason_text : InvalidReason → Bytes
unfolding text
reason_text unsupported_algorithm = text "unsupported algorithm"
reason_text missing_shared_secret = text "missing shared secret"
reason_text missing_signer = text "missing signer"
reason_text bad_mac = text "MAC verification failed"
reason_text signature_failed = text "signature verification failed"
reason_text missing_trust_anchors = text "missing trust anchors"
reason_text unexpected_protection = text "unexpected protection mechanism"
reason_text sender_mismatch = text "sender does not match protection certificate subject"
reason_text key_usage_not_permitted = text "protection certificate is not permitted to sign"
reason_text certificate_expired = text "protection certificate is outside its validity period"
reason_text no_candidate_signer = text "no candidate signer certificate"
reason_text reason_unknown = text "unknown"

-- `*ParseError`, `*ProtectionError`, `*VerificationError`, and the errors of other packages.
pub data Failure : Type 0 where
  parse_failure : Failure
  protection_failure : InvalidReason → Failure
  verification_failure : InvalidReason → Failure
  other_failure : Failure
