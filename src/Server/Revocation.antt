-- ===== src/Server/Revocation.antt =====
-- server/revocation.go: which certificate a revocation request names, and who may revoke it.
use go_pkicmp_ng.Prelude.{
  Bool, true, false, not, ◌&&◌, ◌||◌, Option, none, some, List, [], ◌∷◌, Bytes, bytes_eq, ◌==◌,
  is_empty, text, if◌then◌else◌,
}
use go_pkicmp_ng.Prelude.Int.{ℤ, pos, eqb_ℤ, ltb_ℤ}
use go_pkicmp_ng.Prelude.Result.{Result, ok, ◌>>=◌}
use go_pkicmp_ng.Pkicmp.Types.{Oid, Opaque, RdnSequence, Certificate, Extension}
use go_pkicmp_ng.Pkicmp.Status.{
  fail_bad_cert_id, fail_bad_request, fail_bad_data_format, fail_add_info_not_available,
}
use go_pkicmp_ng.Pkicmp.Algorithms.{oid_eq}
use go_pkicmp_ng.Pkicmp.Message.{Content, rr, RevDetails}
use go_pkicmp_ng.Server.Config.{Env, HandlerError, RevocationRequest}
use go_pkicmp_ng.Server.Crmf.{reject}

-- `equalRDNSequences`
unfoldable pub equal_rdns : List (Oid × Opaque) → List (Oid × Opaque) → Bool
equal_rdns [] [] = true
equal_rdns ((t, v) ∷ xs) ((u, w) ∷ ys) = oid_eq t u && ((v == w) && equal_rdns xs ys)
equal_rdns _ _ = false

unfoldable pub equal_rdn_sequences : RdnSequence → RdnSequence → Bool
unfolding equal_rdns
equal_rdn_sequences [] [] = true
equal_rdn_sequences (x ∷ xs) (y ∷ ys) = equal_rdns x y && equal_rdn_sequences xs ys
equal_rdn_sequences _ _ = false

-- `Valid` of a CRLReason: 7 is not assigned.
unfoldable pub valid_reason : ℤ → Bool
valid_reason r = not (ltb_ℤ r (pos 0)) && (not (ltb_ℤ (pos 10) r) && not (eqb_ℤ r (pos 7)))

-- The reason code that the extensions give, if any so far.
abbrev Reason : Type 0
Reason = Option ℤ

abbrev single_details : List RevDetails → Result HandlerError RevDetails
single_details [] = reject fail_bad_data_format (text "empty RevReqContent")
single_details (d ∷ []) = ok d
single_details (d ∷ _ ∷ _) = reject fail_bad_request (text "multiple RevDetails not supported")

abbrev rr_content : Content → Result HandlerError (List RevDetails)
rr_content (rr (some ds)) = ok ds
rr_content _ = reject fail_bad_data_format (text "malformed revocation request")

abbrev or_reject : {A : Type 0} → Option A → Result HandlerError A → Result HandlerError A
or_reject none e = e
or_reject (some a) e = ok a

abbrev reason_or_zero : Reason → ℤ
reason_or_zero none = pos 0
reason_or_zero (some r) = r

abbrev is_given : Reason → Bool
is_given none = false
is_given (some _) = true

module _ (env : Env) where
  -- A value that `asn1.Unmarshal` decodes with nothing left.
  abbrev exact : {A : Type 0} → Option (A × Bytes) → Option A
  exact (some (a, [])) = some a
  exact _ = none

  -- `samePublicKey`
  unfoldable pub same_public_key : Bytes → Option Opaque → Bool
  same_public_key spki key = elim (env.parse_public_key spki) [
    | none ↦ false
    | some parsed ↦ env.keys_equal parsed key
  ]

  -- `certificatePublicKey`
  unfoldable pub certificate_public_key : Certificate → Option Opaque
  certificate_public_key cert = elim cert.public_key [
    | some key ↦ some key
    | none ↦ env.parse_public_key cert.raw_subject_public_key_info
  ]

  abbrev both_equal : Option RdnSequence → Option RdnSequence → Bool
  both_equal (some a) (some b) = equal_rdn_sequences a b
  both_equal _ _ = false

  -- `equalNames`
  unfoldable pub equal_names : Bytes → Bytes → Bool
  unfolding equal_rdn_sequences
  equal_names a b =
      bytes_eq a b || both_equal (exact (env.unmarshal_name a)) (exact (env.unmarshal_name b))

  abbrev serial_is : ℤ → Option ℤ → Bool
  serial_is n none = false
  serial_is n (some m) = eqb_ℤ n m

  -- `identifies`
  unfoldable pub identifies : RevocationRequest → Certificate → Bool
  unfolding equal_names
  identifies r cert =
      serial_is r.serial_number cert.serial_number && equal_names r.raw_issuer cert.raw_issuer

  abbrev subject_matches : RdnSequence → Bytes → Bool
  subject_matches subject raw =
      is_empty subject || both_equal (some subject) (exact (env.unmarshal_name raw))

  abbrev key_matches : Bytes → Certificate → Bool
  key_matches spki cert =
      is_empty spki
      || (bytes_eq spki cert.raw_subject_public_key_info
          || same_public_key spki (certificate_public_key cert))

  -- `Match` of a certificate.
  unfoldable pub match_certificate : RevocationRequest → Certificate → Result HandlerError Unit
  unfolding identifies equal_rdn_sequences same_public_key certificate_public_key
  match_certificate r cert =
      if not (identifies r cert)
      then reject fail_bad_cert_id (text "certificate not found")
      else if not (subject_matches r.subject cert.raw_subject)
      then reject fail_bad_cert_id (text "subject does not match the certificate")
      else if not (key_matches r.public_key cert)
      then reject fail_bad_cert_id (text "public key does not match the certificate")
      else ok tt

  abbrev decoded_reason : Bytes → Result HandlerError ℤ
  decoded_reason der = elim (exact (env.unmarshal_enumerated der)) [
    | none ↦ reject fail_bad_data_format (text "invalid reasonCode")
    | some r ↦
        if valid_reason r then ok r else reject fail_bad_data_format (text "invalid reasonCode")
  ]

  -- One extension of the loop over `req.Extensions`.
  abbrev next_reason : Extension → Reason → Result HandlerError Reason
  next_reason x found =
      if not (oid_eq x.id (2 ∷ 5 ∷ 29 ∷ 21 ∷ []))
      then ok found
      else if is_given found
      then reject fail_bad_request (text "more than one reasonCode")
      else decoded_reason x.value >>= (λ r. ok (some r))

  -- The loop, given the reason found so far.
  unfoldable pub reason_code : List Extension → Reason → Result HandlerError Reason
  unfolding valid_reason
  reason_code [] found = ok found
  reason_code (x ∷ xs) found = next_reason x found >>= (λ found'. reason_code xs found')

  abbrev parsed_issuer : Bytes → Result HandlerError RdnSequence
  parsed_issuer der =
      if is_empty der
      then reject fail_add_info_not_available (text "issuer required")
      else elim (exact (env.unmarshal_name der)) [
        | none ↦ reject fail_bad_data_format (text "malformed issuer")
        | some [] ↦ reject fail_add_info_not_available (text "issuer required")
        | some (n ∷ ns) ↦ ok (n ∷ ns)
      ]

  abbrev parse_details : RevDetails → Result HandlerError RevocationRequest
  parse_details d =
      or_reject d.cert_details.serial_number
        (reject fail_add_info_not_available (text "serialNumber required"))
      >>= (λ serial. parsed_issuer d.cert_details.issuer >>= (λ issuer.
          or_reject d.crl_entry_extensions
            (reject fail_bad_data_format (text "malformed crlEntryDetails"))
          >>= (λ exts. reason_code exts none >>= (λ reason. ok (record {
            issuer = issuer;
            raw_issuer = d.cert_details.issuer;
            serial_number = serial;
            reason = reason_or_zero reason;
            extensions = exts;
            subject = d.cert_details.subject;
            public_key = d.cert_details.public_key;
            has_reason = is_given reason;
          })))))

  -- `parseRevocationRequest`
  unfoldable pub parse_revocation_request : Content → Result HandlerError RevocationRequest
  unfolding reason_code
  parse_revocation_request body = rr_content body >>= single_details >>= parse_details
