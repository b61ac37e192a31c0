-- ===== src/Server/Ca/Safety.antt =====
-- What reaches the CA: only requests with a proof of possession, and only revocations that the holder
-- or the CA's authorizer has asked for.
use go_pkicmp_ng.Prelude.{
  ℕ, ◌≡◌, refl, ◌⊎◌, inl, inr, Bool, true, false, none, some, [], ◌∷◌, cons_ne, arith, Option-cases,
}
use go_pkicmp_ng.Prelude.Result.{ok, err}
use go_pkicmp_ng.Pkicmp.Types.{SigAlg, Opaque}
use go_pkicmp_ng.Pkicmp.Algorithms.{signature_algorithm}
use go_pkicmp_ng.Pkicmp.Message.{
  Request, Content, ir, cr, kur, p10cr, CertReqMsg, Popo, PopoSignature, Csr,
}
use go_pkicmp_ng.Pkicmp.Pop.{
  KeyLibrary, verify_pop, verify_signature_pop, composite_signature_algorithm,
}
use go_pkicmp_ng.Server.Entry.{RequestType}
use go_pkicmp_ng.Server.Config.{
  Env, csr_valid, SenderIdentity, HandlerContext, HandlerError, Template, Log, issue_certificate,
}
use go_pkicmp_ng.Server.Crmf.{
  parse_crmf_msg, crmf_messages, crmf_proof, enforce_proof_of_possession, verify_pop_msg,
}
use go_pkicmp_ng.Server.Ca.{
  ca_cert_conf, ca_poll_req, authorize_request, Ca, build_template, ca_handler, ca_revocation,
}

-- A signature over the request by the key, under a composite algorithm that is the key's or under an
-- algorithm that the configuration allows.
pub IsSigned : KeyLibrary → CertReqMsg → PopoSignature → Opaque → Bool → Type 0
IsSigned lib m s key allow_sha1 =
    ((a : ℕ) × (lib.composite_from_oid s.algorithm.algorithm ≡ some a)
      × (lib.composite_of_key key ≡ some a)
      × (lib.composite_verify key m.cert_req_raw s.signature ≡ true))
    ⊎ ((a : SigAlg) × (signature_algorithm s.algorithm allow_sha1 ≡ ok a)
        × (lib.check_signature key a m.cert_req_raw s.signature ≡ true))

-- The proof of possession of a CRMF request: a signature by the key of the template.
pub record IsProven (lib : KeyLibrary) (m : CertReqMsg) (allow_sha1 : Bool) : Type 0 where
  pub popo : Popo
  pub signature : PopoSignature
  pub key : Opaque
  pub has_popo : m.popo ≡ some popo
  pub not_ra : popo.ra_verified ≡ false
  pub has_signature : popo.signature ≡ some signature
  pub has_key : lib.parse_public_key m.cert_template.public_key ≡ some key
  pub signed : IsSigned lib m signature key allow_sha1

verify_signature_pop-IsSigned :
    (lib : KeyLibrary) (m : CertReqMsg) (s : PopoSignature) (allow_sha1 : Bool)
    → verify_signature_pop lib m s allow_sha1 ≡ ok tt
    → (key : Opaque) × (lib.parse_public_key m.cert_template.public_key ≡ some key)
      × IsSigned lib m s key allow_sha1
unfolding verify_signature_pop composite_signature_algorithm IsSigned
verify_signature_pop-IsSigned lib m s allow_sha1 h = ground arith

pub verify_pop-IsProven :
    (lib : KeyLibrary) (m : CertReqMsg) (p : Popo) (s : PopoSignature) (allow_sha1 : Bool)
    → m.popo ≡ some p
    → p.signature ≡ some s
    → verify_pop lib m allow_sha1 ≡ ok tt
    → IsProven lib m allow_sha1
unfolding verify_pop
verify_pop-IsProven lib m p s allow_sha1 has_p has_s h =
    let not_ra : p.ra_verified ≡ false = ground arith in
    let (key, has_key, signed) = verify_signature_pop-IsSigned lib m s allow_sha1 (ground arith) in
    record {
      popo = p;
      signature = s;
      key = key;
      has_popo = has_p;
      not_ra = not_ra;
      has_signature = has_s;
      has_key = has_key;
      signed = signed;
    }

-- The body is a CRMF request with this single message.
pub IsSingle : Content → CertReqMsg → Type 0
IsSingle body m =
    (body ≡ ir (some (m ∷ []))) ⊎ ((body ≡ cr (some (m ∷ []))) ⊎ (body ≡ kur (some (m ∷ []))))

-- What a body must show before a certificate is asked for it.
pub HasProof : Env → Content → Bool → Type 0
HasProof env body allow_sha1 =
    ((csr : Csr) × (body ≡ p10cr (some csr)) × (env.check_csr_signature csr ≡ csr_valid))
    ⊎ ((m : CertReqMsg) × IsSingle body m × IsProven env.key_library m allow_sha1)

-- A parsed CRMF body holds one message.
parse_crmf_msg-IsSingle :
    (env : Env) (body : Content)
    → ((m : CertReqMsg) × (crmf_messages body ≡ ok (m ∷ [])) × IsSingle body m)
      ⊎ ((e : HandlerError) × (parse_crmf_msg env body ≡ err e))
unfolding parse_crmf_msg IsSingle
parse_crmf_msg-IsSingle env (ir none) = inr (_, refl)
parse_crmf_msg-IsSingle env (ir (some [])) = inr (_, refl)
parse_crmf_msg-IsSingle env (ir (some (m ∷ []))) = inl (m, refl, inl refl)
parse_crmf_msg-IsSingle env (ir (some (m ∷ n ∷ ms))) = inr (_, refl)
parse_crmf_msg-IsSingle env (cr none) = inr (_, refl)
parse_crmf_msg-IsSingle env (cr (some [])) = inr (_, refl)
parse_crmf_msg-IsSingle env (cr (some (m ∷ []))) = inl (m, refl, inr (inl refl))
parse_crmf_msg-IsSingle env (cr (some (m ∷ n ∷ ms))) = inr (_, refl)
parse_crmf_msg-IsSingle env (kur none) = inr (_, refl)
parse_crmf_msg-IsSingle env (kur (some [])) = inr (_, refl)
parse_crmf_msg-IsSingle env (kur (some (m ∷ []))) = inl (m, refl, inr (inr refl))
parse_crmf_msg-IsSingle env (kur (some (m ∷ n ∷ ms))) = inr (_, refl)
parse_crmf_msg-IsSingle env _ = inr (_, refl)

crmf_proof-IsProven :
    (env : Env) (body : Content) (m : CertReqMsg) (allow_sha1 : Bool)
    → crmf_messages body ≡ ok (m ∷ [])
    → crmf_proof env body allow_sha1 ≡ ok tt
    → IsProven env.key_library m allow_sha1
unfolding parse_crmf_msg verify_pop_msg
crmf_proof-IsProven env body m allow_sha1 e h = elim (Option-cases m.popo) [
  | inl no_popo ↦ ground arith
  | inr (p, has_p) ↦ elim (Option-cases p.signature) [
    | inl no_sig ↦ ground arith
    | inr (s, has_s) ↦
        verify_pop-IsProven env.key_library m p s allow_sha1 has_p has_s (ground arith)
  ]
]

crmf_template-HasProof :
    (env : Env) (ca : Ca) (body : Content) (allow_sha1 : Bool) (t : Template)
    → enforce_proof_of_possession env body allow_sha1 ≡ crmf_proof env body allow_sha1
    → build_template env ca body allow_sha1 ≡ ok t
    → HasProof env body allow_sha1
unfolding build_template HasProof
crmf_template-HasProof env ca body allow_sha1 t e h =
    let proof : crmf_proof env body allow_sha1 ≡ ok tt = ground arith in
    elim (parse_crmf_msg-IsSingle env body) [
      | inl (m, read, single) ↦
          inr (m, single, crmf_proof-IsProven env body m allow_sha1 read proof)
      | inr (e', refused) ↦ ground arith
    ]

-- No template is made for a body without a proof of possession.
pub build_template-HasProof :
    (env : Env) (ca : Ca) (body : Content) (allow_sha1 : Bool) (t : Template)
    → build_template env ca body allow_sha1 ≡ ok t
    → HasProof env body allow_sha1
unfolding build_template enforce_proof_of_possession parse_crmf_msg HasProof
build_template-HasProof env ca (ir ms) allow_sha1 t h =
    crmf_template-HasProof env ca (ir ms) allow_sha1 t refl h
build_template-HasProof env ca (cr ms) allow_sha1 t h =
    crmf_template-HasProof env ca (cr ms) allow_sha1 t refl h
build_template-HasProof env ca (kur ms) allow_sha1 t h =
    crmf_template-HasProof env ca (kur ms) allow_sha1 t refl h
build_template-HasProof env ca (p10cr none) allow_sha1 t h = ground arith
build_template-HasProof env ca (p10cr (some csr)) allow_sha1 t h = inl (csr, refl, ground arith)
build_template-HasProof env ca _ allow_sha1 t h = ground arith

-- The CA is asked only for what the template of the request says.
pub ca_handler-template :
    (env : Env) (ca : Ca) (ctx : HandlerContext) (req : Request) (sender s : SenderIdentity)
    (log : Log) (q : RequestType) (t : Template)
    → (ca_handler env ca ctx req sender log).1 ≡ issue_certificate q t s ∷ log
    → build_template env ca req.content ctx.allow_sha1_signatures ≡ ok t
unfolding ca_handler ca_cert_conf ca_poll_req ca_revocation authorize_request
ca_handler-template env ca ctx req sender s log q t h =
    ground (arith, cons_ne (issue_certificate q t s) log)
