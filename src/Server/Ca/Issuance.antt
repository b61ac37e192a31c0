-- ===== src/Server/Ca/Issuance.antt =====
-- What a CA behind the policy is asked to sign, and whom it revokes for.
use go_pkicmp_ng.Prelude.{
  ◌≡◌, ◌≢◌, ◌⊎◌, inl, inr, Bool, true, false, some, List, [], ◌∷◌, cons_ne, arith, Option-cases,
  Bool-cases, All, subst,
}
use go_pkicmp_ng.Prelude.Int.{pos, eqb_ℤ_iff}
use go_pkicmp_ng.Prelude.Result.{Result, ok, ok_or_err}
use go_pkicmp_ng.Pkicmp.Types.{Certificate, Extension}
use go_pkicmp_ng.Pkicmp.Algorithms.{oid_eq}
use go_pkicmp_ng.Pkicmp.Message.{Request, Content}
use go_pkicmp_ng.Server.Entry.{RequestType}
use go_pkicmp_ng.Server.Config.{
  Env, BasicConstraints, SenderIdentity, HandlerContext, HandlerError, Template, Log,
  issue_certificate, revoke_certificate, RevocationRequest,
}
use go_pkicmp_ng.Server.Crmf.{
  any_of, bad_path, decode_basic_constraints, check_basic_constraints, parse_crmf_msg,
  enforce_proof_of_possession,
}
use go_pkicmp_ng.Server.Revocation.{match_certificate, parse_revocation_request}
use go_pkicmp_ng.Server.Policy.{
  lightweight_policy, policy_rules, body_rules, validate_p10cr, validate_crmf,
}
use go_pkicmp_ng.Server.Ca.{
  Ca, build_template, ca_handler, ca_revocation, signed_by_named, authorize_request,
}
use go_pkicmp_ng.Server.Ca.Safety.{HasProof, ca_handler-template, build_template-HasProof}

-- A BasicConstraints extension decodes, is not that of a CA, and has no path length.
pub IsEndEntity : Env → Extension → Type 0
IsEndEntity env x =
    oid_eq x.id (2 ∷ 5 ∷ 29 ∷ 19 ∷ []) ≡ true
    → (bc : BasicConstraints) × (env.unmarshal_basic_constraints x.value ≡ some (bc, []))
      × (bc.is_ca ≡ false)
      × (bc.max_path_len ≡ pos 0)

end_entity :
    (env : Env) (x : Extension) (xs : List Extension) (rest bcs : List BasicConstraints)
    → decode_basic_constraints env xs ≡ ok rest
    → decode_basic_constraints env (x ∷ xs) ≡ ok bcs
    → oid_eq x.id (2 ∷ 5 ∷ 29 ∷ 19 ∷ []) ≡ true
    → any_of env (bad_path env) bcs ≡ false
    → any_of env (λ bc. bc.is_ca) bcs ≡ false
    → (bc : BasicConstraints) × (env.unmarshal_basic_constraints x.value ≡ some (bc, []))
      × (bc.is_ca ≡ false)
      × (bc.max_path_len ≡ pos 0)
unfolding decode_basic_constraints
end_entity env x xs rest bcs e h named p c =
    elim (Option-cases (env.unmarshal_basic_constraints x.value)) [
      | inl malformed ↦ ground arith
      | inr ((bc, y ∷ ys), trailing) ↦ ground arith
      | inr ((bc, []), found) ↦
          (bc, found, ground arith, ground (arith, (eqb_ℤ_iff bc.max_path_len (pos 0)).0))
    ]

decoded-IsEndEntity :
    (env : Env) (exts : List Extension) (bcs : List BasicConstraints)
    → decode_basic_constraints env exts ≡ ok bcs
    → any_of env (bad_path env) bcs ≡ false
    → any_of env (λ bc. bc.is_ca) bcs ≡ false
    → All (IsEndEntity env) exts
unfolding decode_basic_constraints IsEndEntity
decoded-IsEndEntity env [] bcs h p c = tt
decoded-IsEndEntity env (x ∷ xs) bcs h p c = elim (ok_or_err (decode_basic_constraints env xs)) [
  | inl (rest, e) ↦ (
    λ named. end_entity env x xs rest bcs e h named p c,
    decoded-IsEndEntity env xs rest e (ground arith) (ground arith),
  )
  | inr (e', f) ↦ ground arith
]

check_basic_constraints-IsEndEntity :
    (env : Env) (exts : List Extension)
    → check_basic_constraints env exts ≡ ok tt
    → All (IsEndEntity env) exts
unfolding check_basic_constraints
check_basic_constraints-IsEndEntity env exts h =
    elim (ok_or_err (decode_basic_constraints env exts)) [
      | inl (bcs, e) ↦ decoded-IsEndEntity env exts bcs e (ground arith) (ground arith)
      | inr (e', f) ↦ ground arith
    ]

-- The extensions of a template are those that the policy has checked.
template_extensions :
    (env : Env) (ca : Ca) (req : Request) (sender : SenderIdentity) (allow_sha1 : Bool)
    (t : Template)
    → build_template env ca req.content allow_sha1 ≡ ok t
    → policy_rules env req allow_sha1 sender ≡ ok tt
    → check_basic_constraints env t.extra_extensions ≡ ok tt
unfolding policy_rules body_rules validate_p10cr validate_crmf build_template parse_crmf_msg
    enforce_proof_of_possession
template_extensions env ca req sender allow_sha1 t h r = ground arith

-- When a CA behind the policy is asked to issue a certificate, the request proves possession of its
-- key, satisfies the policy, and asks for no CA certificate in any BasicConstraints extension.
pub lightweight_policy-template :
    (env : Env) (ca : Ca) (ctx : HandlerContext) (req : Request) (sender s : SenderIdentity)
    (log : Log) (q : RequestType) (t : Template)
    → (lightweight_policy env (ca_handler env ca) ctx req sender log).1
      ≡ issue_certificate q t s ∷ log
    → HasProof env req.content ctx.allow_sha1_signatures
      × All (IsEndEntity env) t.extra_extensions
      × (policy_rules env req ctx.allow_sha1_signatures sender ≡ ok tt)
unfolding lightweight_policy
lightweight_policy-template env ca ctx req sender s log q t h =
    let allowed : policy_rules env req ctx.allow_sha1_signatures sender ≡ ok tt =
      ground (arith, cons_ne (issue_certificate q t s) log) in
    let issued : (ca_handler env ca ctx req sender log).1 ≡ issue_certificate q t s ∷ log =
      ground arith in
    let made = ca_handler-template env ca ctx req sender s log q t issued in
    (
      build_template-HasProof env ca req.content ctx.allow_sha1_signatures t made,
      check_basic_constraints-IsEndEntity env t.extra_extensions
          (template_extensions env ca req sender ctx.allow_sha1_signatures t made allowed),
      allowed,
    )

-- The sender signed with the certificate that the request names, or the CA's authorizer accepted the
-- request.
pub MayRevoke : Env → Ca → RevocationRequest → SenderIdentity → Log → Type 0
MayRevoke env ca r sender log =
    ((cert : Certificate) × (sender.certificate ≡ some cert)
      × (match_certificate env r cert ≡ ok tt))
    ⊎ ((authorize : RevocationRequest → SenderIdentity → Log → Result HandlerError Unit)
        × (ca.revocation_authorizer ≡ some authorize)
        × (authorize r sender log ≡ ok tt))

authorize_request-MayRevoke :
    (env : Env) (ca : Ca) (r : RevocationRequest) (sender : SenderIdentity) (log : Log)
    → (authorize_request env ca r sender log).0 ≡ ok tt
    → MayRevoke env ca r sender log
unfolding authorize_request signed_by_named MayRevoke
authorize_request-MayRevoke env ca r sender log h = elim (Option-cases sender.certificate) [
  | inr (cert, signed) ↦ elim (Bool-cases (signed_by_named env ca r sender)) [
    | inl named ↦ inl (cert, signed, ground arith)
    | inr other ↦ elim (Option-cases ca.revocation_authorizer) [
      | inl nobody ↦ ground arith
      | inr (authorize, has) ↦ inr (authorize, has, ground arith)
    ]
  ]
  | inl unsigned ↦ elim (Option-cases ca.revocation_authorizer) [
    | inl nobody ↦ ground arith
    | inr (authorize, has) ↦ inr (authorize, has, ground arith)
  ]
]

-- When a call that revokes is added to the log, the request names that certificate, and the sender may
-- revoke it.
pub ca_revocation-MayRevoke :
    (env : Env) (ca : Ca) (body : Content) (sender s : SenderIdentity) (log before : Log)
    (r : RevocationRequest)
    → (ca_revocation env ca body sender log).1 ≡ revoke_certificate r s ∷ before
    → log ≢ revoke_certificate r s ∷ before
    → (parse_revocation_request env body ≡ ok r) × MayRevoke env ca r sender log
unfolding ca_revocation
ca_revocation-MayRevoke env ca body sender s log before r h fresh =
    elim (ok_or_err (parse_revocation_request env body)) [
      | inr (e, f) ↦ ground arith
      | inl (r', parsed) ↦ elim (ok_or_err (authorize_request env ca r' sender log).0) [
        | inr (e, refused) ↦ unfold authorize_request in ground arith
        | inl (_, allowed) ↦
            let same : r' ≡ r = ground arith in
            subst
              (λ (r : RevocationRequest).
                (parse_revocation_request env body ≡ ok r) × MayRevoke env ca r sender log)
              same (parsed, authorize_request-MayRevoke env ca r' sender log allowed)
      ]
    ]
