-- ===== src/Server/Process/Nested.antt =====
-- A message that is refused changes nothing.
use go_pkicmp_ng.Prelude.{
  ◌≡◌, refl, ◌⊎◌, inl, inr, Option, none, some, List, [], ◌∷◌, bytes_eq, bytes_eq_sound, arith,
  Option-cases, Bool-cases, subst,
}
use go_pkicmp_ng.Prelude.Result.{Result, ok, ok_or_err}
use go_pkicmp_ng.Pkicmp.Message.{Request, PkiHeader, Incoming, plain, nested, nested_again}
use go_pkicmp_ng.Server.Config.{Env, Config, SenderIdentity, Handler, HandlerError}
use go_pkicmp_ng.Server.Protection.{Access}
use go_pkicmp_ng.Server.State.{State, Inputs}
use go_pkicmp_ng.Server.Process.{authenticate, forwarded_request, handle_nested, process_message}
use go_pkicmp_ng.Server.Process.Gates.{IsAdmitted, authenticate-IsAdmitted}

-- A nested message that carries one request, as its own header says.
pub Wraps : PkiHeader → Option (List Request) → Request → Type 0
Wraps h inner req =
    (inner ≡ some (req ∷ []))
    × (h.transaction_id ≡ req.header.transaction_id)
    × (h.sender_nonce ≡ req.header.sender_nonce)

single-Wraps :
    (env : Env) (cfg : Config) (access : Access) (handle : Handler) (h : PkiHeader)
    (r req : Request)
    → forwarded_request env cfg access handle h (some (r ∷ [])) ≡ ok req
    → Wraps h (some (r ∷ [])) req
unfolding forwarded_request Wraps
single-Wraps env cfg access handle h r req e =
    elim (Bool-cases (bytes_eq h.transaction_id r.header.transaction_id)) [
      | inl same_txn ↦ elim (Bool-cases (bytes_eq h.sender_nonce r.header.sender_nonce)) [
        | inl same_nonce ↦
            let it : r ≡ req = ground arith in
            let txn = bytes_eq_sound h.transaction_id r.header.transaction_id same_txn in
            let nonce = bytes_eq_sound h.sender_nonce r.header.sender_nonce same_nonce in
            subst (λ (q : Request). Wraps h (some (r ∷ [])) q) it (refl, txn, nonce)
        | inr other ↦ ground arith
      ]
      | inr other ↦ ground arith
    ]

forwarded_request-Wraps :
    (env : Env) (cfg : Config) (access : Access) (handle : Handler) (h : PkiHeader)
    (inner : Option (List Request)) (req : Request)
    → forwarded_request env cfg access handle h inner ≡ ok req
    → Wraps h inner req
unfolding forwarded_request
forwarded_request-Wraps env cfg access handle h none req e = ground arith
forwarded_request-Wraps env cfg access handle h (some []) req e = ground arith
forwarded_request-Wraps env cfg access handle h (some (r ∷ [])) req e =
    single-Wraps env cfg access handle h r req e
forwarded_request-Wraps env cfg access handle h (some (r ∷ s ∷ rs)) req e = ground arith

-- The consent of the authorizer to a request that a registration authority forwards.
pub record IsForwarded (env : Env) (cfg : Config) (access : Access) (outer : Request)
    (inner : Option (List Request)) (ra : SenderIdentity) (req : Request) (sender : SenderIdentity)
    : Type 0 where
  pub carrier : IsAdmitted env cfg access outer ra
  pub wraps : Wraps outer.header inner req
  pub request : IsAdmitted env cfg access req sender
  pub authorize : SenderIdentity → Request → SenderIdentity → Result HandlerError Unit
  pub has_authorizer : access.ra_authorizer ≡ some authorize
  pub consent : authorize ra req (record sender { ra = some (ra.identity) }) ≡ ok tt

-- What a message that changes the server has shown.
pub Reached : Env → Config → Access → Incoming → Type 0
Reached env cfg access (plain req) =
    (sender : SenderIdentity) × IsAdmitted env cfg access req sender
Reached env cfg access (nested outer inner) =
    (ra : SenderIdentity) × (req : Request) × (sender : SenderIdentity) × IsForwarded env cfg access
      (record outer { content = nested_again }) inner ra req sender

handle_nested-outcome :
    (env : Env) (cfg : Config) (access : Access) (handle : Handler) (inp : Inputs) (outer : Request)
    (ra : SenderIdentity) (inner : Option (List Request)) (st : State)
    → IsAdmitted env cfg access outer ra
    → ((handle_nested env cfg access handle inp outer ra inner st).1 ≡ st)
      ⊎ ((req : Request) × (sender : SenderIdentity) × IsForwarded env cfg access outer inner ra req
            sender)
unfolding handle_nested
handle_nested-outcome env cfg access handle inp outer ra inner st carrier =
    elim (Option-cases access.ra_authorizer) [
      | inl nobody ↦ inl (ground arith)
      | inr (authorize, has) ↦
          elim (ok_or_err (forwarded_request env cfg access handle outer.header inner)) [
            | inr (si, refused) ↦ inl (ground arith)
            | inl (req, one) ↦ elim (ok_or_err (authenticate env cfg access handle req)) [
              | inr (r, refused) ↦ inl (ground arith)
              | inl (sender, known) ↦
                  elim (ok_or_err (authorize ra req (record sender { ra = some (ra.identity) }))) [
                    | inr (e, denied) ↦ inl (ground arith)
                    | inl (_, granted) ↦ inr (
                      req,
                      sender,
                      record {
                        carrier = carrier;
                        wraps =
                            forwarded_request-Wraps env cfg access handle outer.header inner req
                              one;
                        request = authenticate-IsAdmitted env cfg access handle req sender known;
                        authorize = authorize;
                        has_authorizer = has;
                        consent = granted;
                      },
                    )
                  ]
            ]
          ]
    ]

-- A message leaves the server as it was, or has shown that its protection verified under what the
-- lookups give for its sender, and, when a registration authority forwards it, that the message of the
-- authority did as well, that it names the same transaction and nonce, and that the authorizer agreed.
pub process_message-Reached :
    (env : Env) (cfg : Config) (access : Access) (handle : Handler) (inp : Inputs) (msg : Incoming)
    (st : State)
    → ((process_message env cfg access handle inp msg st).1 ≡ st) ⊎ Reached env cfg access msg
unfolding process_message Reached
process_message-Reached env cfg access handle inp (plain req) st =
    elim (ok_or_err (authenticate env cfg access handle req)) [
      | inr (r, refused) ↦ inl (ground arith)
      | inl (sender, known) ↦
          inr (sender, authenticate-IsAdmitted env cfg access handle req sender known)
    ]
process_message-Reached env cfg access handle inp (nested outer inner) st =
    let msg : Request = record outer { content = nested_again } in
    elim (ok_or_err (authenticate env cfg access handle msg)) [
      | inr (r, refused) ↦ inl (ground arith)
      | inl (ra, known) ↦
          elim (handle_nested-outcome env cfg access handle inp msg ra inner st
            (authenticate-IsAdmitted env cfg access handle msg ra known)) [
              | inl unchanged ↦ inl (ground arith)
              | inr (req, sender, forwarded) ↦ inr (ra, req, sender, forwarded)
            ]
    ]
