-- ===== src/Client/Http.antt =====
-- client/transport.go: what a client reads of an HTTP answer.
use go_pkicmp_ng.Prelude.{
  ℕ, zero, suc, ◌+◌, ◌/◌, ◌≤◌, ◌<◌, ◌^◌, ◌≡◌, refl, sym, ap, subst, ◌∙◌, inl, inr, ◌⊎◌, Bool, true,
  false, not, ◌&&◌, ◌||◌, [], ◌∷◌, Bytes, length, ◌==◌, is_empty, if◌then◌else◌, arith,
}
use go_pkicmp_ng.Prelude.Int.{ℤ, pos, negsuc, ltb_ℤ, pos_part}
use go_pkicmp_ng.Prelude.Result.{Result, ok, bind_ok, ok_injective, ◌>>◌}
use go_pkicmp_ng.Client.Config.{
  Client, HttpReply, ClientError, failed, http_status, response_too_large, content_type,
}
use go_pkicmp_ng.Client.Wait.{wrap_int64, wrap_int64-narrow}
use go_pkicmp_ng.Client.Response.{require}

-- `supportsCMPResponse`
unfoldable pub supports_cmp_response : ℕ → Bool
supports_cmp_response code = let class = code / 100 in class == 2 || class == 4 || class == 5

-- `io.LimitReader` over a body: its first bytes, and none where the limit is not positive.
abbrev pub take : ℕ → Bytes → Bytes
take zero bs = []
take (suc n) [] = []
take (suc n) (b ∷ bs) = b ∷ take n bs

abbrev pub limit_reader : ℤ → Bytes → Bytes
limit_reader (pos n) bs = take n bs
limit_reader (negsuc n) bs = []

-- The body that is read: one byte more than the limit as an int64, where there is a limit.
unfoldable pub read_body : ℤ → Bytes → Bytes
unfolding wrap_int64
read_body (pos zero) bs = bs
read_body (pos (suc n)) bs = limit_reader (wrap_int64 (suc n + 1)) bs
read_body (negsuc n) bs = bs

-- What `sendHTTP` makes of an answer.
unfoldable pub read_http : Client → HttpReply → Result ClientError Bytes
unfolding supports_cmp_response read_body
read_http c r =
    let body = read_body c.max_response_bytes r.body in
    require
      (not (ltb_ℤ (pos 0) c.max_response_bytes && ltb_ℤ c.max_response_bytes (pos (length body))))
      (failed response_too_large)
    >> require (supports_cmp_response r.status_code) (http_status r.status_code)
    >> require r.is_cmp
        (if r.status_code == 200 then failed content_type else http_status r.status_code)
    >> require (not (is_empty body && not (r.status_code == 200))) (http_status r.status_code)
    >> ok body

take-all : (n : ℕ) (bs : Bytes) → length (take (suc n) bs) ≤ n → take (suc n) bs ≡ bs
take-all n [] h = refl
take-all zero (b ∷ bs) h = ground (arith, h)
take-all (suc n) (b ∷ bs) h = ap (λ (x : Bytes). b ∷ x) (take-all n bs (omega (arith, h)))

-- A body within the limit is the whole one.
read_body-all :
    (limit : ℤ) (bs : Bytes)
    → pos_part limit + 1 < 2 ^ 63
    → not (ltb_ℤ (pos 0) limit && ltb_ℤ limit (pos (length (read_body limit bs)))) ≡ true
    → (read_body limit bs ≡ bs) × ((pos_part limit ≡ 0) ⊎ (length bs ≤ pos_part limit))
unfolding read_body
read_body-all (negsuc n) bs h small = (refl, inl refl)
read_body-all (pos zero) bs h small = (refl, inl refl)
read_body-all (pos (suc n)) bs h small =
    let more : suc n + 1 ≡ suc (suc n) = omega arith in
    let read : read_body (pos (suc n)) bs ≡ take (suc (suc n)) bs =
      ap (λ (i : ℤ). limit_reader i bs)
        (wrap_int64-narrow (suc n + 1) h ∙ ap (λ (k : ℕ). pos k) more) in
    let within : length (read_body (pos (suc n)) bs) ≤ suc n = ground arith in
    let all : take (suc (suc n)) bs ≡ bs =
      take-all (suc n) bs (subst (λ (x : Bytes). length x ≤ suc n) read within) in
    (read ∙ all, inr (subst (λ (x : Bytes). length x ≤ suc n) (read ∙ all) within))

require_lem : (b : Bool) (e : ClientError) (u : Unit) → require b e ≡ ok u → b ≡ true
require_lem true e u h = refl
require_lem false e u h = ground arith

-- A body that is read is the whole body of an answer that says it is CMP, with a status of success or of
-- an error, within the limit, and not empty unless the status is 200; the limit is below the largest int64.
pub read_http-all :
    (c : Client) (r : HttpReply) (body : Bytes)
    → pos_part c.max_response_bytes + 1 < 2 ^ 63
    → read_http c r ≡ ok body
    → (body ≡ r.body)
      × ((pos_part c.max_response_bytes ≡ 0) ⊎ (length body ≤ pos_part c.max_response_bytes))
      × (supports_cmp_response r.status_code ≡ true)
      × (r.is_cmp ≡ true)
      × (not (is_empty body && not (r.status_code == 200)) ≡ true)
unfolding read_http
read_http-all c r body narrow h =
    let whole = read_body c.max_response_bytes r.body in
    let sized =
      require
        (not
          (ltb_ℤ (pos 0) c.max_response_bytes && ltb_ℤ c.max_response_bytes (pos (length whole))))
        (failed response_too_large) in
    let class = require (supports_cmp_response r.status_code) (http_status r.status_code) in
    let media =
      require r.is_cmp
        (if r.status_code == 200 then failed content_type else http_status r.status_code) in
    let present =
      require (not (is_empty whole && not (r.status_code == 200))) (http_status r.status_code) in
    let (u, checks, h4) = bind_ok (sized >> class >> media >> present) _ body h in
    let (u3, checks3, filled) = bind_ok (sized >> class >> media) _ u checks in
    let (u2, checks2, cmp) = bind_ok (sized >> class) _ u3 checks3 in
    let (u1, small, supported) = bind_ok sized _ u2 checks2 in
    let (same, limited) =
      read_body-all c.max_response_bytes r.body narrow
        (require_lem _ (failed response_too_large) u1 small) in
    let given : whole ≡ body = ok_injective h4 in
    (
      sym given ∙ same,
      subst
          (λ (x : Bytes).
            (pos_part c.max_response_bytes ≡ 0) ⊎ (length x ≤ pos_part c.max_response_bytes))
          (sym same ∙ given) limited,
      require_lem _ (http_status r.status_code) u2 supported,
      require_lem r.is_cmp
          (if r.status_code == 200 then failed content_type else http_status r.status_code) u3 cmp,
      subst (λ (x : Bytes). not (is_empty x && not (r.status_code == 200)) ≡ true) given
          (require_lem _ (http_status r.status_code) u filled),
    )
