-- ===== src/Auth/Validator/Sound.antt =====
-- When `validate_token` of controlplane/src/auth/validator.rs accepts a token.
use mathlib.Core.List.{mem-cons_self, mem-cons_of_mem}
use open_api_gateway.Prelude.{
  String, ◌==◌, eq_iff, Option, none, some, List, [], ◌∷◌, any, find, Mem, All, ◌≡◌, refl, sym,
  subst, ap, ◌∙◌, Bool-cases, inl, inr,
}
use open_api_gateway.Prelude.Result.{Result, ok, err, bind_ok, ok_inj}
use open_api_gateway.Config.Types.{AuthProvider}
use open_api_gateway.Config.Validation.Laws.{contains_iff}
use open_api_gateway.Auth.Error.{AuthError}
use open_api_gateway.Auth.Types.{
  ValidatedIdentity, Claims, Algorithm, rs256, other_algorithm, Header, Jwt, JwksKey,
}
use open_api_gateway.Auth.Validator.{
  ok_or, map_err, validation_of, check_algorithm, check_scopes, decode_and_verify, extract_scopes,
  identity_of, validate_token,
}

ok_or-ok {ℓ} : {A : Type ℓ} (e : AuthError) (o : Option A) (a : A) → ok_or e o ≡ ok a → o ≡ some a
ok_or-ok e none a h = absurd (cc)
ok_or-ok e (some b) a h = cc

map_err-ok {ℓ κ μ} :
    {E : Type ℓ} {F : Type κ} {A : Type μ} (f : E → F) (r : Result E A) (a : A)
    → map_err f r ≡ ok a
    → r ≡ ok a
map_err-ok f (ok b) a h = cc
map_err-ok f (err e) a h = absurd (cc)

check_algorithm-ok : (alg : Algorithm) → check_algorithm alg ≡ ok tt → alg ≡ rs256
check_algorithm-ok rs256 h = refl
check_algorithm-ok (other_algorithm _) h = absurd (cc)

check_scopes-ok :
    (token_scopes required : List String)
    → check_scopes token_scopes required ≡ ok tt
    → All (λ req. Mem req token_scopes) required
unfolding check_scopes
check_scopes-ok token_scopes [] h = tt
check_scopes-ok token_scopes (req ∷ required) h =
    elim (Bool-cases (any (λ s. s == req) token_scopes)) [
      | inl e ↦
          ((contains_iff token_scopes req).0 e, check_scopes-ok token_scopes required (rw e at h))
      | inr e ↦ absurd (let bad = rw e at h in cc)
    ]

identity_of-ok :
    (j : Jwt) (claims : Claims) (identity : ValidatedIdentity)
    → identity_of j claims ≡ ok identity
    → (claims.sub ≡ some identity.sub) × (identity.scopes ≡ extract_scopes j claims)
unfolding identity_of
identity_of-ok j claims identity h =
    let (sub, found, made) = bind_ok (ok_or AuthError.missing_subject claims.sub) _ identity h in
    let named = ok_or-ok AuthError.missing_subject claims.sub sub found in
    let same = ok_inj _ identity made in
    (
      named ∙ ap (λ (i : ValidatedIdentity). some i.sub) same,
      sym (ap (λ (i : ValidatedIdentity). i.scopes) same),
    )

module _ {j : Jwt} where
  find_kid :
      (kid : String) (keys : List (JwksKey j)) (key : JwksKey j)
      → find (λ k. k.kid == kid) keys ≡ some key
      → Mem key keys × (key.kid ≡ kid)
  find_kid kid [] key h = absurd (cc)
  find_kid kid (k ∷ keys) key h = elim (Bool-cases (k.kid == kid)) [
    | inl e ↦
        let found = rw e at h in
        let same : k ≡ key = cc in
        subst (λ x. Mem x (k ∷ keys) × (x.kid ≡ kid)) same (mem-cons_self, (eq_iff k.kid kid).0 e)
    | inr e ↦ let (m, same) = find_kid kid keys key (rw e at h) in (mem-cons_of_mem k m, same)
  ]

  -- A token that `decode` accepts for one of the keys, the one that the token's header names, with
  -- every required scope.
  pub record IsAuthentic (raw_token : String) (provider : AuthProvider) (keys : List (JwksKey j))
      (required : List String) (identity : ValidatedIdentity) : Type 0 where
    pub header : Header
    pub key : JwksKey j
    pub claims : Claims
    pub header_decodes : j.decode_header raw_token ≡ some header
    pub signed_rs256 : header.alg ≡ rs256
    pub names_key : header.kid ≡ some key.kid
    pub known_key : Mem key keys
    pub verified : j.decode raw_token key.decoding_key (validation_of provider) ≡ ok claims
    pub subject : claims.sub ≡ some identity.sub
    pub scopes : identity.scopes ≡ extract_scopes j claims
    pub scopes_granted : All (λ req. Mem req identity.scopes) required

  -- An identity is only given for a token whose header decodes, is signed with RS256 and names one of
  -- the keys, that `decode` accepts under that key and the provider's issuer and audience, that has a
  -- subject, the identity's, and that has every required scope.
  pub validate_token-IsAuthentic :
      (raw_token : String) (provider : AuthProvider) (keys : List (JwksKey j))
      (required : List String) (identity : ValidatedIdentity)
      → validate_token j raw_token provider keys required ≡ ok identity
      → IsAuthentic raw_token provider keys required identity
  unfolding validate_token
  validate_token-IsAuthentic raw_token provider keys required identity h =
      let (header, decoded, h1) =
        bind_ok (ok_or AuthError.invalid_token (j.decode_header raw_token)) _ identity h in
      let (_, rsa, h2) = bind_ok (check_algorithm header.alg) _ identity h1 in
      let (kid, named, h3) = bind_ok (ok_or AuthError.unknown_key_id header.kid) _ identity h2 in
      let (key, known, h4) =
        bind_ok (ok_or AuthError.unknown_key_id (find (λ k. k.kid == kid) keys)) _ identity h3 in
      let (claims, verifies, h5) =
        bind_ok (decode_and_verify j raw_token key.decoding_key provider) _ identity h4 in
      let (_, granted, h6) =
        bind_ok (check_scopes (extract_scopes j claims) required) _ identity h5 in
      let (member, same) = find_kid kid keys key (ok_or-ok _ _ key known) in
      let (subject, scopes) = identity_of-ok j claims identity h6 in
      record {
        header = header;
        key = key;
        claims = claims;
        header_decodes = ok_or-ok _ _ header decoded;
        signed_rs256 = check_algorithm-ok header.alg rsa;
        names_key = ok_or-ok _ _ kid named ∙ ap some (sym same);
        known_key = member;
        verified = map_err-ok _ _ claims verifies;
        subject = subject;
        scopes = scopes;
        scopes_granted =
            subst (λ s. All (λ req. Mem req s) required) (sym scopes)
              (check_scopes-ok (extract_scopes j claims) required granted);
      }
