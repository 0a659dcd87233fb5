-- ===== src/Auth/Validator/Complete.antt =====
-- Which tokens `validate_token` of controlplane/src/auth/validator.rs accepts, exactly.
use mathlib.Core.Logic.Or
use mathlib.Core.List.{mem-cons, not-mem-nil}
use open_api_gateway.Prelude.{
  String, ◌==◌, eq_iff, true, false, List, [], ◌∷◌, find, Mem, All, ◌≡◌, ◌≢◌, ◌↔◌, refl, sym, subst,
  ◌∙◌, ap, Bool-cases, inl, inr,
}
use open_api_gateway.Prelude.Result.{Result, ok, err, ◌>>=◌, IsOk, ok_of}
use open_api_gateway.Config.Types.{AuthProvider}
use open_api_gateway.Config.Validation.Laws.{contains_iff}
use open_api_gateway.Auth.Error.{AuthError}
use open_api_gateway.Auth.Types.{ValidatedIdentity, Jwt, JwksKey}
use open_api_gateway.Auth.Validator.{
  ok_or, check_scopes, decode_and_verify, identity_of, validate_token, extract_scopes,
}
use open_api_gateway.Auth.Validator.Sound.{IsAuthentic, validate_token-IsAuthentic}

check_scopes_granted :
    (token_scopes required : List String)
    → All (λ req. Mem req token_scopes) required
    → check_scopes token_scopes required ≡ ok tt
unfolding check_scopes
check_scopes_granted token_scopes [] h = refl
check_scopes_granted token_scopes (req ∷ required) (here, rest) =
    let found = (contains_iff token_scopes req).1 here in
    rw found (check_scopes_granted token_scopes required rest)

IsOk-prop {ℓ κ} : {E : Type ℓ} {A : Type κ} (r : Result E A) → IsProp (IsOk r)
IsOk-prop (ok a) x y = refl
IsOk-prop (err e) x y = absurd x

module _ {j : Jwt} where
  -- The keys have different names.
  abbrev pub HasDistinctKids : List (JwksKey j) → Type 0
  HasDistinctKids [] = Unit
  HasDistinctKids (key ∷ keys) = All (λ k. key.kid ≢ k.kid) keys × HasDistinctKids keys

  mem-other :
      (kid : String) (key : JwksKey j) (keys : List (JwksKey j))
      → All (λ k. kid ≢ k.kid) keys
      → Mem key keys
      → kid ≢ key.kid
  mem-other kid key [] h m = absurd (not-mem-nil m)
  mem-other kid key (k ∷ keys) (h, hs) m = λ e.
      Or.elim (λ x y. absurd x) (mem-cons.0 m) (λ same. h (e ∙ ap (λ x. x.kid) same))
        (λ later. mem-other kid key keys hs later e)

  -- With distinct names the key that is found is the one of the name.
  find-IsOk :
      {A : Type 0} (key : JwksKey j) (keys : List (JwksKey j)) (f : JwksKey j → Result AuthError A)
      → HasDistinctKids keys
      → Mem key keys
      → IsOk (f key)
      → IsOk (ok_or AuthError.unknown_key_id (find (λ k. k.kid == key.kid) keys) >>= f)
  find-IsOk key [] f u m h = absurd (not-mem-nil m)
  find-IsOk key (k ∷ keys) f (new, u) m h =
      Or.elim (IsOk-prop _) (mem-cons.0 m)
        (λ same.
          let hit : (k.kid == key.kid) ≡ true =
            (eq_iff k.kid key.kid).1 (sym (ap (λ x. x.kid) same)) in
          rw hit (subst (λ x. IsOk (f x)) same h))
        (λ later.
          let other : (k.kid == key.kid) ≡ false = elim (Bool-cases (k.kid == key.kid)) [
            | inl e ↦ absurd (mem-other k.kid key keys new later ((eq_iff k.kid key.kid).0 e))
            | inr e ↦ e
          ] in
          rw other (find-IsOk key keys f u later h))

  validate_token-accepts :
      (raw_token : String) (provider : AuthProvider) (keys : List (JwksKey j))
      (required : List String) (identity : ValidatedIdentity)
      → HasDistinctKids keys
      → IsAuthentic raw_token provider keys required identity
      → IsOk (validate_token j raw_token provider keys required)
  unfolding validate_token decode_and_verify
  validate_token-accepts raw_token provider keys required identity distinct a =
      let granted =
        check_scopes_granted (extract_scopes j a.claims) required
          (subst (λ s. All (λ req. Mem req s) required) a.scopes a.scopes_granted) in
      rw (validate_token, a.header_decodes, a.signed_rs256, a.names_key)
        (find-IsOk a.key keys _ distinct a.known_key
          (rw (a.verified, granted, identity_of, a.subject) tt))

  -- Where the keys have different names, validate_token accepts a token exactly when it is authentic
  -- for some identity: by the description that does not follow the order of the checks.
  pub validate_token_iff :
      (raw_token : String) (provider : AuthProvider) (keys : List (JwksKey j))
      (required : List String)
      → HasDistinctKids keys
      → IsOk (validate_token j raw_token provider keys required)
        ↔ ((identity : ValidatedIdentity) × IsAuthentic raw_token provider keys required identity)
  validate_token_iff raw_token provider keys required distinct = (accepted, accepts)
    where
      accepted :
          IsOk (validate_token j raw_token provider keys required)
          → (identity : ValidatedIdentity) × IsAuthentic raw_token provider keys required identity
      accepted h =
          let (identity, e) = ok_of (validate_token j raw_token provider keys required) h in
          (identity, validate_token-IsAuthentic raw_token provider keys required identity e)

      accepts :
          (identity : ValidatedIdentity) × IsAuthentic raw_token provider keys required identity
          → IsOk (validate_token j raw_token provider keys required)
      accepts (identity, a) =
          validate_token-accepts raw_token provider keys required identity distinct a
