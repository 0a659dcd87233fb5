-- ===== src/Auth/Registry.antt =====
-- controlplane/src/auth/: how the key caches are made at startup, in jwks_cache.rs and registry.rs.
use open_api_gateway.Prelude.{
  ℕ, String, ◌==◌, eq_iff, false, some, List, [], ◌∷◌, All, map, find, ◌≡◌, ◌≢◌, refl, sym, ap, ◌∙◌,
  subst, Bool-cases, inl, inr, if◌then◌else◌,
}
use text.Mathlib.TextPositions.{eq_refl}
use open_api_gateway.Prelude.Result.{Result, ok, err, ◌>>=◌, bind_ok, ok_inj}
use open_api_gateway.Config.Types.{AuthProvider, AuthConfig}
use open_api_gateway.Config.Validity.{IsUnique}
use open_api_gateway.Auth.Error.{AuthError}
use open_api_gateway.Auth.Types.{Jwt, JwksKey, JwksDocument}
use open_api_gateway.Auth.Cache.{
  JwksCache, fetch_error, store, parse_jwks_keys, fetch_and_store, get,
}
use open_api_gateway.Auth.Validator.{map_err}

-- The time at which a provider has answered the request for its keys, and its answer.
pub record Fetched : Type 0 where
  pub at : ℕ
  pub reply : Result String JwksDocument

module _ (j : Jwt) where
  -- The cache before its first fetch.
  unfoldable pub empty_cache : ℕ → AuthProvider → JwksCache j
  empty_cache now provider = record { provider = provider; keys = []; fetched_at = now }

  -- `JwksCache::new`
  unfoldable pub new_cache : Fetched → AuthProvider → Result AuthError (JwksCache j)
  unfolding fetch_and_store empty_cache
  new_cache fetched provider =
      let (cache, stored) =
        fetch_and_store j fetched.at fetched.reply (empty_cache fetched.at provider) in
      stored >>= λ _. ok cache

  -- `caches.insert(provider.name.clone(), cache)`
  unfoldable pub insert : JwksCache j → List (JwksCache j) → List (JwksCache j)
  insert cache [] = cache ∷ []
  insert cache (c ∷ caches) =
      let later = insert cache caches in
      if c.provider.name == cache.provider.name then cache ∷ caches else c ∷ later

  unfoldable pub insert_all :
      (AuthProvider → Fetched)
      → List AuthProvider
      → List (JwksCache j)
      → Result AuthError (List (JwksCache j))
  unfolding new_cache insert
  insert_all fetch [] caches = ok caches
  insert_all fetch (provider ∷ providers) caches = new_cache (fetch provider) provider >>= λ cache.
      insert_all fetch providers (insert cache caches)

  -- `JwksCacheRegistry::from_config`
  unfoldable pub registry_from_config :
      (AuthProvider → Fetched) → AuthConfig → Result AuthError (List (JwksCache j))
  unfolding insert_all
  registry_from_config fetch auth = insert_all fetch auth.providers []

  -- One round of the loop of `spawn_refresh_loop`, which only warns of an error.
  unfoldable pub refresh_round : Fetched → JwksCache j → JwksCache j
  unfolding fetch_and_store
  refresh_round fetched cache = (fetch_and_store j fetched.at fetched.reply cache).0

-- A cache that has the keys of the document that was fetched for its provider.
pub record IsFetched {j : Jwt} (fetched : Fetched) (provider : AuthProvider) (cache : JwksCache j)
    : Type 0 where
  pub owner : cache.provider ≡ provider
  pub time : cache.fetched_at ≡ fetched.at
  pub document :
      (doc : JwksDocument) × (fetched.reply ≡ ok doc) × (parse_jwks_keys j doc ≡ ok cache.keys)

==-other : (x y : String) → x ≢ y → (x == y) ≡ false
==-other x y ne = elim (Bool-cases (x == y)) [
  | inl same ↦ absurd (ne ((eq_iff x y).0 same))
  | inr other ↦ other
]

module _ {j : Jwt} where
  store-ok :
      (now : ℕ) (keys : Result AuthError (List (JwksKey j))) (old cache : JwksCache j)
      → (let (next, stored) = store j now keys old in
          ◌≡◌ {A = Result AuthError (JwksCache j)} (stored >>= λ _. ok next) (ok cache))
      → (cache.provider ≡ old.provider) × (cache.fetched_at ≡ now) × (keys ≡ ok cache.keys)
  unfolding store
  store-ok now (ok keys) old cache h =
      let e = ok_inj {E = AuthError} _ cache h in
      (sym (ap (λ c. c.provider) e), sym (ap (λ c. c.fetched_at) e), ap ok (ap (λ c. c.keys) e))
  store-ok now (err e) old cache h = absurd (cc)

  new_cache-IsFetched :
      (fetched : Fetched) (provider : AuthProvider) (cache : JwksCache j)
      → new_cache j fetched provider ≡ ok cache
      → IsFetched fetched provider cache
  unfolding new_cache fetch_and_store empty_cache
  new_cache-IsFetched fetched provider cache h =
      let (owner, time, keys) = store-ok fetched.at _ (empty_cache j fetched.at provider) cache h in
      let (doc, read, parsed) = bind_ok (map_err fetch_error fetched.reply) _ cache.keys keys in
      record {
        owner = owner;
        time = time;
        document = (doc, map_err-ok fetched.reply doc read, parsed);
      }
    where
      map_err-ok :
          (r : Result String JwksDocument) (doc : JwksDocument)
          → map_err fetch_error r ≡ ok doc
          → r ≡ ok doc
      map_err-ok (ok d) doc e = ap ok (ok_inj {E = AuthError} d doc e)
      map_err-ok (err d) doc e = absurd (cc)

  get-insert :
      (cache : JwksCache j) (caches : List (JwksCache j))
      → get j cache.provider.name (insert j cache caches) ≡ some cache
  unfolding get insert
  get-insert cache [] = rw (eq_refl cache.provider.name) refl
  get-insert cache (c ∷ caches) = elim (Bool-cases (c.provider.name == cache.provider.name)) [
    | inl same ↦ rw (same, eq_refl cache.provider.name) refl
    | inr other ↦ rw (other, find, other) (get-insert cache caches)
  ]

  get-insert_other :
      (name : String) (cache : JwksCache j) (caches : List (JwksCache j))
      → (cache.provider.name == name) ≡ false
      → get j name (insert j cache caches) ≡ get j name caches
  unfolding get insert
  get-insert_other name cache [] ne = rw ne refl
  get-insert_other name cache (c ∷ caches) ne =
      elim (Bool-cases (c.provider.name == cache.provider.name)) [
        | inl same ↦
            let e = (eq_iff c.provider.name cache.provider.name).0 same in
            rw (same, find, ne, e, ne) refl
        | inr other ↦ elim (Bool-cases (c.provider.name == name)) [
          | inl here ↦ rw (other, find, here) refl
          | inr there ↦ rw (other, find, there) (get-insert_other name cache caches ne)
        ]
      ]

  insert_all-kept :
      (fetch : AuthProvider → Fetched) (providers : List AuthProvider)
      (caches all : List (JwksCache j)) (name : String)
      → All (λ other. name ≢ other) (map (λ a. a.name) providers)
      → insert_all j fetch providers caches ≡ ok all
      → get j name all ≡ get j name caches
  unfolding insert_all
  insert_all-kept fetch [] caches all name _ h =
      ap (get j name) (sym (ok_inj {E = AuthError} caches all h))
  insert_all-kept fetch (provider ∷ providers) caches all name (ne, nes) h =
      let (cache, made, rest) = bind_ok (new_cache j (fetch provider) provider) _ all h in
      let owner = (new_cache-IsFetched (fetch provider) provider cache made).owner in
      insert_all-kept fetch providers (insert j cache caches) all name nes rest
      ∙ get-insert_other name cache caches
          (==-other cache.provider.name name (λ e. ne (sym e ∙ ap (λ a. a.name) owner)))

  -- The registry has the cache for the provider, with the keys that were fetched for it.
  abbrev pub HasCache : (AuthProvider → Fetched) → List (JwksCache j) → AuthProvider → Type 0
  HasCache fetch caches provider =
      (cache : JwksCache j) × (get j provider.name caches ≡ some cache)
      × IsFetched (fetch provider) provider cache

  insert_all-HasCache :
      (fetch : AuthProvider → Fetched) (providers : List AuthProvider)
      (caches all : List (JwksCache j))
      → IsUnique (map (λ a. a.name) providers)
      → insert_all j fetch providers caches ≡ ok all
      → All (HasCache fetch all) providers
  unfolding insert_all
  insert_all-HasCache fetch [] caches all _ h = tt
  insert_all-HasCache fetch (provider ∷ providers) caches all (new, unique) h =
      let (cache, made, rest) = bind_ok (new_cache j (fetch provider) provider) _ all h in
      let fetched = new_cache-IsFetched (fetch provider) provider cache made in
      let kept =
        insert_all-kept fetch providers (insert j cache caches) all provider.name new rest in
      let there =
        subst (λ a. get j a.name (insert j cache caches) ≡ some cache) fetched.owner
          (get-insert cache caches) in
      (
        (cache, kept ∙ there, fetched),
        insert_all-HasCache fetch providers (insert j cache caches) all unique rest,
      )

  -- A registry that is made from providers with distinct names has the cache of each of them, with
  -- the keys of the document that it answered.
  pub registry_from_config-HasCache :
      (fetch : AuthProvider → Fetched) (auth : AuthConfig) (all : List (JwksCache j))
      → IsUnique (map (λ a. a.name) auth.providers)
      → registry_from_config j fetch auth ≡ ok all
      → All (HasCache fetch all) auth.providers
  unfolding registry_from_config
  registry_from_config-HasCache fetch auth all unique h =
      insert_all-HasCache fetch auth.providers [] all unique h
