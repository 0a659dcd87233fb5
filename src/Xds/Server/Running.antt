-- ===== src/Xds/Server/Running.antt =====
-- The rebuilds of overlapping reloads in controlplane/src/xds/server.rs. `rebuild_from_config` counts the
-- version and builds before it takes the lock of the snapshot, and broadcasts after it, so that the
-- parts of several rebuilds come in any order.
use open_api_gateway.Prelude.{ℕ, ◌+◌, ◌^◌, ◌≤◌, ◌<◌, List, [], ◌∷◌, All, ◌≡◌, ◌≢◌, sym}
use open_api_gateway.Prelude.Result.{Result, ok, err}
use open_api_gateway.Config.Types.{Platform, GatewayConfig}
use open_api_gateway.Xds.Snapshot.{XdsSnapshot}
use open_api_gateway.Xds.Resources.{ResourceError}
use open_api_gateway.Xds.Stream.{DiscoveryRequest}
use open_api_gateway.Xds.Builders.{Prost}
use open_api_gateway.Xds.Server.{
  Plane, Stream, begin_rebuild, install, push_snapshot, on_message, on_close,
}

-- One of the items is taken out.
pub data Pick {ℓ} {A : Type ℓ} (x : A) : List A → List A → Type ℓ where
  picked : {xs : List A} → Pick x (x ∷ xs) xs
  later : {y : A} {xs rest : List A} → Pick x xs rest → Pick x (y ∷ xs) (y ∷ rest)

-- No two items have the same number.
abbrev pub IsDistinct {ℓ} : {A : Type ℓ} → (A → ℕ) → List A → Type 0
IsDistinct number [] = Unit
IsDistinct number (x ∷ xs) = All (λ y. number x ≢ number y) xs × IsDistinct number xs

pub All-imp {ℓ κ μ} :
    {A : Type ℓ} {P : A → Type κ} {Q : A → Type μ} (xs : List A)
    → ((x : A) → P x → Q x)
    → All P xs
    → All Q xs
All-imp [] f h = tt
All-imp (x ∷ xs) f (h, hs) = (f x h, All-imp xs f hs)

pub All-pairs {ℓ κ μ} :
    {A : Type ℓ} (P : A → Type κ) (Q : A → Type μ) (xs : List A)
    → All P xs
    → All Q xs
    → All (λ x. P x × Q x) xs
All-pairs P Q [] p q = tt
All-pairs P Q (x ∷ xs) (p, ps) (q, qs) = ((p, q), All-pairs P Q xs ps qs)

pub Pick-All {ℓ κ} :
    {A : Type ℓ} (P : A → Type κ) {x : A} {xs rest : List A}
    → Pick x xs rest
    → All P xs
    → P x × All P rest
Pick-All P picked (h, hs) = (h, hs)
Pick-All P (later k) (h, hs) = let (x, rest) = Pick-All P k hs in (x, (h, rest))

pub Pick-IsDistinct {ℓ} :
    {A : Type ℓ} (number : A → ℕ) {x : A} {xs rest : List A}
    → Pick x xs rest
    → IsDistinct number xs
    → All (λ y. number x ≢ number y) rest × IsDistinct number rest
Pick-IsDistinct number picked (h, hs) = (h, hs)
Pick-IsDistinct number (later k) (h, hs) =
    let (others, rest) = Pick-IsDistinct number k hs in
    let (x, fine) = Pick-All _ k h in ((λ e. x (sym e), others), (fine, rest))

module _ (q : Prost) where
  -- The control plane with the snapshots of the rebuilds that have begun but are not yet installed,
  -- and the versions that have been in force, the latest first.
  pub record Running : Type 0 where
    pub plane : Plane q
    pub pending : List (XdsSnapshot q.Any)
    pub installed : List ℕ

  -- The control plane when nothing has been installed since.
  abbrev pub resting : Plane q → Running
  resting plane = record { plane = plane; pending = []; installed = plane.snapshot.version ∷ [] }

  -- A rebuild whose build has failed ends.
  abbrev pub built :
      Result ResourceError (XdsSnapshot q.Any) → List (XdsSnapshot q.Any) → List (XdsSnapshot q.Any)
  built (ok snapshot) pending = snapshot ∷ pending
  built (err e) pending = pending

  -- The steps of the rebuilds of several reloads, and of the streams, in any order, where the
  -- version counter does not wrap. A push may come at any time.
  pub data Step (s : Running) : Running → Type 1 where
    begin :
        {p : Platform} (config : GatewayConfig p)
        → s.plane.versions + 1 < 2 ^ 64
        → Step s (record s {
          plane = (begin_rebuild q s.plane config).0;
          pending = built (begin_rebuild q s.plane config).1 s.pending;
        })
    installing :
        (snapshot : XdsSnapshot q.Any) (rest : List (XdsSnapshot q.Any))
        → Pick snapshot s.pending rest
        → Step s (record {
          plane = install q snapshot s.plane;
          pending = rest;
          installed = snapshot.version ∷ s.installed;
        })
    pushing :
        (takes : ℕ → ℕ) (snapshot : XdsSnapshot q.Any)
        → Step s (record s { plane = (push_snapshot q takes snapshot s.plane).0 })
    message :
        (takes : ℕ → ℕ) (stream : Stream) (request : DiscoveryRequest)
        → Step s (record s { plane = (on_message q takes stream request s.plane).0 })
    close : (stream : Stream) → Step s (record s { plane = on_close q stream s.plane })

  pub data Reach (s : Running) : Running → Type 1 where
    here : Reach s s
    next : {t u : Running} → Reach s t → Step t u → Reach s u

  -- The snapshot is one of the versions counted so far.
  abbrev pub IsCounted : Plane q → Type 0
  IsCounted plane = plane.snapshot.version ≤ plane.versions

  -- The versions that have been in force are counted and distinct, and the latest is the snapshot's.
  pub record IsSound (s : Running) : Type 0 where
    pub latest : (rest : List ℕ) × (s.installed ≡ s.plane.snapshot.version ∷ rest)
    pub counted : All (λ v. v ≤ s.plane.versions) s.installed
    pub distinct : IsDistinct (λ v. v) s.installed
