-- ===== src/Xds/Server/Versions.antt =====
-- The versions of the snapshots that a control plane serves, where its operations overlap.
use open_api_gateway.Prelude.{
  ℕ, ◌+◌, ◌%◌, ◌^◌, ◌≤◌, ◌<◌, ◌<>◌, List, [], ◌∷◌, All, ◌≡◌, ◌≢◌, ◌∙◌, refl, sym, subst, arith,
  Bool-cases, inl, inr, ap,
}
use open_api_gateway.Prelude.Result.{Result, ok, err, ok_of, bind_ok, ok_inj}
use open_api_gateway.Prelude.Text.{decimal, is_empty_text}
use open_api_gateway.Config.Types.{Platform, GatewayConfig}
use open_api_gateway.Xds.Snapshot.{XdsSnapshot, increment}
use open_api_gateway.Xds.Resources.{ResourceError}
use open_api_gateway.Xds.Stream.{DiscoveryRequest}
use open_api_gateway.Xds.Builders.{
  Prost, build, build_clusters, build_endpoints, build_listener, build_route_config,
}
use open_api_gateway.Config.Validity.{IsValid}
use open_api_gateway.Xds.Builders.Valid.{Encodes, build-IsOk}
use open_api_gateway.Xds.Server.{
  Plane, Stream, begin_rebuild, install, push_snapshot, register, connect, note_message, on_message,
  on_close,
}
use open_api_gateway.Xds.Server.Running.{
  Pick, picked, IsDistinct, All-imp, All-pairs, Pick-All, Pick-IsDistinct, Running, resting, built,
  Step, begin, installing, pushing, message, close, Reach, here, next, IsCounted, IsSound,
}

module _ (q : Prost) where
  -- A snapshot and its nonce are named by the version.
  abbrev pub IsNamed : ℕ → XdsSnapshot q.Any → Type 0
  IsNamed version snapshot =
      (snapshot.version ≡ version) × (snapshot.nonce ≡ "snapshot-" <> decimal version)

  pub build-IsNamed :
      {p : Platform} (config : GatewayConfig p) (version : ℕ) (snapshot : XdsSnapshot q.Any)
      → build q config version ≡ ok snapshot
      → IsNamed version snapshot
  unfolding build
  build-IsNamed config version snapshot h =
      let (clusters, _, h₁) = bind_ok (build_clusters q config) _ snapshot h in
      let (endpoints, _, h₂) = bind_ok (build_endpoints q config) _ snapshot h₁ in
      let (main, _, h₃) = bind_ok (build_listener q config) _ snapshot h₂ in
      let (routes, _, h₄) = bind_ok (build_route_config q config) _ snapshot h₃ in
      subst (IsNamed version) (ok_inj {E = ResourceError} _ snapshot h₄) (refl, refl)

  record Inv (s : Running q) : Type 0 where
    sound : IsSound q s
    waiting : All (λ x. x.version ≤ s.plane.versions) s.pending
    apart : IsDistinct (λ x. x.version) s.pending
    fresh : All (λ x. All (λ v. x.version ≢ v) s.installed) s.pending

  -- A step that leaves the snapshot and the counter.
  Inv-kept :
      (s : Running q) (plane : Plane q)
      → plane.snapshot ≡ s.plane.snapshot
      → plane.versions ≡ s.plane.versions
      → Inv s
      → Inv (record s { plane = plane })
  Inv-kept s plane same count h = record {
    sound = record {
      latest =
          (h.sound.latest.0, h.sound.latest.1 ∙ ap (λ x. x.version ∷ h.sound.latest.0) (sym same));
      counted = subst (λ n. All (λ v. v ≤ n) s.installed) (sym count) h.sound.counted;
      distinct = h.sound.distinct;
    };
    waiting = subst (λ n. All (λ x. x.version ≤ n) s.pending) (sym count) h.waiting;
    apart = h.apart;
    fresh = h.fresh;
  }

  begin-Inv :
      {p : Platform} (config : GatewayConfig p) (s : Running q)
      → s.plane.versions + 1 < 2 ^ 64
      → Inv s
      → Inv (record s {
        plane = (begin_rebuild q s.plane config).0;
        pending = built q (begin_rebuild q s.plane config).1 s.pending;
      })
  unfolding begin_rebuild increment
  begin-Inv config s small h = begun (build q config v) (build-IsNamed config v)
    where
      v : ℕ
      v = (s.plane.versions + 1) % 2 ^ 64

      counted : v ≡ s.plane.versions + 1
      counted = omega arith

      sound :
          (pending : List (XdsSnapshot q.Any))
          → IsSound q (record s { plane = record s.plane { versions = v }; pending = pending })
      sound pending = record {
        latest = h.sound.latest;
        counted = All-imp s.installed (λ x le. let k = counted in omega arith) h.sound.counted;
        distinct = h.sound.distinct;
      }

      begun :
          (r : Result ResourceError (XdsSnapshot q.Any))
          → ((x : XdsSnapshot q.Any) → r ≡ ok x → IsNamed v x)
          → Inv
              (record s { plane = record s.plane { versions = v }; pending = built q r s.pending })
      begun (err e) named = record {
        sound = sound s.pending;
        waiting = All-imp s.pending (λ x le. let k = counted in omega arith) h.waiting;
        apart = h.apart;
        fresh = h.fresh;
      }
      begun (ok x) named =
          let n : x.version ≡ s.plane.versions + 1 = (named x refl).0 ∙ counted in
          record {
            sound = sound (x ∷ s.pending);
            waiting = (
              let k = counted in omega arith,
              All-imp s.pending (λ y le. let k = counted in omega arith) h.waiting,
            );
            apart = (All-imp s.pending (λ y le e. omega arith) h.waiting, h.apart);
            fresh = (All-imp s.installed (λ y le e. omega arith) h.sound.counted, h.fresh);
          }

  install-Inv :
      (s : Running q) (x : XdsSnapshot q.Any) (rest : List (XdsSnapshot q.Any))
      → Pick x s.pending rest
      → Inv s
      → Inv (record {
        plane = install q x s.plane;
        pending = rest;
        installed = x.version ∷ s.installed;
      })
  unfolding install
  install-Inv s x rest k h =
      let (le, les) = Pick-All _ k h.waiting in
      let (others, apart) = Pick-IsDistinct (λ x. x.version) k h.apart in
      let (new, news) = Pick-All _ k h.fresh in
      record {
        sound = record {
          latest = (s.installed, refl);
          counted = (le, h.sound.counted);
          distinct = (new, h.sound.distinct);
        };
        waiting = les;
        apart = apart;
        fresh =
            All-pairs (λ y. y.version ≢ x.version) (λ y. All (λ v. y.version ≢ v) s.installed) rest
              (All-imp rest (λ y ne e. ne (sym e)) others) news;
      }

  connect-snapshot :
      (stream : Stream) (request : DiscoveryRequest) (plane : Plane q)
      → ((connect q stream request plane).0.snapshot ≡ plane.snapshot)
        × ((connect q stream request plane).0.versions ≡ plane.versions)
  unfolding connect register
  connect-snapshot stream request plane = elim (Bool-cases (is_empty_text stream.node_id)) [
    | inl e ↦ rw e (refl, refl)
    | inr e ↦ rw e (refl, refl)
  ]

  on_close-snapshot :
      (stream : Stream) (plane : Plane q)
      → ((on_close q stream plane).snapshot ≡ plane.snapshot)
        × ((on_close q stream plane).versions ≡ plane.versions)
  unfolding on_close
  on_close-snapshot stream plane = elim (Bool-cases (is_empty_text stream.node_id)) [
    | inl e ↦ rw e (refl, refl)
    | inr e ↦ rw e (refl, refl)
  ]

  Step-Inv : {s t : Running q} → Step q s t → Inv s → Inv t
  unfolding on_message note_message push_snapshot
  Step-Inv {s} (begin config small) h = begin-Inv config s small h
  Step-Inv {s} (installing x rest k) h = install-Inv s x rest k h
  Step-Inv {s} (pushing takes snapshot) h = Inv-kept s _ refl refl h
  Step-Inv {s} (message takes stream request) h =
      let (same, count) = connect-snapshot stream request s.plane in Inv-kept s _ same count h
  Step-Inv {s} (close stream) h =
      let (same, count) = on_close-snapshot stream s.plane in Inv-kept s _ same count h

  -- In any order of the steps of rebuilds, messages and ends of streams, as long as the version
  -- counter does not wrap, no two snapshots that were in force have the same version, the one in
  -- force is the last that was installed, and none has a version beyond the counter.
  pub Reach-versions :
      {plane : Plane q} {t : Running q}
      → IsCounted q plane
      → Reach q (resting q plane) t
      → IsSound q t
  Reach-versions {plane} counted r = (reached r).sound
    where
      reached : {t : Running q} → Reach q (resting q plane) t → Inv t
      reached here = record {
        sound = record { latest = ([], refl); counted = (counted, tt); distinct = (tt, tt) };
        waiting = tt;
        apart = tt;
        fresh = tt;
      }
      reached (next r st) = Step-Inv st (reached r)

  begin-ok :
      {p : Platform} (config : GatewayConfig p) (s : Running q) (x : XdsSnapshot q.Any)
      → s.plane.versions + 1 < 2 ^ 64
      → build q config ((s.plane.versions + 1) % 2 ^ 64) ≡ ok x
      → Step q s (record s {
        plane = record s.plane { versions = (s.plane.versions + 1) % 2 ^ 64 };
        pending = x ∷ s.pending;
      })
  unfolding begin_rebuild increment
  begin-ok config s x small e =
      subst
        (λ r. Step q s (record s {
          plane = record s.plane { versions = (s.plane.versions + 1) % 2 ^ 64 };
          pending = built q r s.pending;
        }))
        e (begin config small)

  -- Where the rebuilds for two valid configurations overlap, the one that has begun first can be the
  -- last to install, unless the encoder fails: an older snapshot then replaces a newer one.
  pub overtaken :
      {p : Platform} (one two : GatewayConfig p) (plane : Plane q)
      → Encodes q
      → IsValid one
      → IsValid two
      → plane.versions + 2 < 2 ^ 64
      → (t u : Running q) × Reach q (resting q plane) t
        × Step q t u
        × (u.plane.snapshot.version < t.plane.snapshot.version)
  unfolding install
  overtaken one two plane encodes valid₁ valid₂ small =
      let v₁ = (plane.versions + 1) % 2 ^ 64 in
      let v₂ = (v₁ + 1) % 2 ^ 64 in
      let (x, made₁) = ok_of (build q one v₁) (build-IsOk q encodes one v₁ valid₁) in
      let (y, made₂) = ok_of (build q two v₂) (build-IsOk q encodes two v₂ valid₂) in
      let s₁ : Running q = record (resting q plane) {
        plane = record plane { versions = v₁ };
        pending = x ∷ [];
      } in
      let s₂ : Running q = record s₁ {
        plane = record plane { versions = v₂ };
        pending = y ∷ x ∷ [];
      } in
      let t : Running q = record {
        plane = install q y s₂.plane;
        pending = x ∷ [];
        installed = y.version ∷ s₂.installed;
      } in
      let u : Running q = record {
        plane = install q x t.plane;
        pending = [];
        installed = x.version ∷ t.installed;
      } in
      let reached : Reach q (resting q plane) t =
        next
          (next (next here (begin-ok one (resting q plane) x (omega arith) made₁))
            (begin-ok two s₁ y (omega arith) made₂))
          (installing y (x ∷ []) picked) in
      let n₁ = (build-IsNamed one v₁ x made₁).0 in
      let n₂ = (build-IsNamed two v₂ y made₂).0 in
      (t, u, reached, installing x [] picked, omega arith)
