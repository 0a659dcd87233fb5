-- ===== src/Xds/Server/Rebuild.antt =====
-- What a broadcast sends, and which connections it removes.
use open_api_gateway.Prelude.{
  ℕ, zero, suc, String, none, List, [], ◌∷◌, ◌++◌, map, length, leb, any, ◌==◌, eq_iff, ◌≡◌, refl,
  subst, arith, Bool-cases, inl, inr, if◌then◌else◌,
}
use open_api_gateway.Prelude.Maps.{lookup, delete, lookup-delete, lookup-delete_other}
use open_api_gateway.Xds.Server.{send_all, broadcast_from, remove_all, broadcast}

-- The first messages of a list.
abbrev pub first {ℓ} : {A : Type ℓ} → ℕ → List A → List A
first zero xs = []
first (suc n) [] = []
first (suc n) (x ∷ xs) = x ∷ first n xs

module _ {ℓ} {A : Type ℓ} (takes : ℕ → ℕ) (responses : List A) where
  -- To every connection in turn, the responses in their order, as many as it takes.
  abbrev pub deliveries : List (String × ℕ) → List (ℕ × A)
  deliveries [] = []
  deliveries ((node, id) ∷ connections) =
      map (λ r. (id, r)) (first (takes id) responses) ++ deliveries connections

send_all_lem {ℓ} :
    {A : Type ℓ} (takes id : ℕ) (responses : List A)
    → send_all takes id responses
      ≡ (map (λ r. (id, r)) (first takes responses), leb (length responses) takes)
unfolding send_all
send_all_lem zero id [] = refl
send_all_lem (suc takes) id [] = ground arith
send_all_lem zero id (r ∷ responses) = ground arith
send_all_lem (suc takes) id (r ∷ responses) = rw (send_all_lem takes id responses) (ground arith)

module _ {ℓ} {A : Type ℓ} (takes : ℕ → ℕ) (responses : List A) where
  broadcast_from-sent :
      (connections : List (String × ℕ))
      → (broadcast_from takes responses connections).0 ≡ deliveries takes responses connections
  unfolding broadcast_from
  broadcast_from-sent [] = refl
  broadcast_from-sent ((node, id) ∷ connections) =
      rw (send_all_lem (takes id) id responses, broadcast_from-sent connections) refl

  -- The nodes that do not take everything.
  abbrev pub dropped : List (String × ℕ) → List String
  dropped [] = []
  dropped ((node, id) ∷ connections) =
      if leb (length responses) (takes id) then dropped connections else node ∷ dropped connections

  broadcast_from-dropped :
      (connections : List (String × ℕ))
      → (broadcast_from takes responses connections).1 ≡ dropped connections
  unfolding broadcast_from
  broadcast_from-dropped [] = refl
  broadcast_from-dropped ((node, id) ∷ connections) =
      rw (send_all_lem (takes id) id responses, broadcast_from-dropped connections) refl

  delete-lookup :
      (n node : String) (connections : List (String × ℕ))
      → lookup node (delete n connections) ≡ (if n == node then none else lookup node connections)
  delete-lookup n node connections = elim (Bool-cases (n == node)) [
    | inl e ↦ rw e (
        subst (λ k. lookup k (delete n connections) ≡ none) ((eq_iff n node).0 e)
          (lookup-delete n connections))
    | inr e ↦
        rw e
          (lookup-delete_other n node connections (λ h. absurd (ground (arith, eq_iff n node, h))))
  ]

  remove_all-lookup :
      (nodes : List String) (node : String) (connections : List (String × ℕ))
      → lookup node (remove_all nodes connections)
        ≡ (if any (λ n. n == node) nodes then none else lookup node connections)
  unfolding remove_all
  remove_all-lookup [] node connections = refl
  remove_all-lookup (n ∷ nodes) node connections =
      let later = remove_all-lookup nodes node (delete n connections) in
      let here = delete-lookup n node connections in ground (arith, later, here)

  -- A broadcast sends to every connection the responses in their order, up to the one that it fails
  -- to take, and then removes exactly the connections of the nodes that have failed to take one.
  pub broadcast_lem :
      (connections : List (String × ℕ))
      → let (after, sent) = broadcast takes responses connections in
        (sent ≡ deliveries takes responses connections)
        × ((node : String)
            → lookup node after ≡ (
                if any (λ n. n == node) (dropped connections)
                then none
                else lookup node connections))
  unfolding broadcast
  broadcast_lem connections = (
    broadcast_from-sent connections,
    λ node.
        rw (broadcast_from-dropped connections)
          (remove_all-lookup (dropped connections) node connections),
  )
