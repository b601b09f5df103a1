-- ===== src/Rpc/Codes.antt =====
-- The errors of a group, through mapGroupError of server.go and classifyRPCError of client.go.
use locache.Base.{[], ◌≡◌, refl, sym, ◌∙◌, ap, Bool, true, false}
use locache.Base.Str.{Str}
use locache.Group.State.{
  Code, failed_precondition, not_found, unavailable, unknown, other_code, Error, key_required,
  value_required, group_closed, cache_miss, no_owner, peer_unavailable, topology_changed, not_owner,
  owner_error, call_error, status_error, other, root, is_retry, is_cache_miss,
}
use locache.Rpc.{Grpc, IsGrpc, IsStatus}
use locache.Rpc.Client.{classified, classify_rpc_error}
use locache.Rpc.Server.{mapped, map_group_error}

-- Which errors of the owner a requester takes for a change of ownership, and which for a miss.
abbrev pub tells_move : Error → Bool
tells_move not_owner = true
tells_move topology_changed = true
tells_move no_owner = true
tells_move (status_error failed_precondition m) = true
tells_move e = false

abbrev pub tells_miss : Error → Bool
tells_miss cache_miss = true
tells_miss (status_error not_found m) = true
tells_miss e = false

-- What the client makes of an error that the handler returns.
abbrev pub received : Grpc → Str → Error → Error
received grpc addr e = call_error (classify_rpc_error grpc (grpc.carry e)) addr

abbrev Sees : Grpc → Str → Error → Bool → Bool → Type 0
Sees grpc addr x move miss =
    (is_retry (received grpc addr x) ≡ move) × (is_cache_miss (received grpc addr x) ≡ miss)

abbrev is_status : Error → Bool
is_status (status_error c m) = true
is_status e = false

not_status : (e r : Error) → root e ≡ r → is_status r ≡ false → IsStatus (root e) → ⊥
not_status e r h no_it (c, (m, k)) = clash (ap is_status (sym k ∙ h) ∙ no_it)
  where
    clash : ◌≡◌ {A = Bool} true false → ⊥
    clash x = cc

module _ (grpc : Grpc) (known : IsGrpc grpc) (addr : Str) where
  by_code : Code → Error → Error
  by_code c x = call_error (classified c (grpc.carry x) (grpc.text (grpc.carry x))) addr

  at_code :
      (x : Error) (c : Code)
      → grpc.status_code (grpc.carry x) ≡ c
      → received grpc addr x ≡ by_code c x
  unfolding classify_rpc_error by_code
  at_code x c e = ap (λ k. by_code k x) e

  code-Sees :
      (x : Error) (c : Code) (m : Str)
      → grpc.status_code (grpc.carry x) ≡ c
      → Sees grpc addr x (tells_move (status_error c m)) (tells_miss (status_error c m))
  unfolding is_retry is_cache_miss root by_code
  code-Sees x failed_precondition m e =
      (ap is_retry (at_code x _ e), ap is_cache_miss (at_code x _ e))
  code-Sees x not_found m e = (ap is_retry (at_code x _ e), ap is_cache_miss (at_code x _ e))
  code-Sees x unavailable m e = (
    ap is_retry (at_code x _ e) ∙ (known.foreign x).0,
    ap is_cache_miss (at_code x _ e) ∙ (known.foreign x).1,
  )
  code-Sees x unknown m e = (
    ap is_retry (at_code x _ e) ∙ (known.foreign x).0,
    ap is_cache_miss (at_code x _ e) ∙ (known.foreign x).1,
  )
  code-Sees x (other_code n) m e = (
    ap is_retry (at_code x _ e) ∙ (known.foreign x).0,
    ap is_cache_miss (at_code x _ e) ∙ (known.foreign x).1,
  )

  plain-Sees : (x : Error) → (IsStatus (root x) → ⊥) → Sees grpc addr x false false
  plain-Sees x no_status = go (grpc.status_code (grpc.carry x)) refl
    where
      go : (c : Code) → grpc.status_code (grpc.carry x) ≡ c → Sees grpc addr x false false
      go failed_precondition e = absurd ((known.plain x no_status).0 e)
      go not_found e = absurd ((known.plain x no_status).1 e)
      go unavailable e = code-Sees x unavailable [] e
      go unknown e = code-Sees x unknown [] e
      go (other_code n) e = code-Sees x (other_code n) [] e

  status-Sees :
      (x : Error) (c : Code) (m : Str)
      → root x ≡ status_error c m
      → Sees grpc addr x (tells_move (status_error c m)) (tells_miss (status_error c m))
  status-Sees x c m e = code-Sees x c m (known.arrives x c m e)

  own_status :
      (c : Code) (m : Str)
      → Sees grpc addr
          (status_error c m)
          (tells_move (status_error c m))
          (tells_miss (status_error c m))
  unfolding root
  own_status c m = status-Sees (status_error c m) c m refl

  -- The requester takes an error of the owner's group for a change of ownership, and tries again,
  -- exactly where its cause is that the owner owns the key no more, saw a change or knows no owner, or
  -- is an error of gRPC with the code FailedPrecondition; and for a miss exactly where the cause is a
  -- miss, or an error of gRPC with the code NotFound.
  pub requester_sees :
      (e : Error)
      → (is_retry (received grpc addr (map_group_error grpc e)) ≡ tells_move (root e))
        × (is_cache_miss (received grpc addr (map_group_error grpc e)) ≡ tells_miss (root e))
  unfolding map_group_error
  requester_sees e = go (root e) refl
    where
      go :
          (r : Error)
          → root e ≡ r
          → Sees grpc addr (mapped r e (grpc.text e)) (tells_move r) (tells_miss r)
      go not_owner h = own_status failed_precondition (grpc.text e)
      go topology_changed h = own_status failed_precondition (grpc.text e)
      go no_owner h = own_status failed_precondition (grpc.text e)
      go cache_miss h = own_status not_found (grpc.text e)
      go group_closed h = own_status unavailable (grpc.text e)
      go (status_error c m) h = status-Sees e c m h
      go key_required h = plain-Sees e (not_status e key_required h refl)
      go value_required h = plain-Sees e (not_status e value_required h refl)
      go peer_unavailable h = plain-Sees e (not_status e peer_unavailable h refl)
      go (owner_error r s) h = plain-Sees e (not_status e (owner_error r s) h refl)
      go (call_error r s) h = plain-Sees e (not_status e (call_error r s) h refl)
      go (other s) h = plain-Sees e (not_status e (other s) h refl)
