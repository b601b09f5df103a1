-- ===== src/Rpc/Sample.antt =====
-- A simple gRPC, for the tests of client.go and server.go.
use locache.Base.{◌≡◌, ◌≢◌, refl, ap, [], false, arith}
use locache.Group.State.{
  Code, failed_precondition, not_found, unknown, Error, key_required, value_required, group_closed,
  cache_miss, no_owner, peer_unavailable, topology_changed, not_owner, owner_error, call_error,
  status_error, other, root, is_retry, is_cache_miss,
}
use locache.Rpc.{Grpc, IsGrpc, IsStatus}

abbrev code_of : Error → Code
code_of (status_error c m) = c
code_of e = unknown

abbrev is_foreign : Error → Error
is_foreign (status_error c m) = status_error c m
is_foreign e = status_error unknown []

-- Errors without a text, each carried as its code.
unfoldable pub grpc : Grpc
grpc = record {
  text = λ e. [];
  status_code = λ e. code_of (root e);
  carry = λ e. is_foreign (root e);
}

pub grpc-IsGrpc : IsGrpc grpc
unfolding grpc root is_retry is_cache_miss
grpc-IsGrpc = record {
  arrives = λ e c m h. ap (λ r. code_of (root (is_foreign r))) h;
  plain = λ e no_status. go (root e) no_status;
  foreign = λ e. apart (root e);
}
  where
    go :
        (r : Error)
        → (IsStatus r → ⊥)
        → (code_of (root (is_foreign r)) ≢ failed_precondition)
          × (code_of (root (is_foreign r)) ≢ not_found)
    go (status_error c m) h = absurd (h (c, (m, refl)))
    go key_required h = ((λ e. ground arith), (λ e. ground arith))
    go value_required h = ((λ e. ground arith), (λ e. ground arith))
    go group_closed h = ((λ e. ground arith), (λ e. ground arith))
    go cache_miss h = ((λ e. ground arith), (λ e. ground arith))
    go no_owner h = ((λ e. ground arith), (λ e. ground arith))
    go peer_unavailable h = ((λ e. ground arith), (λ e. ground arith))
    go topology_changed h = ((λ e. ground arith), (λ e. ground arith))
    go not_owner h = ((λ e. ground arith), (λ e. ground arith))
    go (owner_error e s) h = ((λ e. ground arith), (λ e. ground arith))
    go (call_error e s) h = ((λ e. ground arith), (λ e. ground arith))
    go (other s) h = ((λ e. ground arith), (λ e. ground arith))

    apart : (r : Error) → (is_retry (is_foreign r) ≡ false) × (is_cache_miss (is_foreign r) ≡ false)
    apart (status_error c m) = (refl, refl)
    apart key_required = (refl, refl)
    apart value_required = (refl, refl)
    apart group_closed = (refl, refl)
    apart cache_miss = (refl, refl)
    apart no_owner = (refl, refl)
    apart peer_unavailable = (refl, refl)
    apart topology_changed = (refl, refl)
    apart not_owner = (refl, refl)
    apart (owner_error e s) = (refl, refl)
    apart (call_error e s) = (refl, refl)
    apart (other s) = (refl, refl)
