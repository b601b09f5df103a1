-- ===== src/Rpc.antt =====
-- What client.go and server.go use of gRPC, as parameters, and the connection between them.
pub mod Client
pub mod Server
pub mod Codes
pub mod Requests
pub mod Serving
pub mod Sample
mod Tests
use locache.Base.{ℕ, ◌≡◌, ◌≢◌, Option, Bool, false}
use locache.Base.Str.{Str}
use locache.Group.State.{
  Code, failed_precondition, not_found, Error, status_error, root, is_retry, is_cache_miss, Result,
}

-- `text` is the method Error of an error, `status_code` is Code of package status, and `carry` gives
-- the error that a client receives where the handler of the server returns one.
pub record Grpc : Type 0 where
  pub text : Error → Str
  pub status_code : Error → Code
  pub carry : Error → Error

abbrev pub IsStatus : Error → Type 0
IsStatus e = (c : Code) × ((m : Str) × (e ≡ status_error c m))

-- What the code relies on: the code of a status error arrives, also from under wrappings; that of
-- another error is Unknown, or tells of the end of a context; and no sentinel of this process arrives.
pub record IsGrpc (grpc : Grpc) : Type 0 where
  pub arrives :
      (e : Error) (c : Code) (m : Str)
      → root e ≡ status_error c m
      → grpc.status_code (grpc.carry e) ≡ c
  pub plain :
      (e : Error)
      → (IsStatus (root e) → ⊥)
      → (grpc.status_code (grpc.carry e) ≢ failed_precondition)
        × (grpc.status_code (grpc.carry e) ≢ not_found)
  pub foreign :
      (e : Error) → (is_retry (grpc.carry e) ≡ false) × (is_cache_miss (grpc.carry e) ≡ false)

-- The stub that the protocol generates: each request has a deadline, and goes from a state of what
-- lies at the other end to another, or panics. A request to delete may carry the mark of an
-- invalidation.
pub record LocacheClient (S : Type 0) : Type 0 where
  pub get : ℕ → Str → Str → S → Option (S × Result Str)
  pub set : ℕ → Str → Str → Str → S → Option (S × Result Str)
  pub delete_key : ℕ → Bool → Str → Str → S → Option (S × Result Bool)
