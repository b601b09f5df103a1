-- ===== src/Rpc/Client.antt =====
-- client.go: the requests that a client makes.
use locache.Base.{ℕ, ◌+◌, Option, none, some, Bool, true, false}
use locache.Base.Str.{Str}
use locache.Group.State.{
  Code, failed_precondition, not_found, Error, cache_miss, topology_changed, call_error, Result, ok,
  err,
}
use locache.Peers.{Client}
use locache.Rpc.{Grpc, LocacheClient}

abbrev pub classified : Code → Error → Str → Error
classified failed_precondition e text = call_error topology_changed text
classified not_found e text = call_error cache_miss text
classified c e text = e

unfoldable pub classify_rpc_error : Grpc → Error → Error
classify_rpc_error grpc e = classified (grpc.status_code e) e (grpc.text e)

-- The deadline of a request: the context's, if it has one.
unfoldable pub call_context : Option ℕ → ℕ → Client → ℕ
call_context (some deadline) now c = deadline
call_context none now c = now + c.rpc_timeout

module _ {S : Type 0} (grpc : Grpc) where
  -- What a method makes of an answer.
  abbrev pub answered :
      {A B : Type 0} → Client → (A → B) → Option (S × Result A) → Option (S × Result B)
  answered c f none = none
  answered c f (some (s, ok a)) = some (s, ok (f a))
  answered c f (some (s, err e)) = some (s, err (call_error (classify_rpc_error grpc e) c.addr))

module _ {S : Type 0} (grpc : Grpc) (rpc : LocacheClient S) where
  -- The methods panic on a nil client. `deadline` is the context's, and `now` is when the call starts.
  unfoldable pub get : Option ℕ → ℕ → Option Client → Str → Str → S → Option (S × Result Str)
  get deadline now none group key s = none
  get deadline now (some c) group key s =
      answered grpc c (λ value. value) (rpc.get (call_context deadline now c) group key s)

  unfoldable pub set :
      Option ℕ → ℕ → Option Client → Str → Str → Str → S → Option (S × Result (Unit {0}))
  set deadline now none group key value s = none
  set deadline now (some c) group key value s =
      answered grpc c (λ _. tt) (rpc.set (call_context deadline now c) group key value s)

  unfoldable pub delete_key :
      Option ℕ → ℕ → Option Client → Str → Str → S → Option (S × Result Bool)
  delete_key deadline now none group key s = none
  delete_key deadline now (some c) group key s =
      answered grpc c (λ removed. removed)
        (rpc.delete_key (call_context deadline now c) false group key s)

  unfoldable pub invalidate :
      Option ℕ → ℕ → Option Client → Str → Str → S → Option (S × Result (Unit {0}))
  invalidate deadline now none group key s = none
  invalidate deadline now (some c) group key s =
      answered grpc c (λ _. tt) (rpc.delete_key (call_context deadline now c) true group key s)

-- `Close` of a client with a connection or without one.
unfoldable pub close : {S : Type 0} → Option (S → S × Option Error) → S → S × Option Error
close none s = (s, none)
close (some conn_close) s = conn_close s
