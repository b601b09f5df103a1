-- ===== src/Rpc/Serving.antt =====
-- server.go: a server, from its options over `Start` to `Stop`. The listener, the gRPC server and the
-- etcd client answer as their parameters say.
pub mod Lease
use locache.Base.{
  ℕ, ◌*◌, ◌^◌, Option, none, some, List, [], ◌∷◌, Bool, true, false, not, ◌||◌, ◌&&◌, if◌then◌else◌,
}
use locache.Base.Words.{gt64}
use locache.Base.Str.{Str}
use locache.Registry
use locache.Registry.{Net, normalize_address}
use locache.Registry.Registration.{Etcd, Registration, register}
use locache.Registry.Registration
use locache.Peers.{second, is_empty}
use locache.Peers.Watch.{default_svc_name, default_endpoint}

pub record ServerOptions : Type 0 where
  pub etcd_endpoints : List Str
  pub dial_timeout : ℕ
  pub lease_ttl : ℕ
  pub max_msg_size : ℕ
  pub tls : Bool
  pub cert_file : Str
  pub key_file : Str
  pub advertise_addr : Str

unfoldable pub default_server_options : ServerOptions
default_server_options = record {
  etcd_endpoints = default_endpoint ∷ [];
  dial_timeout = 5 * second;
  lease_ttl = 10;
  max_msg_size = 4 * 2 ^ 20;
  tls = false;
  cert_file = [];
  key_file = [];
  advertise_addr = [];
}

pub data ServerOption : Type 0 where
  with_etcd_endpoints : List Str → ServerOption
  with_dial_timeout with_lease_ttl : ℕ → ServerOption
  with_advertise_address : Str → ServerOption
  with_tls : Str → Str → ServerOption

unfoldable pub apply_option : ServerOption → ServerOptions → ServerOptions
apply_option (with_etcd_endpoints endpoints) o = record o { etcd_endpoints = endpoints }
apply_option (with_dial_timeout timeout) o =
    if gt64 timeout 0 then record o { dial_timeout = timeout } else o
apply_option (with_lease_ttl seconds) o =
    if gt64 seconds 0 then record o { lease_ttl = seconds } else o
apply_option (with_advertise_address addr) o = record o { advertise_addr = addr }
apply_option (with_tls cert key) o = record o { tls = true; cert_file = cert; key_file = key }

unfoldable pub apply_options : List ServerOption → ServerOptions → ServerOptions
apply_options [] o = o
apply_options (p ∷ rest) o = apply_options rest (apply_option p o)

-- `cancelled` is the context's state, `stopped` what `stopOnce` has done; the last two are what was
-- done to the gRPC server and the etcd client.
pub record Server : Type 0 where
  pub listen_addr : Str
  pub advertise_addr : Str
  pub svc_name : Str
  pub opts : ServerOptions
  pub cancelled : Bool
  pub registration : Option Registration
  pub listening : Bool
  pub stopped : Bool
  pub grpc_stopped : Bool
  pub etcd_closed : Bool

pub data Error : Type 0 where
  address_error register_error : Registry.Error → Error
  etcd_client_error tls_error listen_error serve_error : Error

pub data Result : Type 0 where
  ok : Server → Result
  err : Error → Result

abbrev pub name_or_default : Str → Str
name_or_default [] = default_svc_name
name_or_default (b ∷ name) = b ∷ name

abbrev pub advertised : Str → Str → Str
advertised addr [] = addr
advertised addr (b ∷ other) = b ∷ other

-- `NewServer` once its address is known: `connects` says whether there is an etcd client, and
-- `loads` whether the certificate and key load.
unfoldable pub with_address :
    Bool → (Str → Str → Bool) → Str → Str → ServerOptions → Registry.Result Str → Result
with_address connects loads addr svc_name o (Registry.err e) = err (address_error e)
with_address connects loads addr svc_name o (Registry.ok advertise) =
    if not connects
    then err etcd_client_error
    else if o.tls && not (loads o.cert_file o.key_file)
    then err tls_error
    else ok (record {
      listen_addr = addr;
      advertise_addr = advertise;
      svc_name = svc_name;
      opts = o;
      cancelled = false;
      registration = none;
      listening = false;
      stopped = false;
      grpc_stopped = false;
      etcd_closed = false;
    })

unfoldable pub new_server : Net → Bool → (Str → Str → Bool) → Str → Str → List ServerOption → Result
new_server net connects loads addr svc_name opts =
    let o = apply_options opts default_server_options in
    with_address connects loads addr (name_or_default svc_name) o
      (normalize_address net (advertised addr o.advertise_addr))

module _ {W : Type 0} (cli : Etcd W) where
  abbrev registered : Server → W × Registry.Result Registration → W × (Server × Option Error)
  registered s (w, Registry.err e) = (w, (s, some (register_error e)))
  registered s (w, Registry.ok r) =
      (w, (record s { registration = some r; listening = true }, none))

  -- `Start` up to the call of `Serve`.
  unfoldable pub begin_start : Bool → Server → W → W × (Server × Option Error)
  begin_start listens s w =
      if listens
      then registered s (register (some cli) s.svc_name s.advertise_addr s.opts.lease_ttl w)
      else (w, (s, some listen_error))

  -- The registration that a server holds is closed; `waited` is the context's error, if it ends first.
  unfoldable pub close_registration : Option Str → Server → W → W × Server
  close_registration waited s w =
      let (w', (r, _)) = Registration.close cli s.registration waited w in
      (w', record s { registration = r })

  -- `Start` from the return of `Serve`, with or without an error, that may be ErrServerStopped.
  unfoldable pub end_start : Bool → Bool → Option Str → Server → W → W × (Server × Option Error)
  end_start failed by_stop waited s w =
      let (w', s') = close_registration waited s w in
      (w', (s', if failed && (not by_stop && not s.cancelled) then some serve_error else none))

  unfoldable pub stop : Option Str → Server → W → W × Server
  stop waited s w =
      if s.stopped
      then (w, s)
      else (let (w', s') =
            close_registration waited (record s { cancelled = true; stopped = true }) w in
          (w', record s' { grpc_stopped = true; etcd_closed = true }))
