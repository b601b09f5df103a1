-- ===== src/Registry/Registration.antt =====
-- `Register` and `Registration.Close` of registry/register.go, over an etcd client.
use locache.Base.{ℕ, Option, none, some, Bool, true, false, if◌then◌else◌}
use locache.Base.Words.{gt64}
use locache.Base.Str.{Str}
use locache.Registry.{
  nil_client, grant_error, put_error, keep_alive_error, Result, ok, err, service_key,
}

-- The calls of the etcd client, each from a state of what lies outside to another. A call that fails
-- says why; `grant` gives the number of a lease.
pub record Etcd (W : Type 0) : Type 0 where
  pub grant : ℕ → W → W × Option Str × ℕ
  pub put : Str → Str → ℕ → W → W × Option Str
  pub keep_alive : ℕ → W → W × Option Str
  pub revoke : ℕ → W → W × Option Str

-- The renewing of the lease runs until `cancelled`; `closed` is what `once` has done.
pub record Registration : Type 0 where
  pub lease_id : ℕ
  pub cancelled : Bool
  pub closed : Bool

module _ {W : Type 0} (cli : Etcd W) where
  unfoldable pub keep_lease : ℕ → W → W × Result Registration
  keep_lease lease w =
      let (w', failed) = cli.keep_alive lease w in
      elim failed [
        | some text ↦ (w', err (keep_alive_error text))
        | none ↦ (w', ok (record { lease_id = lease; cancelled = false; closed = false }))
      ]

  unfoldable pub put_service : Str → Str → ℕ → W → W × Result Registration
  put_service svc_name addr lease w =
      let (w', failed) = cli.put (service_key svc_name addr) addr lease w in
      elim failed [ some text ↦ (w', err (put_error text)) | none ↦ keep_lease lease w' ]

  -- `register` with a client; the default of the lifetime is that of `DefaultConfig`.
  unfoldable pub register_with : Str → Str → ℕ → W → W × Result Registration
  register_with svc_name addr ttl w =
      let (w', failed, lease) = cli.grant (if gt64 ttl 0 then ttl else 10) w in
      elim failed [
        | some text ↦ (w', err (grant_error text))
        | none ↦ put_service svc_name addr lease w'
      ]

  -- The error of a `Close`: the context's, if it ended before the renewing did, or else that of the
  -- call that gives the lease back.
  abbrev first_error : Option Str → Option Str → Option Str
  first_error none e = e
  first_error (some text) e = some text

  -- `waited` is the error of the context, if it ended first.
  unfoldable pub close :
      Option Registration → Option Str → W → W × (Option Registration × Option Str)
  close none waited w = (w, (none, none))
  close (some r) waited w = elim r.closed [
    | true ↦ (w, (some r, none))
    | false ↦
        let (w', e) = cli.revoke r.lease_id w in
        (w', (some (record r { cancelled = true; closed = true }), first_error waited e))
  ]

unfoldable pub register :
    {W : Type 0} → Option (Etcd W) → Str → Str → ℕ → W → W × Result Registration
register none svc_name addr ttl w = (w, err nil_client)
register (some cli) svc_name addr ttl w = register_with cli svc_name addr ttl w
