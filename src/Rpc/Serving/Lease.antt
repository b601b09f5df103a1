-- ===== src/Rpc/Serving/Lease.antt =====
-- The lease of a server of server.go, through `Stop` and the end of `Start`.
use locache.Base.{
  ℕ, ◌≡◌, refl, sym, ◌∙◌, ap, Option, none, some, Bool, true, false, if◌then◌else◌, not, ◌&&◌,
  arith,
}
use locache.Base.Str.{Str}
use locache.Base.Words.{gt64}
use locache.Registry.{service_key, Result, ok, err, keep_alive_error, grant_error, put_error}
use locache.Registry.Registration.{
  Etcd, Registration, keep_lease, put_service, register_with, register,
}
use locache.Registry.Registration
use locache.Rpc.Serving.{
  Server, Error, serve_error, registered, begin_start, close_registration, end_start, stop,
}

module _ {W : Type 0} (cli : Etcd W) where
  -- A server with a registration that is not closed yet.
  record IsServing (s : Server) (r : Registration) : Type 0 where
    held : s.registration ≡ some r
    live : r.closed ≡ false
    running : s.stopped ≡ false

  abbrev shut : Registration → Registration
  shut r = record r { cancelled = true; closed = true }

  close_live :
      (r : Registration) (waited : Option Str) (s : Server) (w : W)
      → s.registration ≡ some r
      → r.closed ≡ false
      → close_registration cli waited s w
        ≡ ((cli.revoke r.lease_id w).0, record s { registration = some (shut r) })
  unfolding close_registration Registration.close
  close_live r waited s w held live = ground (arith, held, live)

  close_dead :
      (r : Registration) (waited : Option Str) (s : Server) (w : W)
      → s.registration ≡ some r
      → r.closed ≡ true
      → close_registration cli waited s w ≡ (w, s)
  unfolding close_registration Registration.close
  close_dead r waited s w held dead = ground (arith, held, dead)

  abbrev stopped : Registration → Server → Server
  stopped r s = record s {
    cancelled = true;
    stopped = true;
    registration = some (shut r);
    grpc_stopped = true;
    etcd_closed = true;
  }

  stop_live :
      (r : Registration) (waited : Option Str) (s : Server) (w : W)
      → IsServing s r
      → stop cli waited s w ≡ ((cli.revoke r.lease_id w).0, stopped r s)
  unfolding stop
  stop_live r waited s w h =
      ap (λ b. if b then (w, s) else finish (close_registration cli waited begun w)) h.running
      ∙ ap finish (close_live r waited begun w h.held h.live)
    where
      begun : Server
      begun = record s { cancelled = true; stopped = true }

      finish : W × Server → W × Server
      finish (w', s') = (w', record s' { grpc_stopped = true; etcd_closed = true })

  abbrev IsFresh : Result Registration → Type 0
  IsFresh (err e) = Unit
  IsFresh (ok r) = r.closed ≡ false

  keep_lease-IsFresh : (lease : ℕ) (w : W) → IsFresh (keep_lease cli lease w).1
  unfolding keep_lease
  keep_lease-IsFresh lease w = go (cli.keep_alive lease w).1
    where
      go :
          (o : Option Str)
          → IsFresh
              (elim o as (λ x. W × Result Registration) [
                | some text ↦ ((cli.keep_alive lease w).0, err (keep_alive_error text))
                | none ↦ (
                  (cli.keep_alive lease w).0,
                  ok (record { lease_id = lease; cancelled = false; closed = false }),
                )
              ]).1
      go none = refl
      go (some text) = tt

  put_service-IsFresh :
      (name addr : Str) (lease : ℕ) (w : W) → IsFresh (put_service cli name addr lease w).1
  unfolding put_service
  put_service-IsFresh name addr lease w = go (cli.put (service_key name addr) addr lease w).1
    where
      w1 : W
      w1 = (cli.put (service_key name addr) addr lease w).0

      go :
          (o : Option Str)
          → IsFresh
              (elim o as (λ x. W × Result Registration) [
                | some text ↦ (w1, err (put_error text))
                | none ↦ keep_lease cli lease w1
              ]).1
      go none = keep_lease-IsFresh lease w1
      go (some text) = tt

  register-IsFresh :
      (name addr : Str) (ttl : ℕ) (w : W) → IsFresh (register (some cli) name addr ttl w).1
  unfolding register register_with
  register-IsFresh name addr ttl w = go (cli.grant (if gt64 ttl 0 then ttl else 10) w)
    where
      go :
          (a : W × Option Str × ℕ)
          → IsFresh
              (elim a.1 as (λ x. W × Result Registration) [
                | some text ↦ (a.0, err (grant_error text))
                | none ↦ put_service cli name addr a.2 a.0
              ]).1
      go (w1, none, lease) = put_service-IsFresh name addr lease w1
      go (w1, some text, lease) = tt

  started :
      (s s' : Server) (w w' : W)
      → s.stopped ≡ false
      → begin_start cli true s w ≡ (w', (s', none))
      → (r : Registration) × IsServing s' r
  unfolding begin_start
  started s s' w w' running begun =
      go (register (some cli) s.svc_name s.advertise_addr s.opts.lease_ttl w)
        (register-IsFresh s.svc_name s.advertise_addr s.opts.lease_ttl w) begun
    where
      go :
          (res : W × Result Registration)
          → IsFresh res.1
          → registered cli s res ≡ (w', (s', none))
          → (r : Registration) × IsServing s' r
      go (_, err e) h k = absurd (ground arith)
      go (_, ok r) h k = (
        r,
        record {
          held = sym (ap (λ (q : W × (Server × Option Error)). q.1.0.registration) k);
          live = h;
          running = sym (ap (λ (q : W × (Server × Option Error)). q.1.0.stopped) k) ∙ running;
        },
      )

  end_stopped :
      (r : Registration) (failed by_stop : Bool) (waited : Option Str) (s : Server) (w : W)
      → end_start cli failed by_stop waited (stopped r s) w ≡ (w, (stopped r s, none))
  unfolding end_start
  end_stopped r failed by_stop waited s w =
      ap
        (λ (q : W × Server).
          (q.0, (q.1, if failed && (not by_stop && false) then some serve_error else none)))
        (close_dead (shut r) waited (stopped r s) w refl refl)
      ∙ ap (λ b. (w, (stopped r s, if b then some serve_error else none))) (silent failed by_stop)
    where
      silent : (f b : Bool) → (f && (not b && false)) ≡ false
      silent false b = refl
      silent true false = refl
      silent true true = refl

  -- A `Stop` on a closed registration calls nothing.
  stop_dead :
      (r : Registration) (waited : Option Str) (s : Server) (w : W)
      → s.registration ≡ some r
      → r.closed ≡ true
      → (stop cli waited s w).0 ≡ w
  unfolding stop
  stop_dead r waited s w held dead = go s.stopped (
      ap (λ (q : W × Server). q.0)
        (close_dead r waited (record s { cancelled = true; stopped = true }) w held dead))
    where
      w1 : W
      w1 = (close_registration cli waited (record s { cancelled = true; stopped = true }) w).0

      s1 : Server
      s1 = (close_registration cli waited (record s { cancelled = true; stopped = true }) w).1

      go :
          (b : Bool)
          → w1 ≡ w
          → (if◌then◌else◌ {A = W × Server} b
              (w, s)
              (w1, record s1 { grpc_stopped = true; etcd_closed = true })).0
            ≡ w
      go true e = refl
      go false e = e

  end_live :
      (r : Registration) (failed by_stop : Bool) (waited : Option Str) (s : Server) (w : W)
      → IsServing s r
      → ((end_start cli failed by_stop waited s w).0 ≡ (cli.revoke r.lease_id w).0)
        × ((end_start cli failed by_stop waited s w).1.0
            ≡ record s { registration = some (shut r) })
  unfolding end_start
  end_live r failed by_stop waited s w h =
      let e = close_live r waited s w h.held h.live in
      (ap (λ (q : W × Server). q.0) e, ap (λ (q : W × Server). q.1) e)

  -- After a `Start` whose listener and registration came about, on a server that was not stopped: a
  -- `Stop` before `Serve` returns, and a `Stop` after it, both give the lease back, and once; and after
  -- a `Stop` the end of `Start` reports no error, whatever `Serve` returned.
  pub lease_given_back :
      (s s' : Server) (w w' : W) (failed by_stop : Bool) (waited waited' : Option Str)
      → s.stopped ≡ false
      → begin_start cli true s w ≡ (w', (s', none))
      → (r : Registration) × ((s'.registration ≡ some r)
          × (let (w1, s1) = stop cli waited s' w' in
              end_start cli failed by_stop waited' s1 w1
              ≡ ((cli.revoke r.lease_id w').0, (s1, none)))
          × (let (w2, (s2, _)) = end_start cli failed by_stop waited' s' w' in
              (stop cli waited s2 w2).0 ≡ (cli.revoke r.lease_id w').0))
  lease_given_back s s' w w' failed by_stop waited waited' running begun =
      let (r, h) = started s s' w w' running begun in
      (
        r,
        (
          h.held,
          ap (λ (q : W × Server). end_start cli failed by_stop waited' q.1 q.0)
                (stop_live r waited s' w' h)
              ∙ end_stopped r failed by_stop waited' s' (cli.revoke r.lease_id w').0
              ∙ ap (λ (q : W × Server). ((cli.revoke r.lease_id w').0, (q.1, none)))
                  (sym (stop_live r waited s' w' h)),
          stop_dead (shut r) waited _ _
                (ap (λ (q : Server). q.registration) (end_live r failed by_stop waited' s' w' h).1)
                refl
              ∙ (end_live r failed by_stop waited' s' w' h).0,
        ),
      )
