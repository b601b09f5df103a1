-- ===== src/Registry/Laws.antt =====
-- The names of registry/register.go.
use locache.Base.{
  ◌≡◌, ◌≢◌, refl, sym, ◌∙◌, ap, none, some, List, [], ◌∷◌, Bool, true, false, ◌&&◌, not, subst,
  arith, All, Bool-cases, Option-cases, inl, inr, ◌⊎◌,
}
use locache.Base.Str.{Str}
use locache.Registry.{
  Error, invalid_address, missing_port, Result, ok, err, Net, InterfaceAddr, first_routable, trim,
  trim_left, trim_right, is_bracket, is_wildcard, get_local_ip, routable_host, join_routable,
  normalize_address, is_missing,
}

abbrev pub IsPlain : Str → Type 0
IsPlain s = All (λ c. is_bracket c ≡ false) s

trim_left_plain : (s : Str) → IsPlain s → trim_left s ≡ s
unfolding trim_left
trim_left_plain [] h = refl
trim_left_plain (c ∷ s) h = ground (arith, h.0)

trim_right_plain : (s : Str) → IsPlain s → trim_right s ≡ s
unfolding trim_right
trim_right_plain [] h = refl
trim_right_plain (c ∷ []) h = ground (arith, h.0)
trim_right_plain (c ∷ d ∷ s) h = ground (arith, trim_right_plain (d ∷ s) h.1)

trim_plain : (s : Str) → IsPlain s → trim s ≡ s
unfolding trim
trim_plain s h = ap trim_right (trim_left_plain s h) ∙ trim_right_plain s h

abbrev pub IsPort : Str → Type 0
IsPort p = All (λ c. c ≢ b':') p × IsPlain p

abbrev pub IsHost : Str → Type 0
IsHost h = IsPlain h × (is_wildcard h ≡ false)

-- What is documented of package net: the parts that `SplitHostPort` finds have no brackets, and the
-- port no colon; it takes apart again what `JoinHostPort` made of such parts; and the address of an
-- interface is no wildcard.
pub record IsNet (net : Net) : Type 0 where
  pub parts :
      (addr host port : Str)
      → net.split_host_port addr ≡ some (host, port)
      → IsPlain host × IsPort port
  pub joined :
      (host port : Str)
      → IsPlain host
      → IsPort port
      → net.split_host_port (net.join_host_port host port) ≡ some (host, port)
  pub specified :
      (l : List InterfaceAddr)
      → net.interface_addrs ≡ ok l
      → All (λ (a : InterfaceAddr). (ip : Str) → a.to4 ≡ some ip → IsHost ip) l

abbrev is_candidate : InterfaceAddr → Bool
is_candidate a = a.is_ip_net && not a.is_loopback

first_skipped :
    (a : InterfaceAddr) (l : List InterfaceAddr)
    → (is_candidate a ≡ false) ⊎ (a.to4 ≡ none)
    → first_routable (a ∷ l) ≡ first_routable l
unfolding first_routable
first_skipped a l h = ground arith

first_taken :
    (a : InterfaceAddr) (l : List InterfaceAddr) (ip : Str)
    → is_candidate a ≡ true
    → a.to4 ≡ some ip
    → first_routable (a ∷ l) ≡ ok ip
unfolding first_routable
first_taken a l ip h k = ground arith

ok_inj : {A : Type 0} {a b : A} → ◌≡◌ {A = Result A} (ok a) (ok b) → a ≡ b
ok_inj e = cc

first_routable-IsHost :
    (l : List InterfaceAddr) (ip : Str)
    → All (λ (a : InterfaceAddr). (ip : Str) → a.to4 ≡ some ip → IsHost ip) l
    → first_routable l ≡ ok ip
    → IsHost ip
unfolding first_routable
first_routable-IsHost [] ip h e = cc
first_routable-IsHost (a ∷ l) ip h e = elim (Bool-cases (is_candidate a)) [
  | inr loopback ↦ first_routable-IsHost l ip h.1 (sym (first_skipped a l (inl loopback)) ∙ e)
  | inl good ↦ elim (Option-cases a.to4) [
    | inl no_v4 ↦ first_routable-IsHost l ip h.1 (sym (first_skipped a l (inr no_v4)) ∙ e)
    | inr (v4, found) ↦ h.0 ip (found ∙ ap some (ok_inj (sym (first_taken a l v4 good found) ∙ e)))
  ]
]

module _ (net : Net) (known : IsNet net) where
  routable_host-IsHost : (host ip : Str) → IsPlain host → routable_host net host ≡ ok ip → IsHost ip
  unfolding routable_host get_local_ip
  routable_host-IsHost host ip plain e = elim (Bool-cases (is_wildcard host)) [
    | inr good ↦
        let same : host ≡ ip = ok_inj (sym (kept host good) ∙ e) in subst IsHost same (plain, good)
    | inl wild ↦ local_ip (sym (replaced host wild) ∙ e)
  ]
    where
      kept : (h : Str) → is_wildcard h ≡ false → routable_host net h ≡ ok h
      kept h good = ground arith

      replaced : (h : Str) → is_wildcard h ≡ true → routable_host net h ≡ get_local_ip net
      replaced h wild = ground arith

      local_ip : get_local_ip net ≡ ok ip → IsHost ip
      local_ip k = go net.interface_addrs refl
        where
          go : (r : Result (List InterfaceAddr)) → net.interface_addrs ≡ r → IsHost ip
          go (ok l) f = first_routable-IsHost l ip (known.specified l f) (ground arith)
          go (err x) f = absurd (ground arith)

  normalize_answer :
      (addr host port : Str)
      → net.split_host_port addr ≡ some (host, port)
      → is_missing net port ≡ false
      → normalize_address net addr ≡ join_routable net port (routable_host net host)
  unfolding normalize_address
  normalize_answer addr host port e h = ground arith

  split_failed :
      (addr : Str)
      → net.split_host_port addr ≡ none
      → normalize_address net addr ≡ err invalid_address
  unfolding normalize_address
  split_failed addr e = ground arith

  port_missing :
      (addr host port : Str)
      → net.split_host_port addr ≡ some (host, port)
      → is_missing net port ≡ true
      → normalize_address net addr ≡ err missing_port
  unfolding normalize_address
  port_missing addr host port e h = ground arith

  -- What a normalised address is made of.
  record IsNormal (addr addr' : Str) : Type 0 where
    host : Str
    port : Str
    ip : Str
    split : net.split_host_port addr ≡ some (host, port)
    present : is_missing net port ≡ false
    found : routable_host net host ≡ ok ip
    made : net.join_host_port (trim ip) port ≡ addr'

  normalized : (addr addr' : Str) → normalize_address net addr ≡ ok addr' → IsNormal addr addr'
  unfolding join_routable
  normalized addr addr' e = elim (Option-cases (net.split_host_port addr)) [
    | inl none_at ↦ absurd (not_ok (sym (split_failed addr none_at) ∙ e))
    | inr ((host, port), at) ↦ elim (Bool-cases (is_missing net port)) [
      | inl gone ↦ absurd (not_ok (sym (port_missing addr host port at gone) ∙ e))
      | inr there ↦ go host port at there (routable_host net host) refl
    ]
  ]
    where
      not_ok : {x : Error} → ◌≡◌ {A = Result Str} (err x) (ok addr') → ⊥
      not_ok k = cc

      go :
          (host port : Str)
          → net.split_host_port addr ≡ some (host, port)
          → is_missing net port ≡ false
          → (r : Result Str) → routable_host net host ≡ r
          → IsNormal addr addr'
      go host port at there (err x) f = absurd (
          not_ok
            (sym (normalize_answer addr host port at there ∙ ap (join_routable net port) f) ∙ e))
      go host port at there (ok ip) f = record {
        host = host;
        port = port;
        ip = ip;
        split = at;
        present = there;
        found = f;
        made =
            ok_inj
              (sym (normalize_answer addr host port at there ∙ ap (join_routable net port) f) ∙ e);
      }

  -- An address that `NormalizeAddress` gives has a host that is no wildcard and a port, and is
  -- given back unchanged by a second call.
  pub normalize_address_idem :
      (addr addr' : Str)
      → normalize_address net addr ≡ ok addr'
      → (host port : Str) × ((net.split_host_port addr' ≡ some (host, port))
          × (is_wildcard host ≡ false)
          × (port ≢ [])
          × (normalize_address net addr' ≡ ok addr'))
  unfolding join_routable routable_host
  normalize_address_idem addr addr' e =
      let n = normalized addr addr' e in
      let (plain, port_ok) = known.parts addr n.host n.port n.split in
      let (bare, good) = routable_host-IsHost n.host n.ip plain n.found in
      let same : net.join_host_port n.ip n.port ≡ addr' =
        ap (λ h. net.join_host_port h n.port) (sym (trim_plain n.ip bare)) ∙ n.made in
      let again : net.split_host_port addr' ≡ some (n.ip, n.port) =
        ap net.split_host_port (sym same) ∙ known.joined n.ip n.port bare port_ok in
      (
        n.ip,
        n.port,
        (
          again,
          good,
          (λ k. true_false (sym (ap (is_missing net) k) ∙ n.present)),
          normalize_answer addr' n.ip n.port again n.present
              ∙ ap (join_routable net n.port) (kept n.ip good)
              ∙ ap ok n.made,
        ),
      )
    where
      kept : (h : Str) → is_wildcard h ≡ false → routable_host net h ≡ ok h
      kept h good = ground arith

      true_false : ◌≡◌ {A = Bool} true false → ⊥
      true_false k = cc
