-- ===== src/Registry.antt =====
-- registry/register.go: the names of nodes and of their keys in etcd, and the life of a registration.
-- The functions of package net and the etcd client are parameters.
pub mod Laws
pub mod Registration
mod Tests
use locache.Base.{
  ℕ, zero, suc, Option, none, some, List, [], ◌∷◌, ◌++◌, Bool, true, false, not, ◌&&◌, ◌||◌, ◌==◌,
  if◌then◌else◌, ite,
}
use locache.Base.Words.{gt64}
use locache.Base.Str.{Str, str_dec}

-- `other_error` is an error that a library returned.
pub data Error : Type 0 where
  invalid_address missing_port no_routable nil_client : Error
  grant_error put_error keep_alive_error other_error : Str → Error

pub data Result {ℓ} (A : Type ℓ) : Type ℓ where
  ok : A → Result A
  err : Error → Result A

-- "/services/".
abbrev services : Str
services = b'/' ∷ b's' ∷ b'e' ∷ b'r' ∷ b'v' ∷ b'i' ∷ b'c' ∷ b'e' ∷ b's' ∷ b'/' ∷ []

unfoldable pub service_prefix : Str → Str
service_prefix svc_name = services ++ (svc_name ++ (b'/' ∷ []))

unfoldable pub service_key : Str → Str → Str
service_key svc_name addr = service_prefix svc_name ++ addr

-- An address of an interface: its type and whether it is a loopback, and its form as an IPv4 address.
pub record InterfaceAddr : Type 0 where
  pub is_ip_net : Bool
  pub is_loopback : Bool
  pub to4 : Option Str

-- The loop of `GetLocalIP`.
unfoldable pub first_routable : List InterfaceAddr → Result Str
first_routable [] = err no_routable
first_routable (a ∷ rest) = elim (a.is_ip_net && not a.is_loopback) [
  | false ↦ first_routable rest
  | true ↦ elim a.to4 [ none ↦ first_routable rest | some ip ↦ ok ip ]
]

-- strings.Trim with the set "[]".
abbrev pub is_bracket : ℕ → Bool
is_bracket c = (c == b'[') || (c == b']')

unfoldable pub trim_left : Str → Str
trim_left [] = []
trim_left (c ∷ s) = elim (is_bracket c) [ true ↦ trim_left s | false ↦ c ∷ s ]

unfoldable pub trim_right : Str → Str
trim_right [] = []
trim_right (c ∷ s) = elim (trim_right s) [
  | [] ↦ if is_bracket c then [] else c ∷ []
  | d ∷ t ↦ c ∷ d ∷ t
]

unfoldable pub trim : Str → Str
trim s = trim_right (trim_left s)

abbrev is_text : Str → Str → Bool
is_text s t = ite (str_dec s t) true false

-- "", "0.0.0.0", "::" and "[::]".
unfoldable pub is_wildcard : Str → Bool
is_wildcard host =
    is_text host []
    || (is_text host (b'0' ∷ b'.' ∷ b'0' ∷ b'.' ∷ b'0' ∷ b'.' ∷ b'0' ∷ [])
        || (is_text host (b':' ∷ b':' ∷ []) || is_text host (b'[' ∷ b':' ∷ b':' ∷ b']' ∷ [])))

-- Package net: `SplitHostPort`, with no result where it fails, `JoinHostPort` and `InterfaceAddrs`.
pub record Net : Type 0 where
  pub split_host_port : Str → Option (Str × Str)
  pub join_host_port : Str → Str → Str
  pub interface_addrs : Result (List InterfaceAddr)

module _ (net : Net) where
  unfoldable pub get_local_ip : Result Str
  get_local_ip = elim net.interface_addrs [ err e ↦ err e | ok addrs ↦ first_routable addrs ]

  unfoldable pub routable_host : Str → Result Str
  routable_host host = if is_wildcard host then get_local_ip else ok host

  abbrev is_missing : Str → Bool
  is_missing [] = true
  is_missing (c ∷ s) = false

  unfoldable pub join_routable : Str → Result Str → Result Str
  join_routable port (err e) = err e
  join_routable port (ok host) = ok (net.join_host_port (trim host) port)

  unfoldable pub normalize_address : Str → Result Str
  normalize_address addr = elim (net.split_host_port addr) [
    | none ↦ err invalid_address
    | some (host, port) ↦
        if is_missing port then err missing_port else join_routable port (routable_host host)
  ]
