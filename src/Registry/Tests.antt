-- ===== src/Registry/Tests.antt =====
-- Names of nodes under a simple package net, and the theorems there.
use locache.Base.{
  ℕ, ◌≡◌, ◌≢◌, inl, inr, refl, sym, ap, subst, ◌∙◌, Option, none, some, List, [], ◌∷◌, ◌++◌, Bool,
  true, false, not, ◌&&◌, ◌==◌, if◌then◌else◌, arith, All, Bool-cases,
}
use locache.Base.Str.{Str, str_dec}
use locache.Registry.{
  Result, ok, Net, InterfaceAddr, normalize_address, routable_host, join_routable, get_local_ip,
  first_routable, is_wildcard, is_bracket, trim, trim_left, trim_right,
}
use locache.Registry.Laws
use locache.Registry.Laws.{IsPlain, IsPort, IsHost, IsNet}

-- A text at its last colon.
abbrev last_step : ℕ → Str → Option (Str × Str) → Option (Str × Str)
last_step c s (some (h, p)) = some (c ∷ h, p)
last_step c s none = if c == b':' then some ([], s) else none

split_last : Str → Option (Str × Str)
split_last [] = none
split_last (c ∷ s) = last_step c s (split_last s)

all_plain : Str → Bool
all_plain [] = true
all_plain (c ∷ s) = not (is_bracket c) && all_plain s

split : Str → Option (Str × Str)
split s = if all_plain s then split_last s else none

join : Str → Str → Str
join h p = h ++ (b':' ∷ p)

net : Net
net = record {
  split_host_port = split;
  join_host_port = join;
  interface_addrs =
      ok (record { is_ip_net = true; is_loopback = false; to4 = some (b'1' ∷ []) } ∷ []);
}

abbrev NoColon : Str → Type 0
NoColon s = All (λ c. c ≢ b':') s

NoColon-split : (s : Str) → NoColon s → split_last s ≡ none
unfolding split_last
NoColon-split [] h = refl
NoColon-split (c ∷ s) h = ground (arith, NoColon-split s h.1, h.0)

split-NoColon : (s : Str) → split_last s ≡ none → NoColon s
unfolding split_last
split-NoColon [] e = tt
split-NoColon (c ∷ s) e = go (split_last s) (split-NoColon s) e
  where
    go :
        (o : Option (Str × Str)) → (o ≡ none → NoColon s) → last_step c s o ≡ none → NoColon (c ∷ s)
    go none ih k = ((λ colon. ground arith), ih refl)
    go (some (h, p)) ih k = absurd (ground arith)

all_plain_sound : (s : Str) → all_plain s ≡ true → IsPlain s
unfolding all_plain
all_plain_sound [] e = tt
all_plain_sound (c ∷ s) e = (ground arith, all_plain_sound s (ground arith))

all_plain_append : (s t : Str) → IsPlain s → IsPlain t → all_plain (s ++ t) ≡ true
unfolding all_plain
all_plain_append [] [] h k = refl
all_plain_append [] (c ∷ t) h k = ground (arith, all_plain_append [] t tt k.1, k.0)
all_plain_append (c ∷ s) t h k = ground (arith, all_plain_append s t h.1 k, h.0)

pair_inj : {x y : Str × Str} → ◌≡◌ {A = Option (Str × Str)} (some x) (some y) → x ≡ y
pair_inj e = cc

split_parts :
    (s h p : Str) → IsPlain s → split_last s ≡ some (h, p) → IsPlain h × (NoColon p × IsPlain p)
unfolding split_last
split_parts [] h p plain e = absurd (ground arith)
split_parts (c ∷ s) h p plain e =
    go (split_last s) (split-NoColon s) (λ x y. split_parts s x y plain.1) e
  where
    go :
        (o : Option (Str × Str))
        → (o ≡ none → NoColon s)
        → ((x y : Str) → o ≡ some (x, y) → IsPlain x × (NoColon y × IsPlain y))
        → last_step c s o ≡ some (h, p)
        → IsPlain h × (NoColon p × IsPlain p)
    go (some (x, y)) absent ih k =
        let parts = ih x y refl in
        subst (λ (q : Str × Str). IsPlain q.0 × (NoColon q.1 × IsPlain q.1)) (pair_inj k)
          ((plain.0, parts.0), parts.1)
    go none absent ih k = elim (Bool-cases (c == b':')) [
      | inl colon ↦
          subst (λ (q : Str × Str). IsPlain q.0 × (NoColon q.1 × IsPlain q.1))
            (pair_inj (sym (ap (λ b. if b then some ([], s) else none) colon) ∙ k))
            (tt, (absent refl, plain.1))
      | inr other ↦ absurd (ground arith)
    ]

split_join : (h p : Str) → NoColon p → split_last (h ++ (b':' ∷ p)) ≡ some (h, p)
unfolding split_last
split_join [] p k = ground (arith, NoColon-split p k)
split_join (c ∷ h) p k = ground (arith, split_join h p k)

abbrev Specified : InterfaceAddr → Type 0
Specified a = (ip : Str) → a.to4 ≡ some ip → IsHost ip

abbrev own : InterfaceAddr
own = record { is_ip_net = true; is_loopback = false; to4 = some (b'1' ∷ []) }

own-Specified : Specified own
unfolding is_wildcard str_dec
own-Specified ip e = subst IsHost (text_inj e) ((refl, tt), refl)
  where
    text_inj : {x y : Str} → ◌≡◌ {A = Option Str} (some x) (some y) → x ≡ y
    text_inj k = cc

ok_inj : {x y : List InterfaceAddr} → ◌≡◌ {A = Result (List InterfaceAddr)} (ok x) (ok y) → x ≡ y
ok_inj e = cc

net-IsNet : IsNet net
unfolding net split join is_wildcard str_dec
net-IsNet = record {
  parts = λ addr host port e. elim (Bool-cases (all_plain addr)) [
    | inl plain ↦
        split_parts addr host port (all_plain_sound addr plain)
          (sym (ap (λ b. if b then split_last addr else none) plain) ∙ e)
    | inr other ↦ absurd (ground arith)
  ];
  joined = λ host port h k.
      ap (λ b. if b then split_last (host ++ (b':' ∷ port)) else none)
        (all_plain_append host (b':' ∷ port) h (refl, k.1))
      ∙ split_join host port k.0;
  specified = λ l e. subst (All Specified) (ok_inj e) (own-Specified, tt);
}

normalize_address_idem_example :
    (host port : Str) × ((split (b'1' ∷ b':' ∷ b'8' ∷ []) ≡ some (host, port))
      × (is_wildcard host ≡ false)
      × (port ≢ [])
      × (normalize_address net (b'1' ∷ b':' ∷ b'8' ∷ []) ≡ ok (b'1' ∷ b':' ∷ b'8' ∷ [])))
unfolding net split join split_last all_plain normalize_address routable_host join_routable
    get_local_ip first_routable is_wildcard trim trim_left trim_right str_dec
normalize_address_idem_example =
    Laws.normalize_address_idem net net-IsNet (b':' ∷ b'8' ∷ []) (b'1' ∷ b':' ∷ b'8' ∷ []) refl
