-- ===== src/Store/Lru.antt =====
-- store/lru.go: the single-lock LRU. A method holds `mu` from its first access to its last, so it
-- is one function from state to state; what `time.Now` returns is an argument, one for each call.
-- Instants are nanoseconds that do not wrap.
pub mod Elems
pub mod Spec
pub mod Invariant
pub mod Reads
pub mod Evict
pub mod Writes
pub mod Runs
pub mod Promises
pub mod Callbacks
use locache.Base.{
  ℕ, zero, suc, ◌+◌, ◌-◌, ◌^◌, Option, none, some, List, [], ◌∷◌, ◌++◌, Bool, true, false, ◌&&◌,
  ltb, leb, if◌then◌else◌, length,
}
use locache.Base.Words.{add64, sub64, gt64}
use locache.Base.Str.{Str}
use locache.Base.Map.{Map, lookup, insert, delete}
use locache.Store.Options.{Options, minute}
use Elems.{Elem, find_ref, remove_ref, move_to_back, set_value}
use Prim.Native.Nat.{min}

-- `items` holds pointers to list elements: an element is known by its number `ref`, and
-- `next_ref` is the number of the next allocation. `log` lists the calls of `onEvicted` so far.
pub record Lru (V : Type 0) : Type 0 where
  pub list : List (Elem V)
  pub items : Map ℕ
  pub expires : Map ℕ
  pub max_bytes : ℕ
  pub used_bytes : ℕ
  pub on_evicted : Bool
  pub log : List (Str × V)
  pub cleanup_interval : ℕ
  pub has_ticker : Bool
  pub closed : Bool
  pub next_ref : ℕ

unfoldable pub default_interval : ℕ → ℕ
default_interval d = if gt64 d 0 then d else minute

unfoldable pub new_lru_internal : {V : Type 0} → Options → Bool → Lru V
new_lru_internal opts start_cleanup = record {
  list = [];
  items = [];
  expires = [];
  max_bytes = opts.max_bytes;
  used_bytes = 0;
  on_evicted = opts.on_evicted;
  log = [];
  cleanup_interval = default_interval opts.cleanup_interval;
  has_ticker = start_cleanup;
  closed = false;
  next_ref = 0;
}

unfoldable pub new_lru : {V : Type 0} → Options → Lru V
new_lru opts = new_lru_internal opts true

-- `!now.Before(exp)` for an instant of the map `expires`.
abbrev pub is_past : ℕ → Option ℕ → Bool
is_past now none = false
is_past now (some exp) = leb exp now

-- `size` is the method `Len` of the interface `Value`.
module _ {V : Type 0} (size : V → ℕ) where
  -- `c.items[key]`, and the element that the pointer leads to.
  unfoldable pub find_elem : Str → Lru V → Option (Elem V)
  find_elem key c = elim (lookup key c.items) [ none ↦ none | some r ↦ find_ref r c.list ]

  unfoldable pub elem_size : Elem V → ℕ
  elem_size e = length e.key + size e.value

  unfoldable pub remove_element : Elem V → Lru V → Lru V
  remove_element e c = record c {
    list = remove_ref e.ref c.list;
    items = delete e.key c.items;
    expires = delete e.key c.expires;
    used_bytes = sub64 c.used_bytes (elem_size e);
    log = if c.on_evicted then c.log ++ (e.key, e.value) ∷ [] else c.log;
  }

  unfoldable pub get : Str → ℕ → Lru V → Lru V × Option V
  get key now c = elim (find_elem key c) [
    | none ↦ (c, none)
    | some e ↦
        if is_past now (lookup key c.expires)
        then (remove_element e c, none)
        else (record c { list = move_to_back e.ref c.list }, some e.value)
  ]

  -- The remaining lifetime is `exp.Sub(now)`, which saturates, and 0 without a deadline.
  unfoldable pub get_with_expiration : Str → ℕ → Lru V → Lru V × Option (V × ℕ)
  get_with_expiration key now c = elim (find_elem key c) [
    | none ↦ (c, none)
    | some e ↦ elim (lookup key c.expires) [
      | none ↦ (record c { list = move_to_back e.ref c.list }, some (e.value, 0))
      | some exp ↦ if leb exp now then (remove_element e c, none) else (
        record c { list = move_to_back e.ref c.list },
        some (e.value, min (exp - now) (2 ^ 63 - 1)),
      )
    ]
  ]

  unfoldable pub delete_key : Str → Lru V → Lru V × Bool
  delete_key key c = elim (find_elem key c) [
    | none ↦ (c, false)
    | some e ↦ (remove_element e c, true)
  ]

  -- The first loop of `evictLocked`, over the entries of `expires` that the range yields.
  unfoldable pub sweep : ℕ → Map ℕ → Lru V → Lru V
  sweep now [] c = c
  sweep now ((key, exp) ∷ rest) c =
      sweep now rest (
        if leb exp now
        then elim (find_elem key c) [ none ↦ c | some e ↦ remove_element e c ]
        else c)

  -- The test of the second loop, but for its last part.
  unfoldable pub over_budget : Lru V → Bool
  over_budget c = gt64 c.max_bytes 0 && gt64 c.used_bytes c.max_bytes

  -- The second loop: each round removes the front element. The fuel is the number of elements.
  unfoldable pub evict_front : ℕ → Lru V → Lru V
  evict_front zero c = c
  evict_front (suc n) c = elim c.list [
    | [] ↦ c
    | e ∷ _ ↦ elim (over_budget c) [ true ↦ evict_front n (remove_element e c) | false ↦ c ]
  ]

  unfoldable pub evict_locked : ℕ → Lru V → Lru V
  evict_locked now c = let swept = sweep now c.expires c in evict_front (length swept.list) swept

  abbrev pub cleanup_expired : ℕ → Lru V → Lru V
  cleanup_expired = evict_locked

  -- The deadline of `SetWithExpiration`, before the entry is touched.
  unfoldable pub with_deadline : Str → ℕ → ℕ → Lru V → Lru V
  with_deadline key expiration now c =
      if gt64 expiration 0
      then record c { expires = insert key (now + expiration) c.expires }
      else record c { expires = delete key c.expires }

  unfoldable pub store_value : Str → V → Lru V → Lru V
  store_value key value c = elim (find_elem key c) [
    | some e ↦ record c {
      used_bytes = add64 c.used_bytes (sub64 (size value) (size e.value));
      list = move_to_back e.ref (set_value e.ref value c.list);
    }
    | none ↦ record c {
      list = c.list ++ record { ref = c.next_ref; key = key; value = value } ∷ [];
      items = insert key c.next_ref c.items;
      used_bytes = add64 c.used_bytes (length key + size value);
      next_ref = suc c.next_ref;
    }
  ]

  -- `value` is nil where it is `none`. The clock is read for the deadline, and again to evict.
  unfoldable pub set_with_expiration : Str → Option V → ℕ → ℕ → ℕ → Lru V → Lru V
  set_with_expiration key none expiration now later c = (delete_key key c).0
  set_with_expiration key (some value) expiration now later c =
      evict_locked later (store_value key value (with_deadline key expiration now c))

  unfoldable pub set : Str → Option V → ℕ → ℕ → Lru V → Lru V
  set key value now later c = set_with_expiration key value 0 now later c

  -- The calls that `Clear` makes, one for each entry of `items`.
  unfoldable pub clear_calls : Map ℕ → Lru V → List (Str × V)
  clear_calls [] c = []
  clear_calls ((key, r) ∷ rest) c =
      let calls = clear_calls rest c in
      elim (find_ref r c.list) [ none ↦ calls | some e ↦ (e.key, e.value) ∷ calls ]

  unfoldable pub clear : Lru V → Lru V
  clear c = record c {
    list = [];
    items = [];
    expires = [];
    used_bytes = 0;
    log = if c.on_evicted then c.log ++ clear_calls c.items c else c.log;
  }

  unfoldable pub len : Lru V → ℕ
  len c = length c.list

  -- `closeOnce` makes later calls do nothing.
  unfoldable pub close : Lru V → Lru V
  close c = if c.closed then c else record c { has_ticker = false; closed = true }
