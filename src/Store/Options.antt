-- ===== src/Store/Options.antt =====
-- store/store.go: the options of a store. Every int, int64 and time.Duration is its 64-bit pattern.
use locache.Base.{ℕ, ◌*◌, ◌^◌, Bool, false}
use locache.Base.Str.{Str}

-- `CacheType` is a string type; these are its two constants and any other text.
pub data CacheType : Type 0 where
  lru : CacheType
  sharded_lru : CacheType
  other : Str → CacheType

-- `on_evicted` says whether a callback is installed: what it is called with is recorded by the
-- store.
pub record Options : Type 0 where
  pub max_bytes : ℕ
  pub shard_count : ℕ
  pub cleanup_interval : ℕ
  pub on_evicted : Bool

-- time.Minute, in nanoseconds.
abbrev pub minute : ℕ
minute = 60 * 10 ^ 9

unfoldable pub new_options : Options
new_options = record {
  max_bytes = 8 * 2 ^ 20;
  shard_count = 16;
  cleanup_interval = minute;
  on_evicted = false;
}
