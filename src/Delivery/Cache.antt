-- ===== src/Delivery/Cache.antt =====
-- The cache of the playback path (crates/delivery/src/cache.rs). The map is a list with one entry
-- for each key, and `same` is the equality of the keys. Times are numbers of seconds.
pub mod Room
pub mod Laws
mod Examples
use sintade.Prelude.{
  ℕ, ◌+◌, ◌≡◌, Bool, true, false, not, ◌&&◌, List, [], ◌∷◌, Option, none, some, ltb, leb,
  if◌then◌else◌, any, filter, find, length, delete_where,
}

pub record Entry (K V : Type 0) : Type 0 where
  pub key : K
  pub value : V
  pub expires_at : ℕ

pub record TtlCache (K V : Type 0) : Type 0 where
  pub entries : List (Entry K V)
  pub ttl_s : ℕ
  pub capacity : ℕ

-- What the map asks of the equality of its keys.
pub record IsEquality {K : Type 0} (same : K → K → Bool) : Type 0 where
  pub sound : (a b : K) → same a b ≡ true → a ≡ b
  pub self : (a : K) → same a a ≡ true

unfoldable pub new : {K V : Type 0} → ℕ → ℕ → TtlCache K V
new ttl_s capacity = record { entries = []; ttl_s = ttl_s; capacity = capacity }

abbrev pub is_live : {K V : Type 0} → ℕ → Entry K V → Bool
is_live now e = ltb now e.expires_at

-- `filter(expires_at > now)`, and the value.
abbrev pub live_value : {K V : Type 0} → ℕ → Option (Entry K V) → Option V
live_value now none = none
live_value now (some e) = if is_live now e then some e.value else none

module _ {K V : Type 0} (same : K → K → Bool) where
  abbrev pub has_key : K → Entry K V → Bool
  has_key key e = same e.key key

  unfoldable pub get : K → ℕ → TtlCache K V → Option V
  get key now cache = live_value now (find (has_key key) cache.entries)

  -- What is left of the entries where a new key finds the cache full.
  unfoldable pub make_room : K → ℕ → TtlCache K V → List (Entry K V)
  make_room key now cache =
      let live = filter (is_live now) cache.entries in
      if leb cache.capacity (length cache.entries) && not (any (has_key key) cache.entries)
      then (if leb cache.capacity (length live) then [] else live)
      else cache.entries

  unfoldable pub insert : K → V → ℕ → TtlCache K V → TtlCache K V
  unfolding make_room
  insert key value now cache = record cache {
    entries =
        record { key = key; value = value; expires_at = now + cache.ttl_s }
        ∷ delete_where (has_key key) (make_room key now cache);
  }
