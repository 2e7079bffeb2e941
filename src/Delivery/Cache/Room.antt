-- ===== src/Delivery/Cache/Room.antt =====
-- An insert makes room for its entry (`insert` of crates/delivery/src/cache.rs).
use sintade.Prelude.{
  ℕ, suc, ◌≤◌, ◌<◌, ◌≡◌, ◌⊎◌, refl, sym, subst, Bool, true, false, not, List, [], ◌∷◌, leb, arith,
  any, filter, length, length-filter-le, delete_where, Bool-cases, inl, inr,
}
use sintade.Delivery.Cache.{IsEquality, Entry, TtlCache, has_key, is_live, make_room, insert}

pub clash : {b : Bool} → b ≡ true → b ≡ false → ⊥
clash p q = cc

module _ {K : Type 0} (same : K → K → Bool) (keys : IsEquality same) where
  differs_sym : (a b : K) → same b a ≡ false → same a b ≡ false
  differs_sym a b h = elim (Bool-cases (same a b)) [
    | inr e ↦ e
    | inl e ↦
        let both : same b a ≡ true =
          subst (λ c. same c a ≡ true) (keys.sound a b e) (keys.self a) in
        cc
  ]

  pub differs_at :
      (a key other : K) → same a key ≡ true → same other key ≡ false → same a other ≡ false
  differs_at a key other e h =
      differs_sym a other (subst (λ c. same other c ≡ false) (sym (keys.sound a key e)) h)

module _ {K V : Type 0} (same : K → K → Bool) (keys : IsEquality same) where
  length-delete_present :
      (key : K) (es : List (Entry K V))
      → any (has_key same key) es ≡ true
      → suc (length (delete_where (has_key same key) es)) ≤ length es
  length-delete_present key [] h = absurd (cc)
  length-delete_present key (e ∷ es) h = elim (Bool-cases (has_key same key e)) [
    | inl mine ↦
        rw mine (let fewer = length-filter-le (λ x. not (has_key same key x)) es in omega arith)
    | inr other ↦ rw other (let rest = length-delete_present key es (ground arith) in omega arith)
  ]

  -- The entries that an insert adds to: all of them, or fewer than the capacity.
  room_cases :
      (key : K) (now : ℕ) (cache : TtlCache K V)
      → 0 < cache.capacity
      → length cache.entries ≤ cache.capacity
      → ((any (has_key same key) cache.entries ≡ true)
          × (make_room same key now cache ≡ cache.entries))
        ⊎ (length (make_room same key now cache) < cache.capacity)
  unfolding make_room
  room_cases key now cache pos within = elim (Bool-cases (any (has_key same key) cache.entries)) [
    | inl present ↦ elim (Bool-cases (leb cache.capacity (length cache.entries))) [
      | inl full ↦ inl (present, rw (present, full) refl)
      | inr has_room ↦ inl (present, rw (present, has_room) refl)
    ]
    | inr absent ↦ elim (Bool-cases (leb cache.capacity (length cache.entries))) [
      | inr has_room ↦ inr (rw (absent, has_room) (ground arith))
      | inl full ↦
          elim (Bool-cases (leb cache.capacity (length (filter (is_live now) cache.entries)))) [
            | inl all_live ↦ inr (rw (absent, full, all_live) pos)
            | inr some_expired ↦ inr (rw (absent, full, some_expired) (ground arith))
          ]
    ]
  ]

  -- A cache within its capacity, which is not zero, stays within it.
  pub length-insert :
      (key : K) (value : V) (now : ℕ) (cache : TtlCache K V)
      → 0 < cache.capacity
      → length cache.entries ≤ cache.capacity
      → length (insert same key value now cache).entries ≤ cache.capacity
  unfolding insert
  length-insert key value now cache pos within = elim (room_cases key now cache pos within) [
    | inl (present, same) ↦
        rw same (let fewer = length-delete_present key cache.entries present in omega arith)
    | inr fewer ↦
        let kept =
          length-filter-le (λ e. not (has_key same key e)) (make_room same key now cache) in
        omega arith
  ]
