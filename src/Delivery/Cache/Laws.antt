-- ===== src/Delivery/Cache/Laws.antt =====
-- What the cache holds after an insert.
use sintade.Prelude.{
  ℕ, ◌+◌, ◌≤◌, ◌<◌, ◌≡◌, refl, subst, Bool, true, false, not, ◌&&◌, ◌||◌, List, All, All-map,
  All-filter, Option-cases, [], ◌∷◌, none, some, ltb, leb, if◌then◌else◌, arith, any, filter, find,
  length, delete_where, Bool-cases, inl, inr,
}
use sintade.Delivery.Cache.{IsEquality, Entry, TtlCache, has_key, is_live, get, make_room, insert}
use sintade.Delivery.Cache.Room.{clash, differs_at, length-insert}

module _ {K V : Type 0} (same : K → K → Bool) (keys : IsEquality same) where
  -- Inserts, each of a key and a value at a time, one after the other.
  abbrev pub insert_all : List (K × V × ℕ) → TtlCache K V → TtlCache K V
  insert_all [] cache = cache
  insert_all ((key, value, now) ∷ later) cache = insert_all later (insert same key value now cache)

  -- The insert does not clear the cache: its key is there, or there are fewer live entries than
  -- the capacity.
  abbrev pub finds_room : K → ℕ → TtlCache K V → Bool
  finds_room key now cache =
      any (has_key same key) cache.entries
      || not (leb cache.capacity (length (filter (is_live now) cache.entries)))

  -- Inserts of other keys, none later than `until`, none of which clears the cache.
  abbrev pub SparesKey : K → (until : ℕ) → List (K × V × ℕ) → TtlCache K V → Type 0
  SparesKey key until [] cache = Unit
  SparesKey key until ((other, value, now) ∷ later) cache =
      (same other key ≡ false)
      × (now ≤ until)
      × (finds_room other now cache ≡ true)
      × SparesKey key until later (insert same other value now cache)

  -- Every entry of the key has the value and the expiry, and there is one until then.
  abbrev Holds : K → V → (expiry until : ℕ) → List (Entry K V) → Type 0
  Holds key value expiry until es =
      All (λ e. has_key same key e ≡ true → (e.value ≡ value) × (e.expires_at ≡ expiry)) es
      × (ltb until expiry ≡ true → any (has_key same key) es ≡ true)

  any-filter :
      (q p : Entry K V → Bool) (es : List (Entry K V))
      → All (λ e. q e ≡ true → p e ≡ true) es
      → any q es ≡ true
      → any q (filter p es) ≡ true
  any-filter q p [] h k = k
  any-filter q p (e ∷ es) h k = elim (Bool-cases (q e)) [
    | inl mine ↦ rw (h.0 mine) (rw mine refl)
    | inr other ↦
        let rest = any-filter q p es h.1 (rw other at k) in
        elim (Bool-cases (p e)) [ inl kept ↦ rw kept (rw other rest) | inr gone ↦ rw gone rest ]
  ]

  filter-Holds :
      (key : K) (value : V) (expiry until : ℕ) (p : Entry K V → Bool) (es : List (Entry K V))
      → ((e : Entry K V)
          → has_key same key e ≡ true
          → e.expires_at ≡ expiry
          → ltb until expiry ≡ true
          → p e ≡ true)
      → Holds key value expiry until es
      → Holds key value expiry until (filter p es)
  filter-Holds key value expiry until p es kept (entries, there) = (
    All-filter _ p es entries,
    (λ u.
        any-filter (has_key same key) p es
          (All-map _ _ (λ e k mine. kept e mine (k mine).1 u) es entries) (there u)),
  )

  room-Holds :
      (key other : K) (value : V) (now expiry until : ℕ) (cache : TtlCache K V)
      → now ≤ until
      → finds_room other now cache ≡ true
      → Holds key value expiry until cache.entries
      → Holds key value expiry until (make_room same other now cache)
  unfolding make_room
  room-Holds key other value now expiry until cache early room h =
      elim (Bool-cases (
        leb cache.capacity (length cache.entries)
        && not (any (has_key same other) cache.entries))) [
          | inr has_room ↦ rw has_room h
          | inl full ↦
              let absent : any (has_key same other) cache.entries ≡ false = ground arith in
              let some_dead : leb cache.capacity (length (filter (is_live now) cache.entries))
                  ≡ false =
                not_full _ (rw absent at room) in
              rw (full, some_dead)
                (filter-Holds key value expiry until (is_live now) cache.entries
                  (λ e mine same_expiry u. ground arith) h)
        ]
    where
      not_full : (b : Bool) → not b ≡ true → b ≡ false
      not_full false k = refl
      not_full true k = cc

  insert-Holds :
      (key other : K) (value new : V) (now expiry until : ℕ) (cache : TtlCache K V)
      → same other key ≡ false
      → now ≤ until
      → finds_room other now cache ≡ true
      → Holds key value expiry until cache.entries
      → Holds key value expiry until (insert same other new now cache).entries
  unfolding insert
  insert-Holds key other value new now expiry until cache differs early room h =
      let kept =
        filter-Holds key value expiry until (λ e. not (has_key same other e))
          (make_room same other now cache)
          (λ e mine _ _. rw (differs_at same keys e.key key other mine differs) refl)
          (room-Holds key other value now expiry until cache early room h) in
      ((λ mine. absurd (clash mine differs), kept.0), (λ u. rw differs (kept.1 u)))

  get-Holds :
      (key : K) (value : V) (expiry until : ℕ) (cache : TtlCache K V)
      → Holds key value expiry until cache.entries
      → get same key until cache ≡ (if ltb until expiry then some value else none)
  unfolding get
  get-Holds key value expiry until cache (entries, there) =
      elim (Option-cases (find (has_key same key) cache.entries)) [
        | inl missing ↦ elim (Bool-cases (ltb until expiry)) [
          | inr over ↦ rw (missing, over) refl
          | inl in_time ↦ absurd (none_there cache.entries missing (there in_time))
        ]
        | inr (e, found) ↦
            let (v, x) = found_all cache.entries e entries found in rw (found, x, v) refl
      ]
    where
      none_there :
          (es : List (Entry K V))
          → find (has_key same key) es ≡ none
          → any (has_key same key) es ≡ true
          → ⊥
      none_there [] p q = cc
      none_there (e ∷ es) p q = elim (Bool-cases (has_key same key e)) [
        | inl mine ↦ cc (rw mine at p)
        | inr other ↦ none_there es (rw other at p) (rw other at q)
      ]

      found_all :
          (es : List (Entry K V)) (e : Entry K V)
          → All (λ e. has_key same key e ≡ true → (e.value ≡ value) × (e.expires_at ≡ expiry)) es
          → find (has_key same key) es ≡ some e
          → (e.value ≡ value) × (e.expires_at ≡ expiry)
      found_all [] e h p = absurd (cc)
      found_all (x ∷ es) e h p = elim (Bool-cases (has_key same key x)) [
        | inr other ↦ found_all es e h.1 (rw other at p)
        | inl mine ↦
            let here : x ≡ e = cc (rw mine at p) in
            subst (λ y. (y.value ≡ value) × (y.expires_at ≡ expiry)) here (h.0 mine)
      ]

  inserts-Holds :
      (key : K) (value : V) (expiry until : ℕ) (later : List (K × V × ℕ)) (cache : TtlCache K V)
      → SparesKey key until later cache
      → Holds key value expiry until cache.entries
      → Holds key value expiry until (insert_all later cache).entries
  inserts-Holds key value expiry until [] cache spares h = h
  inserts-Holds key value expiry until ((other, new, now) ∷ later) cache
        (differs, early, room, spares) h =
      inserts-Holds key value expiry until later (insert same other new now cache) spares
        (insert-Holds key other value new now expiry until cache differs early room h)

  length-insert_all :
      (later : List (K × V × ℕ)) (cache : TtlCache K V)
      → 0 < cache.capacity
      → length cache.entries ≤ cache.capacity
      → length (insert_all later cache).entries ≤ cache.capacity
  unfolding insert
  length-insert_all [] cache pos within = within
  length-insert_all ((key, value, now) ∷ later) cache pos within =
      length-insert_all later (insert same key value now cache) pos
        (length-insert same keys key value now cache pos within)

  new-Holds :
      (key : K) (value : V) (now until : ℕ) (cache : TtlCache K V)
      → Holds key value (now + cache.ttl_s) until (insert same key value now cache).entries
  unfolding insert
  new-Holds key value now until cache = (
    ((λ _. (refl, refl)), no_other (make_room same key now cache)),
    (λ _. rw (keys.self key) refl),
  )
    where
      no_other :
          (es : List (Entry K V))
          → All
              (λ e.
                has_key same key e ≡ true → (e.value ≡ value) × (e.expires_at ≡ now + cache.ttl_s))
              (delete_where (has_key same key) es)
      no_other [] = tt
      no_other (e ∷ es) = elim (Bool-cases (has_key same key e)) [
        | inl mine ↦ rw mine (no_other es)
        | inr other ↦ rw other ((λ mine. absurd (clash mine other)), no_other es)
      ]

  -- A cache within its capacity, which is not zero, stays within it over any inserts. A value that
  -- is inserted is served until its time is over, and not from then on, over all later inserts of
  -- other keys that do not clear the cache: an insert of a new key that finds as many live entries
  -- as the capacity clears it.
  pub get-insert_all :
      (key : K) (value : V) (now until : ℕ) (cache : TtlCache K V) (later : List (K × V × ℕ))
      → 0 < cache.capacity
      → length cache.entries ≤ cache.capacity
      → SparesKey key until later (insert same key value now cache)
      → (length (insert_all later (insert same key value now cache)).entries ≤ cache.capacity)
        × (get same key until (insert_all later (insert same key value now cache))
            ≡ (if ltb until (now + cache.ttl_s) then some value else none))
  unfolding insert
  get-insert_all key value now until cache later pos within spares = (
    length-insert_all later (insert same key value now cache) pos
        (length-insert same keys key value now cache pos within),
    get-Holds key value (now + cache.ttl_s) until
        (insert_all later (insert same key value now cache))
        (inserts-Holds key value (now + cache.ttl_s) until later (insert same key value now cache)
          spares (new-Holds key value now until cache)),
  )
