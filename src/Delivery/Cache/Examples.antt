-- ===== src/Delivery/Cache/Examples.antt =====
-- A cache of two entries that live for thirty seconds.
use sintade.Prelude.{
  ℕ, ◌+◌, ◌≤◌, ◌≡◌, refl, [], ◌∷◌, none, some, if◌then◌else◌, ltb, ◌==◌, ==_iff, ==_refl, length,
  arith,
}
use sintade.Delivery.Cache.{TtlCache, IsEquality, new, get, insert}
use sintade.Delivery.Cache.Laws.{insert_all, SparesKey, get-insert_all}

abbrev one_entry : TtlCache ℕ ℕ
one_entry = record {
  entries = record { key = 1; value = 10; expires_at = 130 } ∷ [];
  ttl_s = 30;
  capacity = 2;
}

abbrev full : TtlCache ℕ ℕ
full = insert ◌==◌ 3 30 131 (insert ◌==◌ 2 20 125 (insert ◌==◌ 1 10 100 (new 30 2)))

number_keys : IsEquality ◌==◌
number_keys = record { sound = λ a b h. (==_iff a b).0 h; self = ==_refl }

expired_goes_first :
    (get ◌==◌ 1 131 full ≡ none) × (get ◌==◌ 2 131 full ≡ some 20) × (get ◌==◌ 3 131 full ≡ some 30)
unfolding get insert new
expired_goes_first = (refl, refl, refl)

abbrev inserted : TtlCache ℕ ℕ
inserted = insert ◌==◌ 2 20 125 one_entry

-- The insert at 131 finds the entry of 100 expired, and makes room; one at 129 would clear it.
spared : SparesKey ◌==◌ number_keys 2 140 ((3, 30, 131) ∷ []) inserted
unfolding insert
spared = (refl, omega arith, refl, tt)

cleared : get ◌==◌ 2 140 (insert ◌==◌ 3 30 129 inserted) ≡ none
unfolding get insert
cleared = refl

get-insert_all_example :
    (length (insert_all ◌==◌ number_keys ((3, 30, 131) ∷ []) inserted).entries ≤ 2)
    × (get ◌==◌ 2 140 (insert_all ◌==◌ number_keys ((3, 30, 131) ∷ []) inserted)
        ≡ (if ltb 140 (125 + 30) then some 20 else none))
get-insert_all_example =
    get-insert_all ◌==◌ number_keys 2 20 125 140 one_entry ((3, 30, 131) ∷ []) (omega arith)
      (omega arith) spared
