-- ===== src/Counters/Prune.antt =====
-- What `pruneUnlimitedCounter` leaves of the unlimited counters.
use scale_authorizer.Prelude.{
  String, ℤ, pos, sub_int, Dict, Option, none, some, [], ◌∷◌, ◌≡◌, arith, ltb_ℤ, if◌then◌else◌,
  eq_iff,
}
use scale_authorizer.Prelude.Map.{get, IsMap}
use scale_authorizer.Counters.{is_pruned, prune_unlimited_counter}

abbrev kept : Dict ℤ → String → Option ℤ → Option ℤ
kept snapshot k none = none
kept snapshot k (some v) = if is_pruned snapshot k v then none else some v

pub get-prune :
    (k : String) (snapshot counter : Dict ℤ)
    → IsMap counter
    → get k (prune_unlimited_counter snapshot counter) ≡ kept snapshot k (get k counter)
unfolding prune_unlimited_counter get
get-prune k s [] m = ground arith
get-prune k s ((j, v) ∷ u) m = ground (arith, eq_iff j k, get-prune k s u m.1)

-- The count of a metric, from the count in the snapshot and the count before.
abbrev pub pruned_count : Option ℤ → Option ℤ → Option ℤ
pruned_count old none = none
pruned_count none (some v) = none
pruned_count (some old) (some v) = if ltb_ℤ (sub_int v old) (pos 1) then none else some v

-- Pruning drops the count of a metric that the snapshot has no count for, or whose count is less
-- than one above the snapshot's. Any other count stays whole, and is not reduced to the difference.
pub prune_unlimited_counter_lem :
    (k : String) (snapshot counter : Dict ℤ)
    → IsMap counter
    → get k (prune_unlimited_counter snapshot counter)
      ≡ pruned_count (get k snapshot) (get k counter)
unfolding is_pruned
prune_unlimited_counter_lem k s u m = ground (arith, get-prune k s u m)
