-- ===== src/Engine/Aggregator/Buckets.antt =====
-- The buckets that a frame carries, looked up by price: what `tick`, `current_window_delta` and the
-- closing snapshot of crates/cluster-engine/src/aggregator.rs read out of the accumulators.
use trading_terminal_cluster.Common.{
  List, [], ◌∷◌, Option, none, some, inl, inr, true, ◌≡◌, refl, arith,
}
use trading_terminal_cluster.Common.Tests.{if◌then◌else◌, Option-cases}
use trading_terminal_cluster.Common.Int.{ℤ, int_beq_iff}
use trading_terminal_cluster.Common.Eq.{int_eq, ◌==◌}
use trading_terminal_cluster.Common.Map.{lookup, contains_key, contains_key-lookup, member}
use trading_terminal_cluster.Core.{ClusterBucket}
use trading_terminal_cluster.Engine.Aggregator.{ClusterAccum, bucket_of, all_buckets, buckets_for}

-- The bucket of a price in a list.
unfoldable pub find_bucket : ℤ → List ClusterBucket → Option ClusterBucket
find_bucket p [] = none
find_bucket p (b ∷ bs) = if b.price == p then some b else find_bucket p bs

-- The bucket of a price in the accumulators.
unfoldable pub bucket_in : ℤ → List (ℤ × ClusterAccum) → Option ClusterBucket
bucket_in p m = elim (lookup p m) [ none ↦ none | some acc ↦ some (bucket_of p acc) ]

pub find-all_buckets :
    (p : ℤ) (m : List (ℤ × ClusterAccum)) → find_bucket p (all_buckets m) ≡ bucket_in p m
unfolding find_bucket all_buckets bucket_in lookup
find-all_buckets p [] = refl
find-all_buckets p ((q, acc) ∷ m) = ground (arith, int_beq_iff q p, find-all_buckets p m)

pub find-buckets_for :
    (p : ℤ) (m : List (ℤ × ClusterAccum)) (ps : List ℤ) (bs : List ClusterBucket)
    → buckets_for m ps ≡ some bs
    → find_bucket p bs ≡ (if member p ps then bucket_in p m else none)
unfolding find_bucket buckets_for bucket_in member
find-buckets_for p m [] bs e = ground arith
find-buckets_for p m (q ∷ ps) bs e = elim (Option-cases (lookup q m)) [
  | inl missing ↦ absurd (ground (arith, missing))
  | inr (acc, found) ↦ elim (Option-cases (buckets_for m ps)) [
    | inl missing ↦ absurd (ground (arith, found, missing))
    | inr (rest, r) ↦ ground (arith, found, r, int_beq_iff q p, find-buckets_for p m ps rest r)
  ]
]

pub buckets_for-total :
    (m : List (ℤ × ClusterAccum)) (ps : List ℤ)
    → ((p : ℤ) → member p ps ≡ true → contains_key p m ≡ true)
    → (bs : List ClusterBucket) × (buckets_for m ps ≡ some bs)
unfolding buckets_for member
buckets_for-total m [] h = ([], refl)
buckets_for-total m (p ∷ ps) h =
    let (acc, found) = contains_key-lookup p m (h p (ground (arith, int_beq_iff p p))) in
    let (bs, rest) = buckets_for-total m ps (λ q k. h q (ground (arith, k))) in
    (bucket_of p acc ∷ bs, ground (arith, found, rest))
