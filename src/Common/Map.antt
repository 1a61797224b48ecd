-- ===== src/Common/Map.antt =====
-- Hash maps and hash sets as association lists and lists. Their order stands for the order in which
-- Rust's containers are walked, which is not specified: theorems speak of keys.
use mathlib.Core.Path.{◌≡◌, refl}
use mathlib.Core.Logic.{◌↔◌, inl, inr}
use mathlib.Core.Bool.{Bool, true, false, not, ◌&&◌, ◌||◌}
use mathlib.Core.Option.{Option, none, some}
use mathlib.Core.List.{List, [], ◌∷◌}
use native.Mathlib.Omega.{arith}
use trading_terminal_cluster.Common.Tests.{if◌then◌else◌, Bool-cases}
use trading_terminal_cluster.Common.Eq.{Eq, ◌==◌, same_refl}

module _ {ℓ κ} {K : Type ℓ} {V : Type κ} ⦃e : Eq K⦄ where
  unfoldable pub lookup : K → List (K × V) → Option V
  lookup k [] = none
  lookup k ((j, v) ∷ m) = if j == k then some v else lookup k m

  -- A present key keeps its place.
  unfoldable pub insert : K → V → List (K × V) → List (K × V)
  insert k v [] = (k, v) ∷ []
  insert k v ((j, w) ∷ m) = if j == k then (j, v) ∷ m else (j, w) ∷ insert k v m

  unfoldable pub contains_key : K → List (K × V) → Bool
  contains_key k [] = false
  contains_key k ((j, v) ∷ m) = j == k || contains_key k m

  unfoldable pub remove : K → List (K × V) → List (K × V)
  remove k [] = []
  remove k ((j, v) ∷ m) = if j == k then remove k m else (j, v) ∷ remove k m

  pub lookup-insert :
      (key q : K) (v : V) (m : List (K × V))
      → lookup q (insert key v m) ≡ (if key == q then some v else lookup q m)
  unfolding lookup insert
  lookup-insert key q v [] = refl
  lookup-insert key q v ((i, w) ∷ m) =
      ground (arith, e.same_iff key q, e.same_iff i key, e.same_iff i q, lookup-insert key q v m)

  pub lookup-insert_self : (k : K) (v : V) (m : List (K × V)) → lookup k (insert k v m) ≡ some v
  lookup-insert_self k v m = ground (arith, lookup-insert k k v m, same_refl k)

  pub lookup-remove :
      (k j : K) (m : List (K × V)) → lookup j (remove k m) ≡ (if k == j then none else lookup j m)
  unfolding lookup remove
  lookup-remove k j [] = ground arith
  lookup-remove k j ((i, w) ∷ m) =
      ground (arith, e.same_iff k j, e.same_iff i k, e.same_iff i j, lookup-remove k j m)

  pub contains_key-insert :
      (k j : K) (v : V) (m : List (K × V))
      → contains_key j (insert k v m) ≡ (k == j || contains_key j m)
  unfolding contains_key insert
  contains_key-insert k j v [] = refl
  contains_key-insert k j v ((i, w) ∷ m) =
      ground (arith, e.same_iff k j, e.same_iff i k, e.same_iff i j, contains_key-insert k j v m)

  pub contains_key-remove :
      (k j : K) (m : List (K × V))
      → contains_key j (remove k m) ≡ (not (k == j) && contains_key j m)
  unfolding contains_key remove
  contains_key-remove k j [] = ground arith
  contains_key-remove k j ((i, w) ∷ m) =
      ground (arith, e.same_iff k j, e.same_iff i k, e.same_iff i j, contains_key-remove k j m)

  pub contains_key-lookup :
      (k : K) (m : List (K × V)) → contains_key k m ≡ true → (v : V) × (lookup k m ≡ some v)
  unfolding contains_key lookup
  contains_key-lookup k [] h = absurd (ground arith)
  contains_key-lookup k ((j, v) ∷ m) h = elim (Bool-cases (j == k)) [
    | inl hit ↦ (v, ground arith)
    | inr miss ↦
        let (w, found) = contains_key-lookup k m (ground arith) in (w, ground (arith, found))
  ]

  -- No key stands twice.
  abbrev pub DistinctKeys : List (K × V) → Type 0
  DistinctKeys [] = Unit
  DistinctKeys ((k, v) ∷ m) = (contains_key k m ≡ false) × DistinctKeys m

  pub insert-DistinctKeys :
      (k : K) (v : V) (m : List (K × V)) → DistinctKeys m → DistinctKeys (insert k v m)
  unfolding insert contains_key
  insert-DistinctKeys k v [] d = ground arith
  insert-DistinctKeys k v ((j, w) ∷ m) d = elim (Bool-cases (j == k)) [
    | inl hit ↦ rw hit d
    | inr miss ↦ rw miss (
      ground (arith, contains_key-insert k j v m, e.same_iff j k, e.same_iff k j),
      insert-DistinctKeys k v m d.1,
    )
  ]

  pub lookup-absent : (k : K) (m : List (K × V)) → contains_key k m ≡ false → lookup k m ≡ none
  unfolding contains_key lookup
  lookup-absent k [] h = refl
  lookup-absent k ((j, v) ∷ m) h = ground (arith, lookup-absent k m)

module _ {ℓ} {K : Type ℓ} ⦃e : Eq K⦄ where
  unfoldable pub member : K → List K → Bool
  member k [] = false
  member k (j ∷ s) = j == k || member k s

  unfoldable pub set_insert : K → List K → List K
  unfolding member
  set_insert k s = if member k s then s else k ∷ s

  pub member-set_insert :
      (k j : K) (s : List K) → member j (set_insert k s) ≡ (k == j || member j s)
  unfolding set_insert
  member-set_insert k j s = ground (arith, e.same_iff k j, same_refl k)

  -- No element stands twice; none of them is in the set.
  abbrev pub Distinct : List K → Type 0
  Distinct [] = Unit
  Distinct (k ∷ ks) = (member k ks ≡ false) × Distinct ks

  abbrev pub Unseen : List K → List K → Type 0
  Unseen seen [] = Unit
  Unseen seen (k ∷ ks) = (member k seen ≡ false) × Unseen seen ks

  pub Unseen-set_insert :
      (k : K) (seen ks : List K)
      → Unseen (set_insert k seen) ks ↔ ((member k ks ≡ false) × Unseen seen ks)
  unfolding member
  Unseen-set_insert k seen [] = (λ _. (refl, _), λ _. _)
  Unseen-set_insert k seen (j ∷ ks) = ground (
    arith,
    member-set_insert k j seen,
    Unseen-set_insert k seen ks,
    e.same_iff k j,
    e.same_iff j k,
  )

  pub Unseen-nil : (ks : List K) → Unseen [] ks
  unfolding member
  Unseen-nil [] = _
  Unseen-nil (k ∷ ks) = (refl, Unseen-nil ks)
