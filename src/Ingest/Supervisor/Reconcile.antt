-- ===== src/Ingest/Supervisor/Reconcile.antt =====
-- What one discovery cycle of crates/cluster-ingest/src/binance_supervisor.rs does to the handles and
-- the routes.
use trading_terminal_cluster.Common.{
  suc, List, [], ◌∷◌, map, true, false, not, ◌&&◌, ◌||◌, none, some, ◌≡◌, ◌⊎◌, refl, inl, inr,
  arith,
}
use trading_terminal_cluster.Common.Tests.{if◌then◌else◌, Bool-cases, Option-cases}
use trading_terminal_cluster.Common.Map.{
  lookup, insert, contains_key, remove, member, contains_key-insert, contains_key-remove,
  lookup-insert, lookup-remove,
}
use trading_terminal_cluster.Core.{SymbolSpec, SymbolKey}
use trading_terminal_cluster.Core.Wire.{symbol_key_eq}
use trading_terminal_cluster.Ingest.Supervisor.{
  SymbolHandle, Tasks, symbol_key, spawn_symbol, keys_to_remove, remove_all, Added, add_missing,
}

abbrev pub Handles : Type 0
Handles = List (SymbolKey × SymbolHandle)

pub contains_key-remove_all :
    (q : SymbolKey) (ks : List SymbolKey) (m : Handles)
    → contains_key q (remove_all ks m) ≡ (not (member q ks) && contains_key q m)
unfolding remove_all member
contains_key-remove_all q [] m = refl
contains_key-remove_all q (k ∷ ks) m = ground (
  arith,
  contains_key-remove_all q ks (remove k m),
  contains_key-remove k q m,
  symbol_key_eq.same_iff k q,
)

pub lookup-remove_all :
    (q : SymbolKey) (ks : List SymbolKey) (m : Handles)
    → lookup q (remove_all ks m) ≡ (if member q ks then none else lookup q m)
unfolding remove_all member
lookup-remove_all q [] m = refl
lookup-remove_all q (k ∷ ks) m =
    ground (arith, lookup-remove_all q ks (remove k m), lookup-remove k q m)

pub member-keys_to_remove :
    (q : SymbolKey) (wanted : List SymbolKey) (m : Handles)
    → member q (keys_to_remove wanted m) ≡ (contains_key q m && not (member q wanted))
unfolding keys_to_remove member contains_key
member-keys_to_remove q wanted [] = refl
member-keys_to_remove q wanted ((k, h) ∷ m) = ground (
  arith,
  member-keys_to_remove q wanted m,
  symbol_key_eq.same_iff k q,
  Bool-cases (member k wanted),
)

abbrev pub with_symbol : SymbolSpec → SymbolHandle → Added → Added
with_symbol s handle a = record {
  handles = insert (symbol_key s) handle a.handles;
  senders = suc a.senders;
  added = suc a.added;
}

-- A successful run either skips a symbol or starts its tasks.
pub add_missing-cases :
    (tasks : Tasks) (s : SymbolSpec) (wanted : List SymbolSpec) (a r : Added)
    → add_missing tasks (s ∷ wanted) a ≡ some r
    → ((contains_key (symbol_key s) a.handles ≡ true) × (add_missing tasks wanted a ≡ some r))
      ⊎ ((contains_key (symbol_key s) a.handles ≡ false)
          × ((h : SymbolHandle) × (spawn_symbol tasks a.senders s ≡ some h)
              × (add_missing tasks wanted (with_symbol s h a) ≡ some r)))
unfolding add_missing
add_missing-cases tasks s wanted a r e = elim (Bool-cases (contains_key (symbol_key s) a.handles)) [
  | inl there ↦ inl (there, ground (arith, there, e))
  | inr missing ↦ elim (Option-cases (spawn_symbol tasks a.senders s)) [
    | inl failed ↦ absurd (ground (arith, missing, failed, e))
    | inr (h, started) ↦ inr (missing, (h, started, ground (arith, missing, started, e)))
  ]
]

pub contains_key-add_missing :
    (tasks : Tasks) (wanted : List SymbolSpec) (a r : Added) (q : SymbolKey)
    → add_missing tasks wanted a ≡ some r
    → contains_key q r.handles ≡ (contains_key q a.handles || member q (map symbol_key wanted))
unfolding add_missing member
contains_key-add_missing tasks [] a r q e = ground (arith, e)
contains_key-add_missing tasks (s ∷ wanted) a r q e =
    elim (add_missing-cases tasks s wanted a r e) [
      | inl (there, rest) ↦ ground (
        arith,
        there,
        contains_key-add_missing tasks wanted a r q rest,
        symbol_key_eq.same_iff (symbol_key s) q,
      )
      | inr (missing, (h, started, rest)) ↦ ground (
        arith,
        contains_key-add_missing tasks wanted (with_symbol s h a) r q rest,
        contains_key-insert (symbol_key s) q h a.handles,
        symbol_key_eq.same_iff (symbol_key s) q,
      )
    ]

pub lookup-add_missing :
    (tasks : Tasks) (wanted : List SymbolSpec) (a r : Added) (q : SymbolKey)
    → add_missing tasks wanted a ≡ some r
    → contains_key q a.handles ≡ true
    → lookup q r.handles ≡ lookup q a.handles
unfolding add_missing
lookup-add_missing tasks [] a r q e there = ground (arith, e)
lookup-add_missing tasks (s ∷ wanted) a r q e there =
    elim (add_missing-cases tasks s wanted a r e) [
      | inl (_, rest) ↦ lookup-add_missing tasks wanted a r q rest there
      | inr (missing, (h, started, rest)) ↦ ground (
        arith,
        lookup-add_missing tasks wanted (with_symbol s h a) r q rest,
        contains_key-insert (symbol_key s) q h a.handles,
        lookup-insert (symbol_key s) q h a.handles,
        symbol_key_eq.same_iff (symbol_key s) q,
      )
    ]
