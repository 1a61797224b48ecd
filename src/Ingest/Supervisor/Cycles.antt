-- ===== src/Ingest/Supervisor/Cycles.antt =====
-- What a discovery cycle of crates/cluster-ingest/src/binance_supervisor.rs comes to: whose tasks run
-- after it, whose are left alone, and when the session hears of it.
use trading_terminal_cluster.Common.{
  List, [], ◌∷◌, map, Bool, true, not, ◌||◌, some, ◌≡◌, refl, inl, inr, arith,
}
use trading_terminal_cluster.Common.Lists.{All}
use trading_terminal_cluster.Common.Tests.{Bool-cases, Option-cases}
use trading_terminal_cluster.Common.Map.{lookup, contains_key, member}
use trading_terminal_cluster.Core.{SymbolSpec, SymbolKey}
use trading_terminal_cluster.Core.Wire.{symbol_key_eq}
use trading_terminal_cluster.Ingest.Config.{is_empty}
use trading_terminal_cluster.Ingest.Supervisor.{
  Tasks, Supervisor, symbol_key, keys_to_remove, remove_all, Added, add_missing, publish_routes,
  is_zero, reconcile,
}
use trading_terminal_cluster.Ingest.Supervisor.Spawn.{Startable, spawn_symbol-total}
use trading_terminal_cluster.Ingest.Supervisor.Reconcile.{
  contains_key-remove_all, lookup-remove_all, member-keys_to_remove, with_symbol,
  contains_key-add_missing, lookup-add_missing,
}

add_missing-total :
    (tasks : Tasks) (wanted : List SymbolSpec) (a : Added)
    → All (Startable tasks) wanted
    → (r : Added) × (add_missing tasks wanted a ≡ some r)
unfolding add_missing
add_missing-total tasks [] a h = (a, refl)
add_missing-total tasks (s ∷ wanted) a (start, h) =
    elim (Bool-cases (contains_key (symbol_key s) a.handles)) [
      | inl there ↦
          let (r, e) = add_missing-total tasks wanted a h in (r, rw (add_missing, there) e)
      | inr missing ↦
          let (handle, started) = spawn_symbol-total tasks a.senders s start in
          let (r, e) = add_missing-total tasks wanted (with_symbol s handle a) h in
          (r, rw (add_missing, missing, started) e)
    ]

abbrev pub gone : List SymbolSpec → Supervisor → List SymbolKey
gone wanted s = keys_to_remove (map symbol_key wanted) s.handles

-- What is left when the unwanted symbols are gone.
abbrev pub left : List SymbolSpec → Supervisor → Added
left wanted s = record {
  handles = remove_all (gone wanted s) s.handles;
  senders = s.senders;
  added = 0;
}

abbrev pub changed : List SymbolSpec → Supervisor → Added → Bool
changed wanted s r = not (is_empty (gone wanted s)) || not (is_zero r.added)

pub reconcile-add_missing :
    (tasks : Tasks) (wanted : List SymbolSpec) (s next : Supervisor)
    → reconcile tasks wanted s ≡ some next
    → (r : Added) × (add_missing tasks wanted (left wanted s) ≡ some r)
      × (next ≡ publish_routes (changed wanted s r) r s)
unfolding reconcile
reconcile-add_missing tasks wanted s next e =
    elim (Option-cases (add_missing tasks wanted (left wanted s))) [
      | inl failed ↦ absurd (ground (arith, failed, e))
      | inr (r, found) ↦ (r, found, ground (arith, found, e))
    ]

pub contains_key-reconcile :
    (tasks : Tasks) (wanted : List SymbolSpec) (s next : Supervisor) (q : SymbolKey)
    → reconcile tasks wanted s ≡ some next
    → contains_key q next.handles ≡ member q (map symbol_key wanted)
unfolding publish_routes
contains_key-reconcile tasks wanted s next q e =
    let (r, added, is) = reconcile-add_missing tasks wanted s next e in
    rw is (
      ground (
        arith,
        contains_key-add_missing tasks wanted (left wanted s) r q added,
        contains_key-remove_all q (gone wanted s) s.handles,
        member-keys_to_remove q (map symbol_key wanted) s.handles,
      ))

-- A discovery cycle whose symbols all have tasks that can start (a positive tick; times and a channel
-- capacity in range; each timeframe with a writer) does not panic, and after it exactly the wanted
-- symbols have tasks.
pub reconcile-total :
    (tasks : Tasks) (wanted : List SymbolSpec) (s : Supervisor)
    → All (Startable tasks) wanted
    → (next : Supervisor) × (reconcile tasks wanted s ≡ some next)
      × ((q : SymbolKey) → contains_key q next.handles ≡ member q (map symbol_key wanted))
unfolding reconcile
reconcile-total tasks wanted s h =
    let (r, e) = add_missing-total tasks wanted (left wanted s) h in
    let ok : reconcile tasks wanted s ≡ some (publish_routes (changed wanted s r) r s) =
      rw (reconcile, e) refl in
    (_, ok, λ q. contains_key-reconcile tasks wanted s _ q ok)

-- A symbol that had tasks and is still wanted keeps them: the same handle, the same sender.
lookup-reconcile :
    (tasks : Tasks) (wanted : List SymbolSpec) (s next : Supervisor) (q : SymbolKey)
    → reconcile tasks wanted s ≡ some next
    → contains_key q s.handles ≡ true
    → member q (map symbol_key wanted) ≡ true
    → lookup q next.handles ≡ lookup q s.handles
unfolding publish_routes
lookup-reconcile tasks wanted s next q e had wants =
    let (r, added, is) = reconcile-add_missing tasks wanted s next e in
    rw is (
      ground (
        arith,
        lookup-add_missing tasks wanted (left wanted s) r q added,
        contains_key-remove_all q (gone wanted s) s.handles,
        lookup-remove_all q (gone wanted s) s.handles,
        member-keys_to_remove q (map symbol_key wanted) s.handles,
      ))
