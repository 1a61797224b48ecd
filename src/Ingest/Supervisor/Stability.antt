-- ===== src/Ingest/Supervisor/Stability.antt =====
-- When the session of crates/cluster-ingest/src/binance_supervisor.rs hears of new routes: its
-- connection is cut and made again each time.
use trading_terminal_cluster.Common.{List, [], ◌∷◌, map, true, false, some, ◌≡◌, refl, ◌∙◌, arith}
use trading_terminal_cluster.Common.Lists.{All}
use trading_terminal_cluster.Common.Eq.{same_refl}
use trading_terminal_cluster.Common.Map.{contains_key, member}
use trading_terminal_cluster.Core.{SymbolSpec, SymbolKey}
use trading_terminal_cluster.Core.Wire.{symbol_key_eq}
use trading_terminal_cluster.Ingest.Config.{is_empty}
use trading_terminal_cluster.Ingest.Supervisor.{
  SymbolHandle, Tasks, Supervisor, symbol_key, remove_all, Added, add_missing, publish_routes,
  is_zero, reconcile,
}
use trading_terminal_cluster.Ingest.Supervisor.Reconcile.{member-keys_to_remove}
use trading_terminal_cluster.Ingest.Supervisor.Cycles.{gone, contains_key-reconcile}

no_member : (ks : List SymbolKey) → ((q : SymbolKey) → member q ks ≡ false) → ks ≡ []
unfolding member
no_member [] h = refl
no_member (k ∷ ks) h = absurd (ground (arith, h k, same_refl k))

-- Nothing is added where every wanted symbol has its tasks.
add_missing_id :
    (tasks : Tasks) (wanted : List SymbolSpec) (a : Added)
    → All (λ s. contains_key (symbol_key s) a.handles ≡ true) wanted
    → add_missing tasks wanted a ≡ some a
unfolding add_missing
add_missing_id tasks [] a h = refl
add_missing_id tasks (s ∷ wanted) a (there, h) =
    rw (add_missing, there) (add_missing_id tasks wanted a h)

wanted_held :
    (m : List (SymbolKey × SymbolHandle)) (all some_of : List SymbolSpec)
    → ((q : SymbolKey) → contains_key q m ≡ member q (map symbol_key all))
    → ((q : SymbolKey)
        → member q (map symbol_key some_of) ≡ true
        → member q (map symbol_key all) ≡ true)
    → All (λ s. contains_key (symbol_key s) m ≡ true) some_of
unfolding member
wanted_held m all [] keys sub = _
wanted_held m all (s ∷ ss) keys sub = (
  keys (symbol_key s) ∙ sub (symbol_key s) (ground (arith, same_refl (symbol_key s))),
  wanted_held m all ss keys (λ q h. sub q (ground (arith, h))),
)

gone-none :
    (wanted : List SymbolSpec) (s : Supervisor)
    → ((q : SymbolKey) → contains_key q s.handles ≡ member q (map symbol_key wanted))
    → gone wanted s ≡ []
gone-none wanted s keys =
    no_member (gone wanted s)
      (λ q. ground (arith, member-keys_to_remove q (map symbol_key wanted) s.handles, keys q))

reconcile_id :
    (tasks : Tasks) (wanted : List SymbolSpec) (s : Supervisor)
    → ((q : SymbolKey) → contains_key q s.handles ≡ member q (map symbol_key wanted))
    → reconcile tasks wanted s ≡ some s
unfolding reconcile publish_routes remove_all is_zero is_empty
reconcile_id tasks wanted s keys =
    rw (reconcile, gone-none wanted s keys)
      (rw
        (add_missing_id tasks wanted
          (record { handles = s.handles; senders = s.senders; added = 0 })
          (wanted_held s.handles wanted wanted keys (λ q h. h)))
        refl)

-- A cycle that finds the symbols of the one before it changes nothing: no task starts or ends, and
-- no routes are sent, so the session keeps its connection.
pub reconcile-reconcile :
    (tasks : Tasks) (wanted : List SymbolSpec) (s next : Supervisor)
    → reconcile tasks wanted s ≡ some next
    → reconcile tasks wanted next ≡ some next
reconcile-reconcile tasks wanted s next e =
    reconcile_id tasks wanted next (λ q. contains_key-reconcile tasks wanted s next q e)
