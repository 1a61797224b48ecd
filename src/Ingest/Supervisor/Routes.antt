-- ===== src/Ingest/Supervisor/Routes.antt =====
-- What the session of crates/cluster-ingest/src/binance_supervisor.rs knows after some cycles: the
-- routes that it was sent last.
use trading_terminal_cluster.Common.{
  ℕ, zero, suc, ◌<◌, List, [], ◌∷◌, Bool, true, false, not, ◌||◌, some, ◌≡◌, ◌⊎◌, refl, ap, sym,
  ◌∙◌, inl, inr, arith,
}
use trading_terminal_cluster.Common.Tests.{Bool-cases, Option-cases}
use trading_terminal_cluster.Common.Eq.{◌==◌}
use trading_terminal_cluster.Common.Map.{insert, remove}
use trading_terminal_cluster.Core.{SymbolSpec, SymbolKey}
use trading_terminal_cluster.Core.Wire.{symbol_key_eq}
use trading_terminal_cluster.Ingest.Config.{is_empty}
use trading_terminal_cluster.Ingest.Supervisor.{
  SymbolHandle, Tasks, Supervisor, new_supervisor, symbol_key, spawn_timeframes, spawn_symbol,
  remove_all, Added, add_missing, routes_of, publish_routes, is_zero, reconcile,
}
use trading_terminal_cluster.Ingest.Supervisor.Reconcile.{with_symbol, add_missing-cases}
use trading_terminal_cluster.Ingest.Supervisor.Cycles.{gone, left, changed, reconcile-add_missing}

-- The states after any number of cycles.
pub data Reached (tasks : Tasks) : Supervisor → Type 0 where
  start : Reached tasks new_supervisor
  cycle :
      {before next : Supervisor} (wanted : List SymbolSpec)
      → Reached tasks before
      → reconcile tasks wanted before ≡ some next
      → Reached tasks next

add_missing-grows :
    (tasks : Tasks) (wanted : List SymbolSpec) (a r : Added)
    → add_missing tasks wanted a ≡ some r
    → (r ≡ a) ⊎ (a.added < r.added)
unfolding add_missing
add_missing-grows tasks [] a r e = inl (ground (arith, e))
add_missing-grows tasks (s ∷ wanted) a r e = elim (add_missing-cases tasks s wanted a r e) [
  | inl (there, rest) ↦ add_missing-grows tasks wanted a r rest
  | inr (missing, (h, started, rest)) ↦
      elim (add_missing-grows tasks wanted (with_symbol s h a) r rest) [
        | inl same ↦ inr (rw same (omega arith))
        | inr more ↦ inr (omega (arith, more))
      ]
]

-- Each symbol's tasks are those of a specification with its key.
pub Keyed : List (SymbolKey × SymbolHandle) → Type 0
Keyed [] = Unit
Keyed ((k, h) ∷ m) = (symbol_key h.spec ≡ k) × Keyed m

insert-Keyed :
    (k : SymbolKey) (h : SymbolHandle) (m : List (SymbolKey × SymbolHandle))
    → symbol_key h.spec ≡ k
    → Keyed m
    → Keyed (insert k h m)
unfolding Keyed insert
insert-Keyed k h [] own keyed = (own, _)
insert-Keyed k h ((j, g) ∷ m) own (own_j, keyed) = elim (Bool-cases (j == k)) [
  | inl hit ↦ rw hit (own ∙ sym ((symbol_key_eq.same_iff j k).0 hit), keyed)
  | inr miss ↦ rw miss (own_j, insert-Keyed k h m own keyed)
]

remove-Keyed : (k : SymbolKey) (m : List (SymbolKey × SymbolHandle)) → Keyed m → Keyed (remove k m)
unfolding Keyed remove
remove-Keyed k [] keyed = _
remove-Keyed k ((j, g) ∷ m) (own, keyed) = elim (Bool-cases (j == k)) [
  | inl hit ↦ rw hit (remove-Keyed k m keyed)
  | inr miss ↦ rw miss (own, remove-Keyed k m keyed)
]

remove_all-Keyed :
    (ks : List SymbolKey) (m : List (SymbolKey × SymbolHandle)) → Keyed m → Keyed (remove_all ks m)
unfolding remove_all
remove_all-Keyed [] m keyed = keyed
remove_all-Keyed (k ∷ ks) m keyed = remove_all-Keyed ks (remove k m) (remove-Keyed k m keyed)

spawn_symbol_spec_is :
    (tasks : Tasks) (tx : ℕ) (s : SymbolSpec) (h : SymbolHandle)
    → spawn_symbol tasks tx s ≡ some h
    → h.spec ≡ s
unfolding spawn_symbol
spawn_symbol_spec_is tasks tx s h e =
    elim (Option-cases (spawn_timeframes tasks s tasks.timeframes_secs)) [
      | inl failed ↦ absurd (ground (arith, failed, e))
      | inr (both, made) ↦ ground (arith, made, e)
    ]

add_missing-Keyed :
    (tasks : Tasks) (wanted : List SymbolSpec) (a r : Added)
    → add_missing tasks wanted a ≡ some r
    → Keyed a.handles
    → Keyed r.handles
unfolding add_missing
add_missing-Keyed tasks [] a r e keyed = let same : a ≡ r = ground (arith, e) in rw (sym same) keyed
add_missing-Keyed tasks (s ∷ wanted) a r e keyed = elim (add_missing-cases tasks s wanted a r e) [
  | inl (there, rest) ↦ add_missing-Keyed tasks wanted a r rest keyed
  | inr (missing, (h, started, rest)) ↦ add_missing-Keyed tasks wanted (with_symbol s h a) r rest (
      insert-Keyed (symbol_key s) h a.handles
        (ap symbol_key (spawn_symbol_spec_is tasks a.senders s h started)) keyed)
]

is_empty_nil {ℓ} : {A : Type ℓ} (xs : List A) → is_empty xs ≡ true → xs ≡ []
unfolding is_empty
is_empty_nil [] h = refl
is_empty_nil (x ∷ xs) h = absurd (ground arith)

changed_by_growth :
    (n : ℕ) → 0 < n → (ks : List SymbolKey) → (not (is_empty ks) || not (is_zero n)) ≡ true
unfolding is_zero
changed_by_growth zero h ks = absurd (omega arith)
changed_by_growth (suc n) h ks = ground arith

changed-cases :
    (tasks : Tasks) (wanted : List SymbolSpec) (s : Supervisor) (r : Added)
    → add_missing tasks wanted (left wanted s) ≡ some r
    → (changed wanted s r ≡ true) ⊎ (r.handles ≡ s.handles)
unfolding is_zero remove_all
changed-cases tasks wanted s r added = elim (Bool-cases (is_empty (gone wanted s))) [
  | inr some_gone ↦ inl (ground (arith, some_gone))
  | inl none_gone ↦ elim (add_missing-grows tasks wanted (left wanted s) r added) [
    | inl same ↦ inr (
        ap (λ a. a.handles) same
        ∙ ap (λ ks. remove_all ks s.handles) (is_empty_nil (gone wanted s) none_gone))
    | inr more ↦ inl (changed_by_growth (r.added) more (gone wanted s))
  ]
]

routes-publish_routes :
    (b : Bool) (r : Added) (s : Supervisor)
    → (b ≡ true) ⊎ (r.handles ≡ s.handles)
    → s.routes ≡ routes_of s.handles
    → (publish_routes b r s).routes ≡ routes_of r.handles
unfolding publish_routes
routes-publish_routes true r s how before = refl
routes-publish_routes false r s (inl h) before = absurd (ground arith)
routes-publish_routes false r s (inr same) before = before ∙ ap routes_of (sym same)

-- What the session was last told is what is running, and each symbol's tasks have its key.
Current : Supervisor → Type 0
Current s = (s.routes ≡ routes_of s.handles) × Keyed s.handles

reconcile-Current :
    (tasks : Tasks) (wanted : List SymbolSpec) (s next : Supervisor)
    → reconcile tasks wanted s ≡ some next
    → Current s
    → Current next
unfolding Current publish_routes
reconcile-Current tasks wanted s next e (routes, keyed) =
    let (r, added, is) = reconcile-add_missing tasks wanted s next e in
    rw is (
      routes-publish_routes (changed wanted s r) r s (changed-cases tasks wanted s r added) routes,
      add_missing-Keyed tasks wanted (left wanted s) r added
          (remove_all-Keyed (gone wanted s) s.handles keyed),
    )

-- After any number of discovery cycles, the routes that the session was last sent are those of the
-- symbols whose tasks run, and each of these has the tasks of a specification with its own key:
-- skipping the message when no symbol came or went leaves nothing stale.
pub Reached-Current :
    (tasks : Tasks) (s : Supervisor)
    → Reached tasks s
    → (s.routes ≡ routes_of s.handles) × Keyed s.handles
unfolding Current Keyed new_supervisor routes_of
Reached-Current tasks s start = (refl, _)
Reached-Current tasks s (cycle {before} wanted reached e) =
    reconcile-Current tasks wanted before s e (Reached-Current tasks before reached)
