-- ===== src/Ingest/Gaps.antt =====
-- The gap counters of crates/cluster-ingest/src/binance_session.rs against the trade ids.
use mathlib.Core.Path.{subst, subst₂}
use trading_terminal_cluster.Common.{
  ℕ, ◌+◌, ◌-◌, ◌^◌, ◌≤◌, ◌<◌, List, [], ◌∷◌, ◌≡◌, refl, sym, arith, Bool, true, false, none, some,
  inl, inr, ◌⊎◌,
}
use trading_terminal_cluster.Common.Tests.{if◌then◌else◌, ltb, Bool-cases, Option-cases, ltb→lt}
use trading_terminal_cluster.Common.Machine.{add_u64, max_u64}
use trading_terminal_cluster.Common.Eq.{nat_eq, list_eq}
use trading_terminal_cluster.Common.Map.{lookup, insert}
use trading_terminal_cluster.Common.Text.{Text}
use trading_terminal_cluster.Ingest.{
  Session, no_stats, sub_u64, saturating_add_u64, count_gap, detect_gap, Payload, undecodable,
  ignored, unparsable, parsed, count_sent, Sent, sent, full, closed, handle_payload, handle_all,
}

-- The sum of the last ids.
unfoldable pub sum_lasts : List (Text × ℕ) → ℕ
sum_lasts [] = 0
sum_lasts ((k, v) ∷ m) = v + sum_lasts m

sum-insert :
    (k : Text) (v : ℕ) (m : List (Text × ℕ))
    → (old : ℕ) → lookup k m ≡ some old
    → sum_lasts (insert k v m) + old ≡ sum_lasts m + v
unfolding sum_lasts insert lookup
sum-insert k v [] old h = absurd (ground arith)
sum-insert k v ((j, w) ∷ m) old h = ground (arith, sum-insert k v m old)

sum-insert_new :
    (k : Text) (v : ℕ) (m : List (Text × ℕ))
    → lookup k m ≡ none
    → sum_lasts (insert k v m) ≡ sum_lasts m + v
unfolding sum_lasts insert lookup
sum-insert_new k v [] h = ground arith
sum-insert_new k v ((j, w) ∷ m) h = ground (arith, sum-insert_new k v m)

-- A session that has seen nothing.
abbrev pub fresh : Session
fresh = record { stats = no_stats; gap_state = []; last_gap_warn = none }

-- What the trades of a session are, seen against its state: the first ids of the symbols, summed,
-- and the number of later trades that came in order (with an id above the last one).
pub record Seen : Type 0 where
  pub firsts : ℕ
  pub in_order : ℕ

unfoldable pub see : Text → ℕ → List (Text × ℕ) → Seen → Seen
see symbol trade_id gap_state n = elim (lookup symbol gap_state) [
  | none ↦ record n { firsts = n.firsts + trade_id }
  | some last ↦ if ltb last trade_id then record n { in_order = n.in_order + 1 } else n
]

unfoldable pub see_all : List (ℕ × Payload) → Session → Seen → Seen
unfolding see handle_payload
see_all [] s n = n
see_all ((now, parsed symbol trade_id outcome) ∷ ps) s n =
    see_all ps (handle_payload now (parsed symbol trade_id outcome) s)
      (see symbol trade_id s.gap_state n)
see_all ((now, p) ∷ ps) s n = see_all ps (handle_payload now p s) n

-- Every id up to the last ones is a first id, one that came in order, or a missing one.
abbrev pub Accounted : Session → Seen → Type 0
Accounted s n = sum_lasts s.gap_state ≡ n.firsts + n.in_order + s.stats.trades_missing

missed_exact :
    (trade_id last : ℕ)
    → last + 1 < trade_id
    → trade_id < 2 ^ 64
    → sub_u64 (sub_u64 trade_id last) 1 ≡ trade_id - last - 1
unfolding sub_u64
missed_exact trade_id last h small = omega arith

lookup-le : (k : Text) (m : List (Text × ℕ)) (v : ℕ) → lookup k m ≡ some v → v ≤ sum_lasts m
unfolding lookup sum_lasts
lookup-le k [] v h = absurd (ground arith)
lookup-le k ((j, w) ∷ m) v h = ground (arith, lookup-le k m v)

-- The three ways in which `detect_gap` leaves a session.
detect_gap-cases :
    (now : ℕ) (symbol : Text) (trade_id : ℕ) (s : Session) (n : Seen) (last : ℕ)
    → lookup symbol s.gap_state ≡ some last
    → (ltb (add_u64 last 1) trade_id ≡ true
        × ltb last trade_id ≡ true
        × (detect_gap now symbol trade_id s ≡ record (count_gap now last trade_id s) {
          gap_state = insert symbol trade_id s.gap_state;
        })
        × (see symbol trade_id s.gap_state n ≡ record n { in_order = n.in_order + 1 }))
      ⊎ ((ltb (add_u64 last 1) trade_id ≡ false
            × ltb last trade_id ≡ true
            × (detect_gap now symbol trade_id s
                ≡ record s { gap_state = insert symbol trade_id s.gap_state })
            × (see symbol trade_id s.gap_state n ≡ record n { in_order = n.in_order + 1 }))
          ⊎ (ltb last trade_id ≡ false
              × (last < max_u64
                  → (detect_gap now symbol trade_id s ≡ s)
                    × (see symbol trade_id s.gap_state n ≡ n))))
unfolding detect_gap count_gap insert see
detect_gap-cases now symbol trade_id s n last e = elim (Bool-cases (ltb last trade_id)) [
  | inl later ↦ elim (Bool-cases (ltb (add_u64 last 1) trade_id)) [
    | inl gap ↦
        inl (gap, later, rw (e, detect_gap) (rw (gap, later) refl), rw (e, see) (rw later refl))
    | inr next ↦
        inr (
          inl
            (next, later, rw (e, detect_gap) (rw (next, later) refl), rw (e, see) (rw later refl)))
  ]
  | inr old ↦ inr (
      inr (
        old,
        λ small. (
          rw (e, detect_gap) (rw (no_gap last trade_id small old, old) refl),
          rw (e, see) (rw old refl),
        ),
      ))
]
  where
    no_gap :
        (last trade_id : ℕ)
        → last < max_u64
        → ltb last trade_id ≡ false
        → ltb (add_u64 last 1) trade_id ≡ false
    no_gap last trade_id small old = unfold add_u64 in ground arith

-- Neither the state nor the sum of its last ids goes back.
detect_gap_grows :
    (now : ℕ) (symbol : Text) (trade_id : ℕ) (s : Session)
    → sum_lasts (detect_gap now symbol trade_id s).gap_state < max_u64
    → sum_lasts s.gap_state ≤ sum_lasts (detect_gap now symbol trade_id s).gap_state
unfolding detect_gap count_gap
detect_gap_grows now symbol trade_id s small = elim (Option-cases (lookup symbol s.gap_state)) [
  | inl new ↦ rw (new, detect_gap) (omega (arith, sum-insert_new symbol trade_id s.gap_state new))
  | inr (last, e) ↦
      rw (e, detect_gap)
        (grows (ltb (add_u64 last 1) trade_id) last (Bool-cases (ltb last trade_id)) e)
]
  where
    grows :
        (b : Bool) (last : ℕ)
        → (ltb last trade_id ≡ true) ⊎ (ltb last trade_id ≡ false)
        → lookup symbol s.gap_state ≡ some last
        → sum_lasts s.gap_state
          ≤ sum_lasts
              (if ltb last trade_id
                then record (if b then count_gap now last trade_id s else s) {
                  gap_state =
                      insert symbol trade_id
                        (if b then count_gap now last trade_id s else s).gap_state;
                }
                else (if b then count_gap now last trade_id s else s)).gap_state
    grows true last (inl later) e =
        rw later
          (omega (arith, sum-insert symbol trade_id s.gap_state last e, ltb→lt last trade_id later))
    grows false last (inl later) e =
        rw later
          (omega (arith, sum-insert symbol trade_id s.gap_state last e, ltb→lt last trade_id later))
    grows true last (inr old) e = rw old (omega arith)
    grows false last (inr old) e = rw old (omega arith)

gap_sum :
    (firsts in_order missing sum new last trade_id : ℕ)
    → sum ≡ firsts + in_order + missing
    → new + last ≡ sum + trade_id
    → new < max_u64
    → ltb (add_u64 last 1) trade_id ≡ true
    → ltb last trade_id ≡ true
    → new ≡ firsts + (in_order + 1) + saturating_add_u64 missing (sub_u64 (sub_u64 trade_id last) 1)
unfolding saturating_add_u64 add_u64 sub_u64
gap_sum firsts in_order missing sum new last trade_id h k small gap later = ground arith

next_sum :
    (firsts in_order missing sum new last trade_id : ℕ)
    → sum ≡ firsts + in_order + missing
    → new + last ≡ sum + trade_id
    → new < max_u64
    → last ≤ sum
    → ltb (add_u64 last 1) trade_id ≡ false
    → ltb last trade_id ≡ true
    → new ≡ firsts + (in_order + 1) + missing
unfolding add_u64
next_sum firsts in_order missing sum new last trade_id h k small few gap later = ground arith

detect_gap-Accounted :
    (now : ℕ) (symbol : Text) (trade_id : ℕ) (s : Session) (n : Seen)
    → sum_lasts (detect_gap now symbol trade_id s).gap_state < max_u64
    → Accounted s n
    → Accounted (detect_gap now symbol trade_id s) (see symbol trade_id s.gap_state n)
unfolding detect_gap see count_gap
detect_gap-Accounted now symbol trade_id s n small h =
    elim (Option-cases (lookup symbol s.gap_state)) [
      | inl new ↦
          rw (new, detect_gap, see)
            (omega (arith, h, sum-insert_new symbol trade_id s.gap_state new))
      | inr (last, e) ↦
          let grown = detect_gap_grows now symbol trade_id s small in
          elim (detect_gap-cases now symbol trade_id s n last e) [
            | inl (gap, later, is, seen) ↦ subst₂ Accounted (sym is) (sym seen) (
                gap_sum n.firsts n.in_order s.stats.trades_missing (sum_lasts s.gap_state) _ last
                  trade_id h (sum-insert symbol trade_id s.gap_state last e)
                  (subst (λ t. sum_lasts t.gap_state < max_u64) is small) gap later)
            | inr (inl (next, later, is, seen)) ↦ subst₂ Accounted (sym is) (sym seen) (
                next_sum n.firsts n.in_order s.stats.trades_missing (sum_lasts s.gap_state) _ last
                  trade_id h (sum-insert symbol trade_id s.gap_state last e)
                  (subst (λ t. sum_lasts t.gap_state < max_u64) is small)
                  (lookup-le symbol s.gap_state last e) next later)
            | inr (inr (old, same)) ↦
                let (is, seen) =
                  same (omega (arith, grown, small, lookup-le symbol s.gap_state last e)) in
                subst₂ Accounted (sym is) (sym seen) h
          ]
    ]

handle_grows :
    (ps : List (ℕ × Payload)) (s : Session)
    → sum_lasts (handle_all ps s).gap_state < max_u64
    → sum_lasts s.gap_state ≤ sum_lasts (handle_all ps s).gap_state
unfolding handle_all handle_payload
handle_grows [] s small = omega arith
handle_grows ((now, undecodable) ∷ ps) s small = handle_grows ps _ small
handle_grows ((now, ignored) ∷ ps) s small = handle_grows ps _ small
handle_grows ((now, unparsable) ∷ ps) s small = handle_grows ps _ small
handle_grows ((now, parsed symbol trade_id outcome) ∷ ps) s small =
    let rest = handle_grows ps _ small in
    omega (arith, rest, small, detect_gap_grows now symbol trade_id s (omega (arith, rest, small)))

handle_all-Accounted :
    (ps : List (ℕ × Payload)) (s : Session) (n : Seen)
    → sum_lasts (handle_all ps s).gap_state < max_u64
    → Accounted s n
    → Accounted (handle_all ps s) (see_all ps s n)
unfolding handle_all handle_payload see_all count_sent
handle_all-Accounted [] s n small h = h
handle_all-Accounted ((now, undecodable) ∷ ps) s n small h = handle_all-Accounted ps _ n small h
handle_all-Accounted ((now, ignored) ∷ ps) s n small h = handle_all-Accounted ps _ n small h
handle_all-Accounted ((now, unparsable) ∷ ps) s n small h = handle_all-Accounted ps _ n small h
handle_all-Accounted ((now, parsed symbol trade_id outcome) ∷ ps) s n small h =
    handle_all-Accounted ps _ _ small (
      sent_Accounted outcome (detect_gap now symbol trade_id s) _ (
        detect_gap-Accounted now symbol trade_id s n (omega (arith, small, handle_grows ps _ small))
          h))
  where
    sent_Accounted :
        (o : Sent) (d : Session) (m : Seen)
        → Accounted d m
        → Accounted (record d { stats = count_sent o d.stats }) m
    sent_Accounted sent d m h = h
    sent_Accounted full d m h = h
    sent_Accounted closed d m h = h

-- From a fresh session, as long as the last ids sum to less than 2 ^ 64 - 1: they sum to the first
-- ids of the symbols, plus the number of later trades that came with an id above the last one, plus
-- `trades_missing`.
pub handle_all-accounts :
    (ps : List (ℕ × Payload))
    → sum_lasts (handle_all ps fresh).gap_state < max_u64
    → Accounted (handle_all ps fresh) (see_all ps fresh (record { firsts = 0; in_order = 0 }))
handle_all-accounts ps small = handle_all-Accounted ps fresh _ small (unfold sum_lasts in refl)
