-- ===== src/Common/Prefix.antt =====
-- What `strip_prefix` and `starts_with` say of a text.
use mathlib.Core.Path.{◌≡◌, refl, ap}
use mathlib.Core.Logic.{◌↔◌}
use mathlib.Core.Bool.{true}
use mathlib.Core.List.{[], ◌∷◌, ◌++◌}
use mathlib.Core.Option.{some}
use native.Mathlib.Omega.{arith}
use trading_terminal_cluster.Common.Tests.{nat_beq_iff}
use trading_terminal_cluster.Common.Text.{Text, strip_prefix, starts_with}

pub strip_prefix_iff : (p s t : Text) → (strip_prefix p s ≡ some t) ↔ (s ≡ p ++ t)
unfolding strip_prefix
strip_prefix_iff [] s t = (λ h. ground arith, λ e. ap some e)
strip_prefix_iff (c ∷ p) [] t = ground arith
strip_prefix_iff (c ∷ p) (d ∷ s) t = ground (arith, strip_prefix_iff p s t, nat_beq_iff c d)

pub starts_with_iff : (p s : Text) → (starts_with p s ≡ true) ↔ ((rest : Text) × (s ≡ p ++ rest))
unfolding starts_with
starts_with_iff [] s = (λ _. (s, refl), λ _. refl)
starts_with_iff (c ∷ p) [] = (λ h. absurd (ground arith), λ (r, e). absurd (ground arith))
starts_with_iff (c ∷ p) (d ∷ s) = (
  λ h.
      let (r, e) = (starts_with_iff p s).0 (ground arith) in
      (r, ground (arith, nat_beq_iff c d, e)),
  λ (r, e). ground (arith, nat_beq_iff c d, (starts_with_iff p s).1 (r, ground arith)),
)
