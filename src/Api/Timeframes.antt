-- ===== src/Api/Timeframes.antt =====
-- crates/cluster-api/src/timeframes.rs: the supported windows and the names of their tables.
use trading_terminal_cluster.Common.{
  ℕ, ◌+◌, ◌-◌, ◌*◌, ◌/◌, ◌%◌, ◌^◌, ◌<◌, List, [], ◌∷◌, ◌++◌, ◌≡◌, refl, arith, Bool,
}
use trading_terminal_cluster.Common.Lists.{drop}
use trading_terminal_cluster.Common.Tests.{if◌then◌else◌, nat_beq}
use trading_terminal_cluster.Common.Text.{Text, codes}
use trading_terminal_cluster.Common.Eq.{nat_eq}
use trading_terminal_cluster.Common.Map.{member}
use trading_terminal_cluster.Common.Show.{show_ℕ, digits_value, value-show_ℕ}

abbrev pub supported_intervals : List ℕ
supported_intervals = 30 ∷ 60 ∷ 300 ∷ 900 ∷ 1800 ∷ 3600 ∷ 14400 ∷ 86400 ∷ []

unfoldable pub is_supported_interval : ℕ → Bool
unfolding member
is_supported_interval n = member n supported_intervals

-- The arms after the fixed ones.
unfoldable pub human_other : ℕ → Text
human_other n =
    if nat_beq (n % 86400) 0
    then show_ℕ (n / 86400) ++ codes "d"
    else if nat_beq (n % 3600) 0
    then show_ℕ (n / 3600) ++ codes "h"
    else if nat_beq (n % 60) 0
    then show_ℕ (n / 60) ++ codes "m"
    else show_ℕ n ++ codes "s"

unfoldable pub human : ℕ → Text
unfolding human_other
human n =
    if nat_beq n 30
    then codes "30s"
    else if nat_beq n 60
    then codes "1m"
    else if nat_beq n 300
    then codes "5m"
    else if nat_beq n 900
    then codes "15m"
    else if nat_beq n 1800
    then codes "30m"
    else if nat_beq n 3600
    then codes "1h"
    else if nat_beq n 14400
    then codes "4h"
    else if nat_beq n 86400
    then codes "1d"
    else human_other n

unfoldable pub table_name_for : ℕ → Text
unfolding human
table_name_for interval_seconds = codes "clusters_" ++ human interval_seconds

-- The seconds that a unit stands for.
abbrev pub unit_seconds : ℕ → ℕ
unit_seconds c =
    if nat_beq c b'd'
    then 86400
    else if nat_beq c b'h'
    then 3600
    else if nat_beq c b'm'
    then 60
    else 1

-- What a length of time written as a number and a unit is, in seconds.
unfoldable pub seconds : ℕ → Text → ℕ
seconds n [] = n
seconds n (c ∷ []) = n * unit_seconds c
seconds n (c ∷ d ∷ s) = seconds (n * 10 + (c - b'0')) (d ∷ s)

unfoldable pub interval_of_table : Text → ℕ
interval_of_table name = seconds 0 (drop 9 name)

seconds-append :
    (n : ℕ) (s : Text) (c : ℕ) → seconds n (s ++ (c ∷ [])) ≡ digits_value n s * unit_seconds c
unfolding seconds
seconds-append n [] c = refl
seconds-append n (d ∷ []) c = refl
seconds-append n (d ∷ e ∷ s) c = seconds-append (n * 10 + (d - b'0')) (e ∷ s) c

seconds-human_other : (n : ℕ) → n < 2 ^ 32 → seconds 0 (human_other n) ≡ n
unfolding human_other
seconds-human_other n h = ground (
  arith,
  seconds-append 0 (show_ℕ (n / 86400)) b'd',
  seconds-append 0 (show_ℕ (n / 3600)) b'h',
  seconds-append 0 (show_ℕ (n / 60)) b'm',
  seconds-append 0 (show_ℕ n) b's',
  value-show_ℕ (n / 86400) (omega arith),
  value-show_ℕ (n / 3600) (omega arith),
  value-show_ℕ (n / 60) (omega arith),
  value-show_ℕ n (omega arith),
)

pick :
    (n k : ℕ) (s rest : Text)
    → seconds 0 s ≡ k
    → seconds 0 rest ≡ n
    → seconds 0 (if nat_beq n k then s else rest) ≡ n
pick n k s rest hs hr = ground arith

seconds-human : (n : ℕ) → n < 2 ^ 32 → seconds 0 (human n) ≡ n
unfolding human seconds
seconds-human n h = pick n 30 _ _ refl (
    pick n 60 _ _ refl (
      pick n 300 _ _ refl (
        pick n 900 _ _ refl (
          pick n 1800 _ _ refl (
            pick n 3600 _ _ refl
              (pick n 14400 _ _ refl (pick n 86400 _ _ refl (seconds-human_other n h))))))))

-- The name of a table says its window, for every u32 of seconds.
pub interval_of_table-table_name_for :
    (n : ℕ) → n < 2 ^ 32 → interval_of_table (table_name_for n) ≡ n
unfolding interval_of_table table_name_for
interval_of_table-table_name_for n h = seconds-human n h
