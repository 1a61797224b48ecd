-- ===== src/Wal/Header.antt =====
-- The fixed-width header: little-endian numbers are read back.
use trading_terminal_cluster.Common.{ℕ, ◌<◌, ◌^◌, ◌++◌, ◌≡◌, refl, arith}
use trading_terminal_cluster.Common.Lists.{length, take, drop}
use trading_terminal_cluster.Wal.{to_le_bytes, from_le_bytes}

pub from-to_le_bytes : (n : ℕ) → n < 2 ^ 32 → from_le_bytes (to_le_bytes n) ≡ n
unfolding to_le_bytes from_le_bytes
from-to_le_bytes n h = omega arith

pub header_parts :
    (n m : ℕ)
    → (take 4 (to_le_bytes n ++ to_le_bytes m) ≡ to_le_bytes n)
      × (drop 4 (to_le_bytes n ++ to_le_bytes m) ≡ to_le_bytes m)
      × (length (to_le_bytes n ++ to_le_bytes m) ≡ 8)
unfolding to_le_bytes
header_parts n m = (refl, refl, refl)
