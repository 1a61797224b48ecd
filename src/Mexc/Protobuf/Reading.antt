-- ===== src/Mexc/Protobuf/Reading.antt =====
-- The readers of crates/exchange-mexc/src/pb.rs move forward: how many bytes each leaves.
use trading_terminal_cluster.Common.{
  ℕ, ◌+◌, ◌≤◌, [], ◌∷◌, Bool, true, false, Option, none, some, inl, inr, arith,
}
use trading_terminal_cluster.Common.Lists.{length, length-drop}
use trading_terminal_cluster.Common.Tests.{if◌then◌else◌, leb, Bool-cases}
use trading_terminal_cluster.Engine.Aggregator.{◌>>=◌}
use trading_terminal_cluster.Mexc.Protobuf.{
  Bytes, varint_from, read_varint, split_bytes, read_bytes, read_str, skip_bytes, skip,
}

-- A result leaves `k` bytes fewer at least, if there is one.
unfoldable pub Reads {ℓ} : {A : Type ℓ} → ℕ → Bytes → Option (A × Bytes) → Type 0
Reads k bs none = Unit
Reads k bs (some (_, rest)) = length rest + k ≤ length bs

pub then_Reads {ℓ} :
    {A : Type ℓ} (k m : ℕ) (bs rest : Bytes) (o : Option (A × Bytes))
    → length rest + k ≤ length bs
    → Reads m rest o
    → Reads (k + m) bs o
unfolding Reads
then_Reads k m bs rest none h g = _
then_Reads k m bs rest (some (a, more)) h g = omega (arith, h, g)

pub bind-Reads {ℓ κ} :
    {A : Type ℓ} {B : Type κ} (k m : ℕ) (bs : Bytes) (o : Option (A × Bytes))
    (f : A × Bytes → Option (B × Bytes))
    → Reads k bs o
    → ((a : A) (rest : Bytes) → Reads m rest (f (a, rest)))
    → Reads (k + m) bs (o >>= f)
unfolding Reads
bind-Reads k m bs none f h next = _
bind-Reads k m bs (some (a, rest)) f h next = then_Reads k m bs rest (f (a, rest)) h (next a rest)

pub if_Reads {ℓ} :
    {A : Type ℓ} (k : ℕ) (bs : Bytes) (c : Bool) (x y : Option (A × Bytes))
    → Reads k bs x
    → Reads k bs y
    → Reads k bs (if c then x else y)
if_Reads k bs true x y hx hy = hx
if_Reads k bs false x y hx hy = hy

pub cons_Reads {ℓ} :
    {A : Type ℓ} (b : ℕ) (bs : Bytes) (o : Option (A × Bytes)) → Reads 1 bs o → Reads 1 (b ∷ bs) o
unfolding Reads
cons_Reads b bs none h = _
cons_Reads b bs (some (a, rest)) h = omega (arith, h)

pub some-Reads {ℓ} :
    {A : Type ℓ} (k : ℕ) (bs : Bytes) (a : A) (rest : Bytes)
    → length rest + k ≤ length bs
    → Reads k bs (some (a, rest))
unfolding Reads
some-Reads k bs a rest h = h

pub left_fewer {ℓ} :
    {A : Type ℓ} (k : ℕ) (bs : Bytes) (a : A) (rest : Bytes)
    → Reads k bs (some (a, rest))
    → length rest + k ≤ length bs
unfolding Reads
left_fewer k bs a rest h = h

pub none-Reads {ℓ} : (A : Type ℓ) (k : ℕ) (bs : Bytes) → Reads {A = A} k bs none
unfolding Reads
none-Reads A k bs = _

pub varint-Reads : (shift result : ℕ) (bs : Bytes) → Reads 1 bs (varint_from shift result bs)
unfolding varint_from
varint-Reads shift result [] = none-Reads _ 1 []
varint-Reads shift result (b ∷ bs) =
    if_Reads 1 (b ∷ bs) _ _ _ (some-Reads 1 (b ∷ bs) _ bs (omega arith)) (
      if_Reads 1 (b ∷ bs) _ _ _ (none-Reads _ 1 (b ∷ bs))
        (cons_Reads b bs _ (varint-Reads (shift + 7) _ bs)))

pub read_varint-Reads : (bs : Bytes) → Reads 1 bs (read_varint bs)
unfolding read_varint
read_varint-Reads bs = varint-Reads 0 0 bs

pub split_bytes-Reads : (n : ℕ) (bs : Bytes) → Reads 0 bs (split_bytes n bs)
unfolding split_bytes
split_bytes-Reads n bs =
    if_Reads 0 bs _ _ _ (some-Reads 0 bs _ _ (omega (arith, length-drop n bs))) (none-Reads _ 0 bs)

pub read_bytes-Reads : (bs : Bytes) → Reads 1 bs (read_bytes bs)
unfolding read_bytes
read_bytes-Reads bs =
    bind-Reads 1 0 bs (read_varint bs) _ (read_varint-Reads bs)
      (λ len rest. split_bytes-Reads len rest)

pub read_str-Reads : (bs : Bytes) → Reads 1 bs (read_str bs)
unfolding read_str
read_str-Reads bs =
    bind-Reads 1 0 bs (read_bytes bs) _ (read_bytes-Reads bs) (λ s rest.
      if_Reads 0 rest _ _ _ (some-Reads 0 rest s rest (omega arith)) (none-Reads _ 0 rest))

-- As `Reads`, for what is left alone.
unfoldable pub Leaves : Bytes → Option Bytes → Type 0
Leaves bs none = Unit
Leaves bs (some rest) = length rest ≤ length bs

pub skip_bytes-Leaves : (n : ℕ) (bs : Bytes) → Leaves bs (skip_bytes n bs)
unfolding skip_bytes Leaves
skip_bytes-Leaves n bs = elim (Bool-cases (leb n (length bs))) [
  | inl h ↦ rw (skip_bytes, h) (omega (arith, length-drop n bs))
  | inr h ↦ rw (skip_bytes, h) _
]

pub drop_value-Leaves {ℓ} :
    {A : Type ℓ} (k : ℕ) (bs : Bytes) (o : Option (A × Bytes))
    → Reads k bs o
    → Leaves bs (o >>= λ (_, rest). some rest)
unfolding Reads Leaves
drop_value-Leaves k bs none h = _
drop_value-Leaves k bs (some (a, rest)) h = omega (arith, h)

pub if_Leaves :
    (bs : Bytes) (c : Bool) (x y : Option Bytes)
    → Leaves bs x
    → Leaves bs y
    → Leaves bs (if c then x else y)
if_Leaves bs true x y hx hy = hx
if_Leaves bs false x y hx hy = hy

pub none-Leaves : (bs : Bytes) → Leaves bs none
unfolding Leaves
none-Leaves bs = _

pub skip-Leaves : (wire : ℕ) (bs : Bytes) → Leaves bs (skip wire bs)
unfolding skip
skip-Leaves wire bs = if_Leaves bs _ _ _ (drop_value-Leaves 1 bs _ (read_varint-Reads bs)) (
    if_Leaves bs _ _ _ (skip_bytes-Leaves 8 bs) (
      if_Leaves bs _ _ _ (drop_value-Leaves 1 bs _ (read_bytes-Reads bs))
        (if_Leaves bs _ _ _ (skip_bytes-Leaves 4 bs) (none-Leaves bs))))
