-- ===== src/Common/Json.antt =====
-- serde_json as a parameter: its values and the accessors that the program calls.
use trading_terminal_cluster.Common.{ℕ, List, Bool, Option, none, some, ◌≡◌, refl, arith}
use trading_terminal_cluster.Common.Int.{ℤ}
use trading_terminal_cluster.Common.Text.{Text}

-- `from_str` reads a text; `number_text` is what `to_string` makes of a number, and nothing for
-- any other value; the others are the methods of a `Value`.
pub record Json : Type 1 where
  pub Value : Type 0
  pub from_str : Text → Option Value
  pub get : Text → Value → Option Value
  pub as_str : Value → Option Text
  pub as_array : Value → Option (List Value)
  pub as_i64 : Value → Option ℤ
  pub as_u64 : Value → Option ℕ
  pub as_bool : Value → Option Bool
  pub is_object : Value → Bool
  pub number_text : Value → Option Text

abbrev pub and_then {ℓ κ} : {A : Type ℓ} {B : Type κ} → Option A → (A → Option B) → Option B
and_then none next = none
and_then (some a) next = next a

-- `unwrap_or` and `or_else`.
abbrev pub or_default {ℓ} : {A : Type ℓ} → A → Option A → A
or_default a none = a
or_default a (some b) = b

abbrev pub or_else {ℓ} : {A : Type ℓ} → Option A → Option A → Option A
or_else none other = other
or_else (some a) other = some a

module _ (json : Json) where
  open json use {Value, get, as_str, as_array, as_i64, as_u64, as_bool}

  -- A field by its accessor: `v.get(key).and_then(|x| x.as_str())` and the like.
  unfoldable pub str_field : Text → Value → Option Text
  str_field key v = and_then (get key v) as_str

  unfoldable pub array_field : Text → Value → Option (List Value)
  array_field key v = and_then (get key v) as_array

  unfoldable pub i64_field : Text → Value → Option ℤ
  i64_field key v = and_then (get key v) as_i64

  unfoldable pub u64_field : Text → Value → Option ℕ
  u64_field key v = and_then (get key v) as_u64

  unfoldable pub bool_field : Text → Value → Option Bool
  bool_field key v = and_then (get key v) as_bool

-- Inversion of a successful chain.
pub and_then-some {ℓ κ} :
    {A : Type ℓ} {B : Type κ} (o : Option A) (next : A → Option B) {b : B}
    → and_then o next ≡ some b
    → (a : A) × (o ≡ some a) × (next a ≡ some b)
and_then-some none next h = ground arith
and_then-some (some a) next h = (a, refl, h)
