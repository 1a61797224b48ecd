-- ===== src/Examples/Documents.antt =====
-- A small JSON reader, for the runs of the adapters under crates/.
use trading_terminal_cluster.Common.{ℕ, List, [], ◌∷◌, Bool, true, false, Option, none, some}
use trading_terminal_cluster.Common.Tests.{if◌then◌else◌}
use trading_terminal_cluster.Common.Int.{pos}
use trading_terminal_cluster.Common.Eq.{◌==◌, nat_eq, list_eq}
use trading_terminal_cluster.Common.Text.{Text}
use trading_terminal_cluster.Common.Show.{show_from}
use trading_terminal_cluster.Common.Json.{Json, and_then}
use trading_terminal_cluster.Core.Wire.{symbol_key_eq}

-- The documents that these examples are about.
pub data Document : Type 0 where
  text : Text → Document
  number : ℕ → Document
  end : Document
  entry : Text → Document → Document → Document
  item : Document → Document → Document

abbrev field : Text → Document → Option Document
field key (entry k v rest) = if k == key then some v else field key rest
field key _ = none

abbrev elements : Document → Option (List Document)
elements end = some []
elements (item v rest) = and_then (elements rest) (λ vs. some (v ∷ vs))
elements _ = none

abbrev as_text : Document → Option Text
as_text (text s) = some s
as_text _ = none

abbrev as_number : Document → Option ℕ
as_number (number n) = some n
as_number _ = none

abbrev is_entry : Document → Bool
is_entry (entry _ _ _) = true
is_entry _ = false

-- A reader that answers every text with this document.
abbrev pub reading : Document → Json
reading answer = record {
  Value = Document;
  from_str = λ _. some answer;
  get = field;
  as_str = as_text;
  as_array = elements;
  as_i64 = λ v. and_then (as_number v) (λ n. some (pos n));
  as_u64 = as_number;
  as_bool = λ _. none;
  is_object = is_entry;
  number_text = λ v. and_then (as_number v) (λ n. some (show_from 40 n []));
}

abbrev pub object : List (Text × Document) → Document
object [] = end
object ((k, v) ∷ fields) = entry k v (object fields)

abbrev pub array : List Document → Document
array [] = end
array (v ∷ vs) = item v (array vs)
