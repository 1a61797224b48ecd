-- ===== src/Mexc/Protobuf.antt =====
-- crates/exchange-mexc/src/pb.rs: the decoder of protobuf messages. A buffer is the list of its bytes;
-- the position in it is the list of the bytes that are left. A text is the list of its bytes.
pub mod Varint
pub mod Reading
pub mod Ending
pub mod Fields
pub mod Deals
use Prim.Native.Nat.{bit_and, bit_or}
use trading_terminal_cluster.Common.{
  ℕ, zero, suc, ◌+◌, ◌*◌, ◌/◌, ◌%◌, ◌^◌, List, [], ◌∷◌, ◌++◌, Bool, true, false, ◌&&◌, Option, none,
  some,
}
use trading_terminal_cluster.Common.Int.{ℤ, pos}
use trading_terminal_cluster.Common.Lists.{length, take, drop}
use trading_terminal_cluster.Common.Machine.{wrap_i64, wrap_i32}
use trading_terminal_cluster.Common.Tests.{if◌then◌else◌, ltb, leb, nat_beq}
use trading_terminal_cluster.Common.Text.{Text, is_utf8}
use trading_terminal_cluster.Engine.Aggregator.{◌>>=◌}

abbrev pub Bytes : Type 0
Bytes = List ℕ

-- The loop of `read_varint`; `u64` drops the digits that `<<` moves past its 64.
unfoldable pub varint_from : ℕ → ℕ → Bytes → Option (ℕ × Bytes)
varint_from shift result [] = none
varint_from shift result (byte ∷ rest) =
    let read = bit_or result (bit_and byte 0x7f * 2 ^ shift % 2 ^ 64) in
    let more = varint_from (shift + 7) read rest in
    if nat_beq (bit_and byte 0x80) 0
    then some (read, rest)
    else if leb 64 (shift + 7)
    then none
    else more

unfoldable pub read_varint : Bytes → Option (ℕ × Bytes)
unfolding varint_from
read_varint bs = varint_from 0 0 bs

-- A field's number, which is a `u32`, and its wire type.
unfoldable pub tag_of : ℕ → Bytes → Option (ℕ × ℕ × Bytes)
tag_of key rest =
    let field = key / 8 % 2 ^ 32 in if nat_beq field 0 then none else some (field, key % 8, rest)

unfoldable pub read_tag : Bytes → Option (ℕ × ℕ × Bytes)
unfolding read_varint tag_of
read_tag bs = read_varint bs >>= λ (key, rest). tag_of key rest

unfoldable pub split_bytes : ℕ → Bytes → Option (Bytes × Bytes)
split_bytes len bs = if leb len (length bs) then some (take len bs, drop len bs) else none

unfoldable pub read_bytes : Bytes → Option (Bytes × Bytes)
unfolding read_varint split_bytes
read_bytes bs = read_varint bs >>= λ (len, rest). split_bytes len rest

unfoldable pub read_str : Bytes → Option (Text × Bytes)
unfolding read_bytes
read_str bs = read_bytes bs >>= λ (s, rest). if is_utf8 s then some (s, rest) else none

unfoldable pub skip_bytes : ℕ → Bytes → Option Bytes
skip_bytes n bs = if leb n (length bs) then some (drop n bs) else none

unfoldable pub skip : ℕ → Bytes → Option Bytes
unfolding read_varint skip_bytes read_bytes
skip wire bs =
    if nat_beq wire 0
    then (read_varint bs >>= λ (_, rest). some rest)
    else if nat_beq wire 1
    then skip_bytes 8 bs
    else if nat_beq wire 2
    then (read_bytes bs >>= λ (_, rest). some rest)
    else if nat_beq wire 5
    then skip_bytes 4 bs
    else none

-- What a decoder's loop comes to; `out_of_fuel` is not the code's, and is shown not to happen.
pub data Decoded {ℓ} (S : Type ℓ) : Type ℓ where
  decoded : S → Decoded S
  malformed out_of_fuel : Decoded S

-- A turn of a loop: a tag, and the arm for it.
unfoldable pub tagged {ℓ} :
    {S : Type ℓ} → (ℕ → ℕ → S → Bytes → Option (S × Bytes)) → S → Bytes → Option (S × Bytes)
unfolding read_tag
tagged arm s bs = read_tag bs >>= λ (field, wire, rest). arm field wire s rest

-- `while !pb.at_end()`: a tag, and the arm that its field and wire type have.
unfoldable pub while_fields {ℓ} :
    {S : Type ℓ} → (ℕ → ℕ → S → Bytes → Option (S × Bytes)) → ℕ → S → Bytes → Decoded S
unfolding tagged
while_fields arm fuel state [] = decoded state
while_fields arm zero state (b ∷ bs) = out_of_fuel
while_fields arm (suc fuel) state (b ∷ bs) = elim (tagged arm state (b ∷ bs)) [
  | none ↦ malformed
  | some (next, rest) ↦ while_fields arm fuel next rest
]

-- Another field is skipped.
unfoldable pub skip_arm {ℓ} : {S : Type ℓ} → ℕ → S → Bytes → Option (S × Bytes)
unfolding skip
skip_arm wire state bs = skip wire bs >>= λ rest. some (state, rest)

pub record Wrapper : Type 0 where
  pub channel : Text
  pub body : Bytes

unfoldable pub wrapper_arm : ℕ → ℕ → Wrapper → Bytes → Option (Wrapper × Bytes)
unfolding read_str read_bytes skip_arm
wrapper_arm field wire w bs =
    if nat_beq field 1 && nat_beq wire 2
    then (read_str bs >>= λ (s, rest). some (record w { channel = s }, rest))
    else if leb 301 field && leb field 399 && nat_beq wire 2
    then (read_bytes bs >>= λ (b, rest). some (record w { body = b }, rest))
    else skip_arm wire w bs

unfoldable pub with_channel : Decoded Wrapper → Decoded Wrapper
with_channel (decoded w) = elim (w.channel) [ [] ↦ malformed | _ ∷ _ ↦ decoded w ]
with_channel d = d

unfoldable pub decode_wrapper : Bytes → Decoded Wrapper
unfolding while_fields wrapper_arm with_channel
decode_wrapper buf =
    with_channel (while_fields wrapper_arm (length buf) (record { channel = []; body = [] }) buf)

pub record Deal : Type 0 where
  pub price : Text
  pub quantity : Text
  pub trade_type : ℤ
  pub time : ℤ

unfoldable pub deal_arm : ℕ → ℕ → Deal → Bytes → Option (Deal × Bytes)
unfolding read_str read_varint skip_arm
deal_arm field wire d bs =
    if nat_beq field 1 && nat_beq wire 2
    then (read_str bs >>= λ (s, rest). some (record d { price = s }, rest))
    else if nat_beq field 2 && nat_beq wire 2
    then (read_str bs >>= λ (s, rest). some (record d { quantity = s }, rest))
    else if nat_beq field 3 && nat_beq wire 0
    then (read_varint bs >>= λ (n, rest). some (record d { trade_type = wrap_i32 (pos n) }, rest))
    else if nat_beq field 4 && nat_beq wire 0
    then (read_varint bs >>= λ (n, rest). some (record d { time = wrap_i64 (pos n) }, rest))
    else skip_arm wire d bs

abbrev pub no_deal : Deal
no_deal = record { price = []; quantity = []; trade_type = pos 0; time = pos 0 }

unfoldable pub with_price : Decoded Deal → Decoded Deal
with_price (decoded d) = elim (d.price) [ [] ↦ malformed | _ ∷ _ ↦ decoded d ]
with_price d = d

unfoldable pub decode_deal : Bytes → Decoded Deal
unfolding while_fields deal_arm with_price
decode_deal body = with_price (while_fields deal_arm (length body) no_deal body)

-- A deal that does not decode is left out.
unfoldable pub push_deal : Decoded Deal → List Deal → List Deal
push_deal (decoded d) deals = deals ++ (d ∷ [])
push_deal _ deals = deals

unfoldable pub deals_arm : ℕ → ℕ → List Deal → Bytes → Option (List Deal × Bytes)
unfolding read_bytes skip_arm decode_deal push_deal
deals_arm field wire deals bs =
    if nat_beq field 1 && nat_beq wire 2
    then (read_bytes bs >>= λ (b, rest). some (push_deal (decode_deal b) deals, rest))
    else skip_arm wire deals bs

unfoldable pub decode_deals : Bytes → Decoded (List Deal)
unfolding while_fields deals_arm
decode_deals body = while_fields deals_arm (length body) [] body
