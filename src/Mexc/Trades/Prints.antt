-- ===== src/Mexc/Trades/Prints.antt =====
-- From the bytes of a frame to its trades: crates/exchange-mexc/src/pb.rs and mexc_trade.rs together.
use trading_terminal_cluster.Common.{
  ◌<◌, ◌^◌, sym, List, [], ◌∷◌, ◌++◌, map, true, none, some, ◌≡◌, ◌⊎◌, refl, ap, ◌∙◌, inl, inr,
  arith,
}
use trading_terminal_cluster.Common.Int.{ℤ, pos, negsuc}
use trading_terminal_cluster.Common.Machine.{saturating_mul}
use trading_terminal_cluster.Common.Lists.{length, All}
use trading_terminal_cluster.Common.Tests.{Option-cases, Bool-cases, nat_beq}
use mathlib.Core.Path.{subst₂}
use trading_terminal_cluster.Common.Text.{Text, codes, chars, contains, is_utf8, trim}
use trading_terminal_cluster.Core.{AggressorSide, bid, ask, SymbolSpec, TradePrint}
use trading_terminal_cluster.Scale
use trading_terminal_cluster.Scale.{parse_scaled, split_parts}
use trading_terminal_cluster.Scale.Sound.{Scaled, parse_scaled-Scaled}
use trading_terminal_cluster.Mexc.Protobuf.{
  Bytes, decoded, malformed, while_fields, tagged, read_tag, tag_of, read_varint, varint_from,
  Wrapper, wrapper_arm, with_channel, decode_wrapper, Deal,
}
use trading_terminal_cluster.Mexc.Protobuf.Fields.{
  encode_bytes, read_bytes-encode_bytes, read_str-encode_bytes,
}
use trading_terminal_cluster.Mexc.Protobuf.Ending.{
  while_fields-tagged, while_fields_nil, wrapper_arm-Arm,
}
use trading_terminal_cluster.Mexc.Protobuf.Deals.{
  SentDeal, deal_of, Sendable, encode_deals, decode_deals-encode_deals,
}
use trading_terminal_cluster.Mexc.Trades.{
  aggressor, deals_frame, Trades, trades, bad_body, bad_number, cons_trade, print_of, trades_of,
  trades_of_body, parse_value,
}

-- A frame: its channel is field 1, its body of deals is field 314.
unfoldable pub encode_frame : Text → Bytes → Bytes
encode_frame channel body =
    0x0a ∷ (encode_bytes channel ++ (0xd2 ∷ 0x13 ∷ (encode_bytes body ++ [])))

channel_field :
    (w : Wrapper) (s : Text) (rest : Bytes)
    → length s < 2 ^ 64
    → is_utf8 s ≡ true
    → tagged wrapper_arm w (0x0a ∷ (encode_bytes s ++ rest)) ≡ some (record w { channel = s }, rest)
unfolding tagged read_tag tag_of read_varint varint_from wrapper_arm
channel_field w s rest h utf8 = rw (read_str-encode_bytes s rest h utf8) refl

body_field :
    (w : Wrapper) (b rest : Bytes)
    → length b < 2 ^ 64
    → tagged wrapper_arm w (0xd2 ∷ 0x13 ∷ (encode_bytes b ++ rest))
      ≡ some (record w { body = b }, rest)
unfolding tagged read_tag tag_of read_varint varint_from wrapper_arm
body_field w b rest h = rw (read_bytes-encode_bytes b rest h) refl

with_channel_nonempty : (w : Wrapper) → 0 < length w.channel → with_channel (decoded w) ≡ decoded w
unfolding with_channel
with_channel_nonempty w h = nonempty w.channel h
  where
    nonempty : (s : Text) → 0 < length s → elim s [ [] ↦ malformed | _ ∷ _ ↦ decoded w ] ≡ decoded w
    nonempty [] h = absurd (omega arith)
    nonempty (c ∷ s) h = refl

abbrev no_fields : Wrapper
no_fields = record { channel = []; body = [] }

abbrev body_bytes : Bytes → Bytes
body_bytes body = 0xd2 ∷ 0x13 ∷ (encode_bytes body ++ [])

-- The two turns of the loop.
frame_fields :
    (channel : Text) (body : Bytes)
    → length channel < 2 ^ 64
    → is_utf8 channel ≡ true
    → length body < 2 ^ 64
    → while_fields wrapper_arm
        (length (encode_frame channel body))
        no_fields
        (encode_frame channel body)
      ≡ decoded (record { channel = channel; body = body })
unfolding encode_frame
frame_fields channel body len utf8 fits =
    while_fields-tagged wrapper_arm wrapper_arm-Arm no_fields
      (record { channel = channel; body = [] }) 0x0a (encode_bytes channel ++ body_bytes body)
      (body_bytes body) (channel_field no_fields channel (body_bytes body) len utf8)
    ∙ while_fields-tagged wrapper_arm wrapper_arm-Arm (record { channel = channel; body = [] })
        (record { channel = channel; body = body }) 0xd2 (0x13 ∷ (encode_bytes body ++ [])) []
        (body_field (record { channel = channel; body = [] }) body [] fits)
    ∙ while_fields_nil wrapper_arm 0 (record { channel = channel; body = body })

decode_wrapper-encode_frame :
    (channel : Text) (body : Bytes)
    → length channel < 2 ^ 64
    → is_utf8 channel ≡ true
    → 0 < length channel
    → length body < 2 ^ 64
    → decode_wrapper (encode_frame channel body)
      ≡ decoded (record { channel = channel; body = body })
unfolding decode_wrapper encode_frame
decode_wrapper-encode_frame channel body len utf8 some_channel fits =
    ap with_channel (frame_fields channel body len utf8 fits)
    ∙ with_channel_nonempty (record { channel = channel; body = body }) some_channel

-- The directions of a deal: 1 is a buyer's trade, 2 a seller's.
pub data Says : ℤ → AggressorSide → Type 0 where
  buys : Says (pos 1) bid
  sells : Says (pos 2) ask

-- The trades that deals stand for: one for each deal whose direction is known, in their order, with
-- the decimals that its texts spell.
pub data Printed (spec : SymbolSpec) : List Deal → List TradePrint → Type 0 where
  none_left : Printed spec [] []
  unknown_side :
      {d : Deal} {deals : List Deal} {ts : List TradePrint}
      → ¬ (d.trade_type ≡ pos 1)
      → ¬ (d.trade_type ≡ pos 2)
      → Printed spec deals ts
      → Printed spec (d ∷ deals) ts
  printed :
      {d : Deal} {t : TradePrint} {deals : List Deal} {ts : List TradePrint}
      → Says d.trade_type t.aggressor
      → Scaled
          (split_parts (trim (chars d.price))).0
          (split_parts (trim (chars d.price))).1
          spec.price_scale
          t.price
      → Scaled
          (split_parts (trim (chars d.quantity))).0
          (split_parts (trim (chars d.quantity))).1
          spec.qty_scale
          t.qty
      → t.exchange_ts_ns ≡ saturating_mul d.time (pos 1_000_000)
      → t.trade_id ≡ 0
      → Printed spec deals ts
      → Printed spec (d ∷ deals) (t ∷ ts)

Says-aggressor : (z : ℤ) (side : AggressorSide) → aggressor z ≡ some side → Says z side
unfolding aggressor
Says-aggressor (negsuc n) side h = absurd (ground (arith, h))
Says-aggressor (pos n) side h = elim (Bool-cases (nat_beq n 1)) [
  | inl one ↦
      let is : n ≡ 1 = ground (arith, one) in
      let says : bid ≡ side = ground (arith, h, one) in subst₂ Says (ap pos (sym is)) says buys
  | inr other ↦
      let is : n ≡ 2 = ground (arith, h, other) in
      let says : ask ≡ side = ground (arith, h, other) in subst₂ Says (ap pos (sym is)) says sells
]

Unknown-aggressor : (z : ℤ) → aggressor z ≡ none → (¬ (z ≡ pos 1)) × (¬ (z ≡ pos 2))
unfolding aggressor
Unknown-aggressor z h =
    (λ one. absurd (ground (arith, h, one)), λ two. absurd (ground (arith, h, two)))

Number-cases :
    (r : Scale.Result ℤ)
    → ((e : Scale.ParseError) × (r ≡ Scale.err e)) ⊎ ((z : ℤ) × (r ≡ Scale.ok z))
Number-cases (Scale.err e) = inl (e, refl)
Number-cases (Scale.ok z) = inr (z, refl)

cons_trade_inv :
    (t : TradePrint) (rest : Trades) (ts : List TradePrint)
    → cons_trade t rest ≡ trades ts
    → (more : List TradePrint) × (rest ≡ trades more) × (ts ≡ t ∷ more)
unfolding cons_trade
cons_trade_inv t (trades more) ts h = (more, refl, ground (arith, h))
cons_trade_inv t bad_body ts h = absurd (ground (arith, h))
cons_trade_inv t (bad_number e) ts h = absurd (ground (arith, h))

-- Deals that the parser turns into trades give one trade for each deal of direction 1, a bid, or 2, an
-- ask, in the order of the deals: its price is what the deal's price text spells at the symbol's price
-- scale, its quantity what the quantity text spells at the quantity scale, its instant the deal's
-- milliseconds in nanoseconds, at most the largest `i64`, and its id 0.
pub trades_of-Printed :
    (spec : SymbolSpec) (deals : List Deal) (ts : List TradePrint)
    → trades_of spec deals ≡ trades ts
    → Printed spec deals ts
unfolding trades_of
trades_of-Printed spec [] ts h =
    let none_more : ts ≡ [] = ground (arith, h) in rw none_more none_left
trades_of-Printed spec (d ∷ deals) ts h = elim (Option-cases (aggressor d.trade_type)) [
  | inl unknown ↦
      let (no_bid, no_ask) = Unknown-aggressor d.trade_type unknown in
      unknown_side no_bid no_ask (trades_of-Printed spec deals ts (ground (arith, unknown, h)))
  | inr (side, known) ↦ elim (Number-cases (parse_scaled (chars d.price) spec.price_scale)) [
    | inl (e, bad) ↦ absurd (ground (arith, known, bad, h))
    | inr (price, p) ↦ elim (Number-cases (parse_scaled (chars d.quantity) spec.qty_scale)) [
      | inl (e, bad) ↦ absurd (ground (arith, known, p, bad, h))
      | inr (qty, q) ↦
          let (more, rest, is) =
            cons_trade_inv (print_of d side price qty) (trades_of spec deals) ts
              (ground (arith, known, p, q, h)) in
          rw is (
            printed (Says-aggressor d.trade_type side known)
              (parse_scaled-Scaled (chars d.price) spec.price_scale price p)
              (parse_scaled-Scaled (chars d.quantity) spec.qty_scale qty q) refl refl
              (trades_of-Printed spec deals more rest))
    ]
  ]
]

-- A frame of deals, sent with a channel that names them, is parsed as its deals are: no byte of it
-- is lost or read twice, whatever the deals are.
pub parse_value-encode_frame :
    (spec : SymbolSpec) (channel : Text) (ds : List SentDeal)
    → length channel < 2 ^ 64
    → is_utf8 channel ≡ true
    → 0 < length channel
    → contains (codes "deals") channel ≡ true
    → All Sendable ds
    → length (encode_deals ds) < 2 ^ 64
    → parse_value (encode_frame channel (encode_deals ds)) spec ≡ trades_of spec (map deal_of ds)
unfolding parse_value deals_frame trades_of_body
parse_value-encode_frame spec channel ds len utf8 some_channel deals sendable fits =
    let wrapper =
      decode_wrapper-encode_frame channel (encode_deals ds) len utf8 some_channel fits in
    ground (arith, wrapper, deals, decode_deals-encode_deals ds sendable)
