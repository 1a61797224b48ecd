-- ===== src/Mexc/Protobuf/Deals.antt =====
-- Deals as bytes, and that `decode_deals` of crates/exchange-mexc/src/pb.rs undoes them.
use trading_terminal_cluster.Common.{
  ℕ, ◌<◌, ◌^◌, List, [], ◌∷◌, ◌++◌, map, append_assoc, append-nil, true, some, ◌≡◌, refl, ap, sym,
  ◌∙◌, arith,
}
use trading_terminal_cluster.Common.Int.{pos}
use trading_terminal_cluster.Common.Lists.{length, All}
use trading_terminal_cluster.Common.Machine.{wrap_i32, wrap_i64}
use trading_terminal_cluster.Common.Text.{Text, is_utf8}
use trading_terminal_cluster.Mexc.Protobuf.{
  Bytes, decoded, malformed, while_fields, tagged, read_tag, tag_of, read_varint, varint_from, Deal,
  no_deal, deal_arm, with_price, decode_deal, push_deal, deals_arm, decode_deals,
}
use trading_terminal_cluster.Mexc.Protobuf.Varint.{encode_varint, read_varint-encode_varint}
use trading_terminal_cluster.Mexc.Protobuf.Fields.{
  encode_bytes, read_bytes-encode_bytes, read_str-encode_bytes,
}
use trading_terminal_cluster.Mexc.Protobuf.Ending.{
  while_fields-tagged, while_fields_nil, deal_arm-Arm, deals_arm-Arm,
}

-- A deal as the exchange has it.
pub record SentDeal : Type 0 where
  pub price : Text
  pub quantity : Text
  pub trade_type : ℕ
  pub time : ℕ

unfoldable pub deal_of : SentDeal → Deal
deal_of d = record {
  price = d.price;
  quantity = d.quantity;
  trade_type = pos d.trade_type;
  time = pos d.time;
}

-- Its fields 1 to 4.
unfoldable pub encode_deal : SentDeal → Bytes
encode_deal d =
    0x0a
    ∷ (encode_bytes d.price
        ++ (0x12
            ∷ (encode_bytes d.quantity
                ++ (0x18 ∷ (encode_varint d.trade_type ++ (0x20 ∷ (encode_varint d.time ++ [])))))))

-- Texts that are UTF-8 and can be that long, a price that is not empty, and numbers in range.
unfoldable pub Sendable : SentDeal → Type 0
Sendable d =
    ((length d.price < 2 ^ 64) × (is_utf8 d.price ≡ true) × (0 < length d.price))
    × ((length d.quantity < 2 ^ 64) × (is_utf8 d.quantity ≡ true))
    × ((d.trade_type < 2 ^ 31) × (d.time < 2 ^ 63))
    × (length (encode_deal d) < 2 ^ 64)

price_field :
    (d : Deal) (s : Text) (rest : Bytes)
    → length s < 2 ^ 64
    → is_utf8 s ≡ true
    → tagged deal_arm d (0x0a ∷ (encode_bytes s ++ rest)) ≡ some (record d { price = s }, rest)
unfolding tagged read_tag tag_of read_varint varint_from deal_arm
price_field d s rest h utf8 = rw (read_str-encode_bytes s rest h utf8) refl

quantity_field :
    (d : Deal) (s : Text) (rest : Bytes)
    → length s < 2 ^ 64
    → is_utf8 s ≡ true
    → tagged deal_arm d (0x12 ∷ (encode_bytes s ++ rest)) ≡ some (record d { quantity = s }, rest)
unfolding tagged read_tag tag_of read_varint varint_from deal_arm
quantity_field d s rest h utf8 = rw (read_str-encode_bytes s rest h utf8) refl

trade_type_field :
    (d : Deal) (n : ℕ) (rest : Bytes)
    → n < 2 ^ 64
    → tagged deal_arm d (0x18 ∷ (encode_varint n ++ rest))
      ≡ some (record d { trade_type = wrap_i32 (pos n) }, rest)
unfolding tagged read_tag tag_of varint_from deal_arm
trade_type_field d n rest h = rw (read_varint-encode_varint n rest h) refl

time_field :
    (d : Deal) (n : ℕ) (rest : Bytes)
    → n < 2 ^ 64
    → tagged deal_arm d (0x20 ∷ (encode_varint n ++ rest))
      ≡ some (record d { time = wrap_i64 (pos n) }, rest)
unfolding tagged read_tag tag_of varint_from deal_arm
time_field d n rest h = rw (read_varint-encode_varint n rest h) refl

wrap_small :
    (n m : ℕ) → n < 2 ^ 31 → m < 2 ^ 63 → (wrap_i32 (pos n) ≡ pos n) × (wrap_i64 (pos m) ≡ pos m)
unfolding wrap_i32 wrap_i64
wrap_small n m hn hm = (ground arith, ground arith)

with_price_nonempty : (d : Deal) → 0 < length d.price → with_price (decoded d) ≡ decoded d
unfolding with_price
with_price_nonempty d h = nonempty d.price h
  where
    nonempty : (s : Text) → 0 < length s → elim s [ [] ↦ malformed | _ ∷ _ ↦ decoded d ] ≡ decoded d
    nonempty [] h = absurd (omega arith)
    nonempty (c ∷ s) h = refl

-- The four turns of the loop.
deal_fields :
    (d : SentDeal)
    → Sendable d
    → while_fields deal_arm (length (encode_deal d)) no_deal (encode_deal d) ≡ decoded (deal_of d)
unfolding encode_deal deal_of Sendable
deal_fields d ((p_len, p_utf8, _), (q_len, q_utf8), (t_range, m_range), _) =
    let (t_same, m_same) = wrap_small d.trade_type d.time t_range m_range in
    while_fields-tagged deal_arm deal_arm-Arm no_deal _ 0x0a _ _
      (price_field no_deal d.price _ p_len p_utf8)
    ∙ while_fields-tagged deal_arm deal_arm-Arm _ _ 0x12 _ _
        (quantity_field _ d.quantity _ q_len q_utf8)
    ∙ while_fields-tagged deal_arm deal_arm-Arm _ _ 0x18 _ _
        (trade_type_field _ d.trade_type _ (omega (arith, t_range)))
    ∙ while_fields-tagged deal_arm deal_arm-Arm _ _ 0x20 _ _
        (time_field _ d.time _ (omega (arith, m_range)))
    ∙ while_fields_nil deal_arm 0 _
    ∙ rw (t_same, m_same) refl

decode_deal-encode_deal :
    (d : SentDeal) → Sendable d → decode_deal (encode_deal d) ≡ decoded (deal_of d)
unfolding Sendable decode_deal deal_of
decode_deal-encode_deal d h = rw (deal_fields d h) (with_price_nonempty (deal_of d) h.0.2)

-- A list of deals as the body of a message: each is a field 1 of its own.
unfoldable pub encode_deals : List SentDeal → Bytes
encode_deals [] = []
encode_deals (d ∷ ds) = 0x0a ∷ (encode_bytes (encode_deal d) ++ encode_deals ds)

deal_field :
    (deals : List Deal) (d : SentDeal) (rest : Bytes)
    → Sendable d
    → tagged deals_arm deals (0x0a ∷ (encode_bytes (encode_deal d) ++ rest))
      ≡ some (deals ++ (deal_of d ∷ []), rest)
unfolding tagged read_tag tag_of read_varint varint_from deals_arm Sendable push_deal
deal_field deals d rest h =
    rw (read_bytes-encode_bytes (encode_deal d) rest h.3) (rw (decode_deal-encode_deal d h) refl)

decode_deals_from :
    (deals : List Deal) (ds : List SentDeal)
    → All Sendable ds
    → while_fields deals_arm (length (encode_deals ds)) deals (encode_deals ds)
      ≡ decoded (deals ++ map deal_of ds)
unfolding encode_deals
decode_deals_from deals [] h =
    while_fields_nil deals_arm 0 deals ∙ ap decoded (sym (append-nil deals))
decode_deals_from deals (d ∷ ds) (sendable, h) =
    while_fields-tagged deals_arm deals_arm-Arm deals _ 0x0a _ _ (deal_field deals d _ sendable)
    ∙ decode_deals_from (deals ++ (deal_of d ∷ [])) ds h
    ∙ ap decoded (append_assoc deals (deal_of d ∷ []) (map deal_of ds))

-- The body that carries a list of deals is decoded as these deals, in their order, where each has a
-- price, its texts are UTF-8, and its lengths and numbers fit their types.
pub decode_deals-encode_deals :
    (ds : List SentDeal)
    → All Sendable ds
    → decode_deals (encode_deals ds) ≡ decoded (map deal_of ds)
unfolding decode_deals
decode_deals-encode_deals ds h = decode_deals_from [] ds h
