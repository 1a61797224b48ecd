-- ===== src/Api/Stream.antt =====
-- crates/cluster-api/src/stream_server.rs: the subscriptions of the gRPC stream. The messages are
-- those of the protobuf schema.
use mathlib.Core.List.{map}
use mathlib.Core.Path.{subst}
use trading_terminal_cluster.Common.{
  ℕ, suc, ◌≤◌, List, [], ◌∷◌, ◌≡◌, refl, sym, ap, ◌∙◌, arith, Bool, true, false, Option, none, some,
  ◌↔◌, ◌⊎◌, inl, inr,
}
use trading_terminal_cluster.Common.Lists.{length}
use trading_terminal_cluster.Common.Tests.{if◌then◌else◌, ltb, nat_beq}
use trading_terminal_cluster.Common.Int.{ℤ}
use trading_terminal_cluster.Common.Text.{Text}
use trading_terminal_cluster.Core.{
  SymbolKey, StreamKey, ClusterFrame, snapshot, diff, ClusterBucket, Exchange, MarketType, wire_id,
}
use trading_terminal_cluster.Core.Wire.{
  parse_exchange, parse_market_type, market_type_wire, parse_exchange_iff, parse_market_type_iff,
}
use trading_terminal_cluster.Engine.Bus.{ClusterBus, subscribe}

pub record ProtoKey : Type 0 where
  pub exchange : Text
  pub market_type : Text
  pub symbol : Text

pub data Status : Type 0 where
  no_symbols too_many_symbols unknown_exchange unknown_market_type empty_symbol : Status

pub data Result {ℓ} (A : Type ℓ) : Type ℓ where
  ok : A → Result A
  err : Status → Result A

abbrev pub is_empty {ℓ} : {A : Type ℓ} → List A → Bool
is_empty [] = true
is_empty (x ∷ xs) = false

unfoldable pub symbol_key_from_proto : ProtoKey → Result SymbolKey
symbol_key_from_proto p = elim (parse_exchange p.exchange) [
  | none ↦ err unknown_exchange
  | some e ↦ elim (parse_market_type p.market_type) [
    | none ↦ err unknown_market_type
    | some m ↦
        if is_empty p.symbol
        then err empty_symbol
        else ok (record { exchange = e; market_type = m; symbol = p.symbol })
  ]
]

unfoldable pub proto_key_from_domain : SymbolKey → ProtoKey
proto_key_from_domain k = record {
  exchange = wire_id k.exchange;
  market_type = market_type_wire k.market_type;
  symbol = k.symbol;
}

pub record ProtoBucket : Type 0 where
  pub price : ℤ
  pub bid_qty : ℤ
  pub ask_qty : ℤ
  pub trades : ℕ

pub data ProtoBody : Type 0 where
  snapshot_body : (window_start_ns sequence : ℤ) → List ProtoBucket → ProtoBody
  diff_body : (window_start_ns sequence : ℤ) → List ProtoBucket → List ℤ → ProtoBody

unfoldable pub bucket_to_proto : ClusterBucket → ProtoBucket
bucket_to_proto b = record {
  price = b.price;
  bid_qty = b.bid_qty;
  ask_qty = b.ask_qty;
  trades = b.trades;
}

-- The open, close, high and low prices of a snapshot are not sent.
unfoldable pub body_to_proto : ClusterFrame → ProtoBody
unfolding bucket_to_proto
body_to_proto (snapshot s) =
    snapshot_body s.window_start_ns s.sequence (map bucket_to_proto s.clusters)
body_to_proto (diff d) =
    diff_body d.window_start_ns d.sequence (map bucket_to_proto d.upserts) d.removes

unfoldable pub frame_to_proto : ProtoKey → ClusterFrame → ProtoKey × ProtoBody
unfolding body_to_proto
frame_to_proto key frame = (key, body_to_proto frame)

pub record SubscribeRequest : Type 0 where
  pub symbols : List ProtoKey
  pub interval_seconds : ℕ

unfoldable pub interval_of : ℕ → ℕ
interval_of n = if nat_beq n 0 then 60 else n

module _ {Channel Receiver : Type 0} (channel : ℕ → Channel)
    (send : ClusterFrame → Channel → Channel) (attach : Channel → Channel × Receiver) where
  -- The merged streams, each with the key that its frames carry. A refused symbol leaves the
  -- channels that the symbols before it opened.
  unfoldable pub subscribe_all :
      ℕ
      → List ProtoKey
      → ClusterBus Channel
      → ClusterBus Channel × Result (List (ProtoKey × Receiver))
  unfolding symbol_key_from_proto proto_key_from_domain
  subscribe_all interval [] bus = (bus, ok [])
  subscribe_all interval (p ∷ ps) bus = elim (symbol_key_from_proto p) [
    | err e ↦ (bus, err e)
    | ok key ↦
        let stream_key : StreamKey = record { symbol = key; interval_seconds = interval } in
        let (b, rx) = subscribe channel send attach stream_key bus in
        let (c, rest) = subscribe_all interval ps b in
        elim rest [
          | err e ↦ (c, err e)
          | ok streams ↦ (c, ok ((proto_key_from_domain key, rx) ∷ streams))
        ]
  ]

  unfoldable pub handle_subscribe :
      SubscribeRequest
      → ClusterBus Channel
      → ClusterBus Channel × Result (List (ProtoKey × Receiver))
  unfolding subscribe_all interval_of
  handle_subscribe req bus =
      if is_empty req.symbols
      then (bus, err no_symbols)
      else if ltb 1024 (length req.symbols)
      then (bus, err too_many_symbols)
      else subscribe_all (interval_of req.interval_seconds) req.symbols bus

-- `symbol_key_from_proto` after its two parsers.
from_parts : Option Exchange → Option MarketType → Text → Result SymbolKey
from_parts oe om symbol = elim oe [
  | none ↦ err unknown_exchange
  | some e ↦ elim om [
    | none ↦ err unknown_market_type
    | some m ↦
        if is_empty symbol
        then err empty_symbol
        else ok (record { exchange = e; market_type = m; symbol = symbol })
  ]
]

from_parts_inv :
    (oe : Option Exchange) (om : Option MarketType) (symbol : Text) (k : SymbolKey)
    → from_parts oe om symbol ≡ ok k
    → (oe ≡ some k.exchange)
      × (om ≡ some k.market_type)
      × (symbol ≡ k.symbol)
      × (is_empty symbol ≡ false)
unfolding from_parts
from_parts_inv none om symbol k h = ground arith
from_parts_inv (some e) none symbol k h = ground arith
from_parts_inv (some e) (some m) symbol k h = ground arith

key_accepted :
    (k : SymbolKey)
    → is_empty k.symbol ≡ false
    → symbol_key_from_proto (proto_key_from_domain k) ≡ ok k
unfolding symbol_key_from_proto proto_key_from_domain
key_accepted k full =
    rw ((parse_exchange_iff _ k.exchange).1 refl, symbol_key_from_proto, proto_key_from_domain)
      (rw ((parse_market_type_iff _ k.market_type).1 refl) (rw full refl))

-- A key that is accepted is the one that its frames carry, and has a symbol; and a key of the
-- program with a symbol is accepted as itself.
pub proto_key-round_trip :
    (p : ProtoKey) (k : SymbolKey)
    → (symbol_key_from_proto p ≡ ok k)
      ↔ ((proto_key_from_domain k ≡ p) × (is_empty k.symbol ≡ false))
unfolding symbol_key_from_proto proto_key_from_domain from_parts
proto_key-round_trip p k = (
  λ h.
      let (he, hm, hs, full) =
        from_parts_inv (parse_exchange p.exchange) (parse_market_type p.market_type) p.symbol k h in
      let e = (parse_exchange_iff p.exchange k.exchange).0 he in
      let m = (parse_market_type_iff p.market_type k.market_type).0 hm in
      (
        λ i. record { exchange = e i; market_type = m i; symbol = sym hs i },
        subst (λ s. is_empty s ≡ false) hs full,
      ),
  λ (h, full). subst (λ q. symbol_key_from_proto q ≡ ok k) h (key_accepted k full),
)

-- The keys of the streams that a client is given.
abbrev pub keys_of {ℓ} : {Receiver : Type ℓ} → List (ProtoKey × Receiver) → List ProtoKey
keys_of [] = []
keys_of ((key, rx) ∷ ss) = key ∷ keys_of ss

length-keys_of {ℓ} :
    {Receiver : Type ℓ} (ss : List (ProtoKey × Receiver)) → length (keys_of ss) ≡ length ss
length-keys_of [] = refl
length-keys_of ((key, rx) ∷ ss) = ap suc (length-keys_of ss)

length-nonempty {ℓ} : {A : Type ℓ} (xs : List A) → is_empty xs ≡ false → 1 ≤ length xs
length-nonempty [] h = ground arith
length-nonempty (x ∷ xs) h = omega arith

pub Result-cases {ℓ} :
    {A : Type ℓ} (r : Result A) → ((e : Status) × (r ≡ err e)) ⊎ ((a : A) × (r ≡ ok a))
Result-cases (err e) = inl (e, refl)
Result-cases (ok a) = inr (a, refl)

module _ {Channel Receiver : Type 0} (channel : ℕ → Channel)
    (send : ClusterFrame → Channel → Channel) (attach : Channel → Channel × Receiver) where
  subscribe_all-keys_of :
      (n : ℕ) (ps : List ProtoKey) (bus : ClusterBus Channel) (ss : List (ProtoKey × Receiver))
      → (subscribe_all channel send attach n ps bus).1 ≡ ok ss
      → keys_of ss ≡ ps
  unfolding subscribe_all
  subscribe_all-keys_of n [] bus ss h = ap keys_of (ok_injective (sym h))
    where
      ok_injective : {x y : List (ProtoKey × Receiver)} → ok x ≡ ok y → x ≡ y
      ok_injective h = cc
  subscribe_all-keys_of n (p ∷ ps) bus ss h = elim (Result-cases (symbol_key_from_proto p)) [
    | inl (e, he) ↦ absurd (err_ok e ss (rw (he, subscribe_all) at h))
    | inr (k, hk) ↦
        let opened = rw (hk, subscribe_all) at h in
        let stream_key : StreamKey = record { symbol = k; interval_seconds = n } in
        let b = (subscribe channel send attach stream_key bus).0 in
        let rx = (subscribe channel send attach stream_key bus).1 in
        let (rest, answered, is) = rest_of (subscribe_all channel send attach n ps b) _ ss opened in
        ap keys_of is
        ∙ ap (λ q. q ∷ keys_of rest) ((proto_key-round_trip p k).0 hk).0
        ∙ ap (◌∷◌ p) (subscribe_all-keys_of n ps b rest answered)
  ]
    where
      err_ok : (e : Status) (ss : List (ProtoKey × Receiver)) → err e ≡ ok ss → ⊥
      err_ok e ss h = ground arith

      rest_of :
          (r : ClusterBus Channel × Result (List (ProtoKey × Receiver))) (s : ProtoKey × Receiver)
          (ss : List (ProtoKey × Receiver))
          → (let out : ClusterBus Channel × Result (List (ProtoKey × Receiver)) = elim r.1 [
            | err e ↦ (r.0, err e)
            | ok streams ↦ (r.0, ok (s ∷ streams))
          ] in
              out.1)
            ≡ ok ss
          → (rest : List (ProtoKey × Receiver)) × (r.1 ≡ ok rest) × (ss ≡ s ∷ rest)
      rest_of (c, err e) s ss h = absurd (ground arith)
      rest_of (c, ok rest) s ss h = (rest, refl, cc)

  -- A subscription that is granted has one stream for each requested symbol, in the order of the
  -- request and marked with the key that was requested, and at least one and at most 1024 of them.
  pub handle_subscribe-keys_of :
      (req : SubscribeRequest) (bus : ClusterBus Channel) (ss : List (ProtoKey × Receiver))
      → (handle_subscribe channel send attach req bus).1 ≡ ok ss
      → (keys_of ss ≡ req.symbols) × (1 ≤ length ss) × (length ss ≤ 1024)
  unfolding handle_subscribe
  handle_subscribe-keys_of req bus ss h =
      let (some_symbols, few, answered) =
        granted (is_empty req.symbols) (ltb 1024 (length req.symbols)) bus _ ss h in
      let same =
        subscribe_all-keys_of (interval_of req.interval_seconds) req.symbols bus ss answered in
      let count = sym (length-keys_of ss) ∙ ap length same in
      (
        same,
        omega (arith, count, length-nonempty req.symbols some_symbols),
        ground (arith, count, few),
      )
    where
      granted :
          (e m : Bool) (bus : ClusterBus Channel)
          (r : ClusterBus Channel × Result (List (ProtoKey × Receiver)))
          (ss : List (ProtoKey × Receiver))
          → (if e then (bus, err no_symbols) else if m then (bus, err too_many_symbols) else r).1
            ≡ ok ss
          → (e ≡ false) × (m ≡ false) × (r.1 ≡ ok ss)
      granted true m bus r ss h = absurd (ground arith)
      granted false true bus r ss h = absurd (ground arith)
      granted false false bus r ss h = (refl, refl, h)
