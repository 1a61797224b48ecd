-- ===== src/Mexc/Protobuf/Ending.antt =====
-- The loops of crates/exchange-mexc/src/pb.rs end: each turn reads a byte at least.
use trading_terminal_cluster.Common.{
  ℕ, zero, suc, ◌≤◌, [], ◌∷◌, ◌&&◌, ◌/◌, ◌%◌, ◌^◌, Option, none, some, ◌≡◌, ◌≢◌, ◌∙◌, ap, sym, refl,
  inl, inr, arith,
}
use trading_terminal_cluster.Common.Int.{pos}
use trading_terminal_cluster.Common.Machine.{wrap_i32, wrap_i64}
use trading_terminal_cluster.Common.Lists.{length}
use trading_terminal_cluster.Common.Tests.{leb, nat_beq, Bool-cases, Option-cases}
use trading_terminal_cluster.Common.Text.{Text}
use trading_terminal_cluster.Engine.Aggregator.{◌>>=◌}
use trading_terminal_cluster.Mexc.Protobuf.{
  Bytes, read_varint, tag_of, read_tag, read_bytes, read_str, skip, Decoded, decoded, malformed,
  out_of_fuel, while_fields, tagged, skip_arm, Wrapper, wrapper_arm, with_channel, decode_wrapper,
  Deal, deal_arm, with_price, decode_deal, deals_arm, decode_deals, push_deal,
}
use trading_terminal_cluster.Mexc.Protobuf.Reading.{
  Reads, then_Reads, if_Reads, some-Reads, left_fewer, none-Reads, read_varint-Reads,
  read_bytes-Reads, read_str-Reads, Leaves, skip-Leaves,
}

keep_state-Reads {ℓ} :
    {S : Type ℓ} (s : S) (bs : Bytes) (o : Option Bytes)
    → Leaves bs o
    → Reads 0 bs (o >>= λ rest. some (s, rest))
unfolding Leaves
keep_state-Reads s bs none h = none-Reads _ 0 bs
keep_state-Reads s bs (some rest) h = some-Reads 0 bs s rest (omega (arith, h))

skip_arm-Reads {ℓ} : {S : Type ℓ} (wire : ℕ) (s : S) (bs : Bytes) → Reads 0 bs (skip_arm wire s bs)
unfolding skip_arm
skip_arm-Reads wire s bs = keep_state-Reads s bs (skip wire bs) (skip-Leaves wire bs)

-- An arm leaves no more bytes than it was given.
pub Arm {ℓ} : {S : Type ℓ} → (ℕ → ℕ → S → Bytes → Option (S × Bytes)) → Type ℓ
Arm {S = S} arm = (field wire : ℕ) (s : S) (bs : Bytes) → Reads 0 bs (arm field wire s bs)

take_value-Reads {ℓ κ} :
    {A : Type ℓ} {S : Type κ} (bs : Bytes) (o : Option (A × Bytes)) (f : A → S)
    → Reads 1 bs o
    → Reads 0 bs (o >>= λ (a, rest). some (f a, rest))
unfolding Reads
take_value-Reads bs none f h = _
take_value-Reads bs (some (a, rest)) f h = omega (arith, h)

pub wrapper_arm-Arm : Arm wrapper_arm
unfolding wrapper_arm Arm
wrapper_arm-Arm field wire w bs =
    if_Reads 0 bs (nat_beq field 1 && nat_beq wire 2) _ _
      (take_value-Reads bs (read_str bs) (λ s. record w { channel = s }) (read_str-Reads bs))
      (if_Reads 0 bs (leb 301 field && leb field 399 && nat_beq wire 2) _ _
        (take_value-Reads bs (read_bytes bs) (λ b. record w { body = b }) (read_bytes-Reads bs))
        (skip_arm-Reads wire w bs))

pub deal_arm-Arm : Arm deal_arm
unfolding deal_arm Arm
deal_arm-Arm field wire d bs =
    if_Reads 0 bs (nat_beq field 1 && nat_beq wire 2) _ _
      (take_value-Reads bs (read_str bs) (λ s. record d { price = s }) (read_str-Reads bs))
      (if_Reads 0 bs (nat_beq field 2 && nat_beq wire 2) _ _
        (take_value-Reads bs (read_str bs) (λ s. record d { quantity = s }) (read_str-Reads bs))
        (if_Reads 0 bs (nat_beq field 3 && nat_beq wire 0) _ _
          (take_value-Reads bs (read_varint bs) (λ n. record d { trade_type = wrap_i32 (pos n) })
            (read_varint-Reads bs))
          (if_Reads 0 bs (nat_beq field 4 && nat_beq wire 0) _ _
            (take_value-Reads bs (read_varint bs) (λ n. record d { time = wrap_i64 (pos n) })
              (read_varint-Reads bs))
            (skip_arm-Reads wire d bs))))

pub deals_arm-Arm : Arm deals_arm
unfolding deals_arm Arm
deals_arm-Arm field wire deals bs =
    if_Reads 0 bs (nat_beq field 1 && nat_beq wire 2) _ _
      (take_value-Reads bs (read_bytes bs) (λ b. push_deal (decode_deal b) deals)
        (read_bytes-Reads bs))
      (skip_arm-Reads wire deals bs)

tag_of-Reads {ℓ} :
    {S : Type ℓ} (arm : ℕ → ℕ → S → Bytes → Option (S × Bytes)) (s : S) (key : ℕ) (rest : Bytes)
    → Arm arm
    → Reads 0 rest (tag_of key rest >>= λ (field, wire, more). arm field wire s more)
unfolding tag_of Arm
tag_of-Reads arm s key rest reads = elim (Bool-cases (nat_beq (key / 8 % 2 ^ 32) 0)) [
  | inl h ↦ rw h (none-Reads _ 0 rest)
  | inr h ↦ rw h (reads (key / 8 % 2 ^ 32) (key % 8) s rest)
]

tagged-Reads {ℓ} :
    {S : Type ℓ} (arm : ℕ → ℕ → S → Bytes → Option (S × Bytes)) (s : S) (bs : Bytes)
    → Arm arm
    → Reads 1 bs (tagged arm s bs)
unfolding tagged read_tag
tagged-Reads arm s bs reads = elim (Option-cases (read_varint bs)) [
  | inl e ↦ rw (read_tag, e) (none-Reads _ 1 bs)
  | inr ((key, rest), e) ↦
      let fewer = rw e at (read_varint-Reads bs) in
      rw (read_tag, e)
        (then_Reads 1 0 bs rest (tag_of key rest >>= λ (field, wire, more). arm field wire s more)
          (left_fewer 1 bs key rest fewer) (tag_of-Reads arm s key rest reads))
]

-- The rest of the loop, after one turn.
after {ℓ} :
    {S : Type ℓ} → (ℕ → ℕ → S → Bytes → Option (S × Bytes)) → ℕ → Option (S × Bytes) → Decoded S
after arm fuel none = malformed
after arm fuel (some (next, rest)) = while_fields arm fuel next rest

while_fields-after {ℓ} :
    {S : Type ℓ} (arm : ℕ → ℕ → S → Bytes → Option (S × Bytes)) (fuel : ℕ) (s : S) (b : ℕ)
    (bs : Bytes)
    → while_fields arm (suc fuel) s (b ∷ bs) ≡ after arm fuel (tagged arm s (b ∷ bs))
unfolding while_fields after
while_fields-after {S = S} arm fuel s b bs = go (tagged arm s (b ∷ bs))
  where
    go :
        (o : Option (S × Bytes))
        → elim o [ none ↦ malformed | some (next, rest) ↦ while_fields arm fuel next rest ]
          ≡ after arm fuel o
    go none = refl
    go (some (next, rest)) = refl

while_fields-ends {ℓ} :
    {S : Type ℓ} (arm : ℕ → ℕ → S → Bytes → Option (S × Bytes))
    → Arm arm
    → (fuel : ℕ) (s : S) (bs : Bytes) → length bs ≤ fuel
    → while_fields arm fuel s bs ≢ out_of_fuel
unfolding while_fields after
while_fields-ends arm reads fuel s [] h = λ e. absurd (ground arith)
while_fields-ends arm reads zero s (b ∷ bs) h = absurd (omega arith)
while_fields-ends arm reads (suc fuel) s (b ∷ bs) h =
    rw (while_fields-after arm fuel s b bs) (elim (Option-cases (tagged arm s (b ∷ bs))) [
      | inl e ↦ rw e (λ no. absurd (ground arith))
      | inr ((next, rest), e) ↦
          let fewer =
            left_fewer 1 (b ∷ bs) next rest (rw e at (tagged-Reads arm s (b ∷ bs) reads)) in
          rw e (while_fields-ends arm reads fuel next rest (omega (arith, fewer)))
    ])

pub while_fields_nil {ℓ} :
    {S : Type ℓ} (arm : ℕ → ℕ → S → Bytes → Option (S × Bytes)) (f : ℕ) (s : S)
    → while_fields arm f s [] ≡ decoded s
unfolding while_fields
while_fields_nil arm f s = refl

-- Turns beyond those that the bytes allow change nothing.
while_fields_fuel {ℓ} :
    {S : Type ℓ} (arm : ℕ → ℕ → S → Bytes → Option (S × Bytes))
    → Arm arm
    → (f g : ℕ) (s : S) (bs : Bytes) → length bs ≤ f
    → length bs ≤ g
    → while_fields arm f s bs ≡ while_fields arm g s bs
unfolding after
while_fields_fuel arm reads f g s [] hf hg =
    while_fields_nil arm f s ∙ sym (while_fields_nil arm g s)
while_fields_fuel arm reads zero g s (b ∷ bs) hf hg = absurd (omega arith)
while_fields_fuel arm reads (suc f) zero s (b ∷ bs) hf hg = absurd (omega arith)
while_fields_fuel arm reads (suc f) (suc g) s (b ∷ bs) hf hg =
    rw (while_fields-after arm f s b bs, while_fields-after arm g s b bs)
      (elim (Option-cases (tagged arm s (b ∷ bs))) [
        | inl e ↦ rw e refl
        | inr ((next, rest), e) ↦
            let fewer =
              left_fewer 1 (b ∷ bs) next rest (rw e at (tagged-Reads arm s (b ∷ bs) reads)) in
            rw e (
              while_fields_fuel arm reads f g next rest (omega (arith, fewer))
                (omega (arith, fewer)))
      ])

-- A turn that reads a field, seen from the loop.
pub while_fields-tagged {ℓ} :
    {S : Type ℓ} (arm : ℕ → ℕ → S → Bytes → Option (S × Bytes))
    → Arm arm
    → (s next : S) (b : ℕ) (bs rest : Bytes) → tagged arm s (b ∷ bs) ≡ some (next, rest)
    → while_fields arm (length (b ∷ bs)) s (b ∷ bs) ≡ while_fields arm (length rest) next rest
unfolding after
while_fields-tagged arm reads s next b bs rest e =
    let fewer = left_fewer 1 (b ∷ bs) next rest (rw e at (tagged-Reads arm s (b ∷ bs) reads)) in
    while_fields-after arm (length bs) s b bs
    ∙ ap (after arm (length bs)) e
    ∙ while_fields_fuel arm reads (length bs) (length rest) next rest (omega (arith, fewer))
        (omega arith)

text-ends {ℓ} :
    {S : Type ℓ} (x : S) (s : Text) → elim s [ [] ↦ malformed | _ ∷ _ ↦ decoded x ] ≢ out_of_fuel
text-ends x [] = λ e. absurd (ground arith)
text-ends x (c ∷ s) = λ e. absurd (ground arith)

with_channel-ends : (d : Decoded Wrapper) → d ≢ out_of_fuel → with_channel d ≢ out_of_fuel
unfolding with_channel
with_channel-ends (decoded w) h = text-ends w w.channel
with_channel-ends malformed h = h
with_channel-ends out_of_fuel h = h

with_price-ends : (d : Decoded Deal) → d ≢ out_of_fuel → with_price d ≢ out_of_fuel
unfolding with_price
with_price-ends (decoded d) h = text-ends d d.price
with_price-ends malformed h = h
with_price-ends out_of_fuel h = h

-- The decoder of wrappers, that of a deal and that of a list of deals come to an end on every buffer:
-- as many turns as the buffer has bytes are enough for each of their loops.
pub decode-ends :
    (buf : Bytes)
    → (decode_wrapper buf ≢ out_of_fuel)
      × (decode_deal buf ≢ out_of_fuel)
      × (decode_deals buf ≢ out_of_fuel)
unfolding decode_wrapper decode_deal decode_deals
decode-ends buf = (
  with_channel-ends _
      (while_fields-ends wrapper_arm wrapper_arm-Arm (length buf) _ buf (omega arith)),
  with_price-ends _ (while_fields-ends deal_arm deal_arm-Arm (length buf) _ buf (omega arith)),
  while_fields-ends deals_arm deals_arm-Arm (length buf) _ buf (omega arith),
)
