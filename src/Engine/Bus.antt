-- ===== src/Engine/Bus.antt =====
-- crates/cluster-engine/src/bus.rs: one broadcast channel per stream. tokio's channel is a parameter:
-- a new one, the channel after a frame is sent, and the channel and the receiver after a
-- subscription. A clone of a sender is the same channel, so a send changes the stored one.
use trading_terminal_cluster.Common.{
  ℕ, List, [], ◌∷◌, ◌≡◌, refl, ap, ◌∙◌, arith, false, Option, none, some, inl, inr,
}
use trading_terminal_cluster.Common.Lists.{length}
use trading_terminal_cluster.Common.Tests.{if◌then◌else◌, Option-cases}
use trading_terminal_cluster.Common.Eq.{◌==◌, same_refl}
use trading_terminal_cluster.Common.Map.{lookup, insert, lookup-insert}
use trading_terminal_cluster.Core.{StreamKey, ClusterFrame}
use trading_terminal_cluster.Core.Wire.{stream_key_eq}

abbrev pub default_channel_capacity : ℕ
default_channel_capacity = 4096

pub record ClusterBus (Channel : Type 0) : Type 0 where
  pub channels : List (StreamKey × Channel)
  pub capacity : ℕ

module _ {Channel : Type 0} (channel : ℕ → Channel) (send : ClusterFrame → Channel → Channel) where
  unfoldable pub with_capacity : ℕ → ClusterBus Channel
  with_capacity capacity = record { channels = []; capacity = capacity }

  unfoldable pub new_bus : ClusterBus Channel
  unfolding with_capacity
  new_bus = with_capacity default_channel_capacity

  -- The channel of a stream, made if it is missing.
  unfoldable pub sender_for : StreamKey → ClusterBus Channel → ClusterBus Channel × Channel
  sender_for key bus = elim (lookup key bus.channels) [
    | some existing ↦ (bus, existing)
    | none ↦
        let made = channel bus.capacity in
        (record bus { channels = insert key made bus.channels }, made)
  ]

  unfoldable pub publish : StreamKey → ClusterFrame → ClusterBus Channel → ClusterBus Channel
  unfolding sender_for
  publish key frame bus =
      let (b, sender) = sender_for key bus in
      record b { channels = insert key (send frame sender) b.channels }

  unfoldable pub subscribe :
      {Receiver : Type 0}
      → (Channel → Channel × Receiver)
      → StreamKey
      → ClusterBus Channel
      → ClusterBus Channel × Receiver
  unfolding sender_for
  subscribe attach key bus =
      let (b, sender) = sender_for key bus in
      let (attached, receiver) = attach sender in
      (record b { channels = insert key attached b.channels }, receiver)

  unfoldable pub active_keys : ClusterBus Channel → ℕ
  active_keys bus = length bus.channels

  -- The channel that a stream has, or gets when it is first used.
  abbrev pub channel_at : StreamKey → ClusterBus Channel → Channel
  channel_at key bus = elim (lookup key bus.channels) [ none ↦ channel bus.capacity | some c ↦ c ]

  pub lookup-publish :
      (key k : StreamKey) (frame : ClusterFrame) (bus : ClusterBus Channel)
      → lookup k (publish key frame bus).channels
        ≡ (if key == k then some (send frame (channel_at key bus)) else lookup k bus.channels)
  unfolding publish sender_for
  lookup-publish key k frame bus = elim (Option-cases (lookup key bus.channels)) [
    | inl missing ↦
        rw (missing, publish, sender_for, channel_at)
          (lookup-insert key k _ _
            ∙ ground (arith, lookup-insert key k (channel bus.capacity) bus.channels))
    | inr (c, e) ↦ rw (e, publish, sender_for, channel_at) (lookup-insert key k _ _)
  ]

  publish_capacity :
      (key : StreamKey) (frame : ClusterFrame) (bus : ClusterBus Channel)
      → (publish key frame bus).capacity ≡ bus.capacity
  unfolding publish sender_for
  publish_capacity key frame bus = elim (Option-cases (lookup key bus.channels)) [
    | inl missing ↦ rw (missing, publish, sender_for) refl
    | inr (c, e) ↦ rw (e, publish, sender_for) refl
  ]

  publish-channel_at :
      (key : StreamKey) (frame : ClusterFrame) (bus : ClusterBus Channel)
      → channel_at key (publish key frame bus) ≡ send frame (channel_at key bus)
  publish-channel_at key frame bus = ap (elim_channel (publish key frame bus).capacity) (
      lookup-publish key key frame bus
      ∙ ap (λ b. if b then some (send frame (channel_at key bus)) else lookup key bus.channels)
          (same_refl key))
    where
      elim_channel : ℕ → Option Channel → Channel
      elim_channel capacity o = elim o [ none ↦ channel capacity | some c ↦ c ]

  abbrev pub publish_all : StreamKey → List ClusterFrame → ClusterBus Channel → ClusterBus Channel
  publish_all key [] bus = bus
  publish_all key (f ∷ fs) bus = publish_all key fs (publish key f bus)

  abbrev pub send_all : List ClusterFrame → Channel → Channel
  send_all [] c = c
  send_all (f ∷ fs) c = send_all fs (send f c)

  -- What a bus has after frames were published on one stream.
  pub publish_all-channel_at :
      (key : StreamKey) (fs : List ClusterFrame) (bus : ClusterBus Channel)
      → channel_at key (publish_all key fs bus) ≡ send_all fs (channel_at key bus)
  publish_all-channel_at key [] bus = refl
  publish_all-channel_at key (f ∷ fs) bus =
      publish_all-channel_at key fs (publish key f bus)
      ∙ ap (send_all fs) (publish-channel_at key f bus)

  -- The other streams keep their channels.
  pub publish_all-other :
      (key k : StreamKey) (fs : List ClusterFrame) (bus : ClusterBus Channel)
      → (key == k) ≡ false
      → lookup k (publish_all key fs bus).channels ≡ lookup k bus.channels
  publish_all-other key k [] bus other = refl
  publish_all-other key k (f ∷ fs) bus other =
      publish_all-other key k fs (publish key f bus) other
      ∙ ground (arith, lookup-publish key k f bus, other)
