-- ===== src/Connection/Topology.antt =====
-- src/connection/topology.rs: the brokers by their IDs. The map is a list with one entry for a key.
pub mod Laws
use rskafka.Prelude.{
  ℕ, Bool, true, false, ◌&&◌, ◌==◌, if◌then◌else◌, Option, none, some, List, [], ◌∷◌, map,
}
use rskafka.Prelude.Int.{ℤ, eqb_ℤ}
use rskafka.Protocol.Primitives.Text.Utf8.{Text}
use rskafka.Protocol.Primitives.Text.Equality.{same_text}
use rskafka.Protocol.Messages.Metadata.{MetadataResponseBroker}

pub record Broker : Type 0 where
  pub id : ℤ
  pub host : Text
  pub port : ℤ

abbrev pub BrokerTopology : Type 0
BrokerTopology = List (ℤ × Broker)

-- `From<&MetadataResponseBroker> for Broker`
abbrev pub from_metadata : MetadataResponseBroker → Broker
from_metadata b = record { id = b.node_id; host = b.host; port = b.port }

abbrev pub is_empty : BrokerTopology → Bool
is_empty [] = true
is_empty (e ∷ t) = false

unfoldable pub get_broker : ℤ → BrokerTopology → Option Broker
get_broker id [] = none
get_broker id ((k, b) ∷ t) = if eqb_ℤ k id then some b else get_broker id t

-- In an order that the map chooses.
unfoldable pub get_brokers : BrokerTopology → List Broker
get_brokers t = map (λ e. e.1) t

-- The entry of a broker that is known: it is replaced when host or port are others.
abbrev pub occupied : MetadataResponseBroker → Broker → Broker
occupied b current =
    if same_text current.host b.host && eqb_ℤ current.port b.port then current else from_metadata b

unfoldable pub update_one : MetadataResponseBroker → BrokerTopology → BrokerTopology
update_one b [] = (b.node_id, from_metadata b) ∷ []
update_one b ((k, current) ∷ t) =
    if eqb_ℤ k b.node_id then (k, occupied b current) ∷ t else (k, current) ∷ update_one b t

unfoldable pub update : List MetadataResponseBroker → BrokerTopology → BrokerTopology
update [] t = t
update (b ∷ bs) t = update bs (update_one b t)
