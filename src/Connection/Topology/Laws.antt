-- ===== src/Connection/Topology/Laws.antt =====
-- What src/connection/topology.rs knows after an update.
use rskafka.Prelude.{
  ◌≡◌, refl, ap, arith, ◌∙◌, Bool-cases, inl, inr, if◌then◌else◌, Option, some, List, [], ◌∷◌, All,
}
use rskafka.Prelude.Int.{ℤ, eqb_ℤ, eqb_ℤ→eq}
use rskafka.Protocol.Primitives.Text.Equality.{same_text→eq}
use rskafka.Protocol.Messages.Metadata.{MetadataResponseBroker}
use rskafka.Connection.Topology.{
  Broker, BrokerTopology, from_metadata, get_broker, occupied, update_one, update,
}

-- Each broker stands under its own ID.
abbrev pub IsKeyed : BrokerTopology → Type 0
IsKeyed = All (λ e. e.1.id ≡ e.0)

occupied_lem :
    (b : MetadataResponseBroker) (current : Broker)
    → current.id ≡ b.node_id
    → occupied b current ≡ from_metadata b
occupied_lem b current e =
    ground (arith, same_text→eq current.host b.host, eqb_ℤ→eq current.port b.port)

update_one-IsKeyed :
    (b : MetadataResponseBroker) (t : BrokerTopology) → IsKeyed t → IsKeyed (update_one b t)
unfolding update_one
update_one-IsKeyed b [] h = (refl, tt)
update_one-IsKeyed b ((k, current) ∷ t) h = elim (Bool-cases (eqb_ℤ k b.node_id)) [
  | inl hit ↦
      let e = eqb_ℤ→eq k b.node_id hit in rw hit (rw (occupied_lem b current (h.0 ∙ e)) (cc), h.1)
  | inr miss ↦ rw miss (h.0, update_one-IsKeyed b t h.1)
]

get_broker-update_one :
    (b : MetadataResponseBroker) (t : BrokerTopology) (id : ℤ)
    → IsKeyed t
    → get_broker id (update_one b t)
      ≡ (if eqb_ℤ b.node_id id then some (from_metadata b) else get_broker id t)
unfolding update_one get_broker
get_broker-update_one b [] id h = refl
get_broker-update_one b ((k, current) ∷ t) id h = elim (Bool-cases (eqb_ℤ k b.node_id)) [
  | inl hit ↦
      let e = eqb_ℤ→eq k b.node_id hit in
      let same = occupied_lem b current (h.0 ∙ e) in rw (hit, same) (ground (arith, e))
  | inr miss ↦ rw miss (ground (arith, get_broker-update_one b t id h.1, eqb_ℤ→eq b.node_id id))
]

-- The last of the brokers with an ID, if there is one.
abbrev pub latest : ℤ → List MetadataResponseBroker → Option Broker → Option Broker
latest id [] found = found
latest id (b ∷ bs) found =
    latest id bs (if eqb_ℤ b.node_id id then some (from_metadata b) else found)

-- After an update a broker is known as the last one of the update with its ID, and one that the update
-- does not have as it was known before.
pub update_keeps_the_latest :
    (bs : List MetadataResponseBroker) (t : BrokerTopology) (id : ℤ)
    → IsKeyed t
    → (get_broker id (update bs t) ≡ latest id bs (get_broker id t)) × IsKeyed (update bs t)
unfolding update
update_keeps_the_latest [] t id h = (refl, h)
update_keeps_the_latest (b ∷ bs) t id h =
    let (ih, keyed) = update_keeps_the_latest bs (update_one b t) id (update_one-IsKeyed b t h) in
    (ih ∙ ap (latest id bs) (get_broker-update_one b t id h), keyed)
