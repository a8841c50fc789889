-- ===== src/Messenger/World/Invariant.antt =====
-- What holds of a messenger of src/messenger.rs in every state that its callers and its worker bring
-- about, as long as no ID was taken twice.
use rskafka.Prelude.{ℕ, ◌+◌, ◌≤◌, ◌≡◌, false, List, [], All}
use rskafka.Prelude.Result.{ok, err, panic}
use rskafka.Messenger.{
  MessengerState, request_map, poison_state, RequestMap, Ticket, Delivery, correlation_id,
}
use rskafka.Messenger.World.{Phase, unborn, preparing, sending, waiting, over, World}
use rskafka.Messenger.World.Counts.{entries, told, Keyed}

abbrev pub map_of : MessengerState → RequestMap
map_of (request_map m) = m
map_of (poison_state e) = []

-- How many answers a request got or can still get.
abbrev pub answers : Ticket → MessengerState → List Delivery → ℕ
answers n state ds = entries n (map_of state) + told n ds

-- How many that may be.
abbrev pub Owed : Phase → ℕ → Type 0
Owed unborn c = c ≡ 0
Owed preparing c = c ≡ 0
Owed sending c = c ≡ 1
Owed waiting c = c ≡ 1
Owed over c = c ≤ 1

-- A response is for the ID of the request that gets it.
abbrev pub IsOwn : Delivery → Type 0
IsOwn (n, ok response) = response.header.correlation_id ≡ correlation_id n
IsOwn (n, err e) = Unit
IsOwn (n, panic) = ⊥

abbrev pub IsPoison : MessengerState → Type 0
IsPoison (poison_state e) = Unit
IsPoison (request_map m) = ⊥

pub record IsSound (w : World) : Type 0 where
  pub taken : (n : Ticket) → w.next ≤ n → w.phase n ≡ unborn
  pub owed : (n : Ticket) → Owed (w.phase n) (answers n w.state w.delivered)
  pub keyed : Keyed w.next (map_of w.state)
  pub own : All IsOwn w.delivered
  pub stops : w.worker_runs ≡ false → IsPoison w.state
