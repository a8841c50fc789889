-- ===== src/Client/Controller/Operations/Errors.antt =====
-- Which errors the loop of src/client/controller.rs ends with, and which ones make it look for the
-- controller again.
use rskafka.Prelude.{◌≡◌, refl, true, false, Bool-cases, inl, inr}
use rskafka.Protocol.Error as Protocol
use rskafka.Messenger.{RequestError, poisoned, io}
use rskafka.Connection.Metadata.{is_broken}
use rskafka.Client.Error.{Error, connection, request, server_error}
use rskafka.Client.Retry.{again_elsewhere}
use rskafka.Client.Partition.Retry.Laws.{IsNotBroken, is_broken-IsNotBroken}
use rskafka.Client.Controller.Operations.{on_server_error, on_error}

-- The errors that a user can meet: all but those of a connection, and of a broker that is not the
-- controller.
abbrev pub ReportedByServer : Protocol.Error → Type 0
ReportedByServer Protocol.not_controller = ⊥
ReportedByServer _ = Unit

abbrev pub IsReported : Error → Type 0
IsReported (request e) = IsNotBroken e
IsReported (connection e) = ⊥
IsReported (server_error e message context response virtual) = ReportedByServer e
IsReported _ = Unit

on_server_error-ReportedByServer :
    (e : Protocol.Error) → (on_server_error e).retries ≡ false → ReportedByServer e
unfolding on_server_error
on_server_error-ReportedByServer Protocol.not_controller h = cc
on_server_error-ReportedByServer _ h = tt

pub on_error-IsReported : (e : Error) → (on_error e).retries ≡ false → IsReported e
unfolding on_error
on_error-IsReported (request e) h = elim (Bool-cases (is_broken e)) [
  | inl broken ↦ cc (rw broken at h)
  | inr fine ↦ is_broken-IsNotBroken e fine
]
on_error-IsReported (connection e) h = cc
on_error-IsReported (server_error e message context response virtual) h =
    on_server_error-ReportedByServer e h
on_error-IsReported _ h = tt

-- The errors of a connection that is broken or cannot be made, and of a broker that is not the
-- controller.
abbrev IsBroken : RequestError → Type 0
IsBroken (poisoned e) = Unit
IsBroken (io e) = Unit
IsBroken _ = ⊥

abbrev IsNotController : Protocol.Error → Type 0
IsNotController Protocol.not_controller = Unit
IsNotController _ = ⊥

abbrev pub IsLost : Error → Type 0
IsLost (request e) = IsBroken e
IsLost (connection e) = Unit
IsLost (server_error e message context response virtual) = IsNotController e
IsLost _ = ⊥

IsBroken-is_broken : (e : RequestError) → IsBroken e → is_broken e ≡ true
unfolding is_broken
IsBroken-is_broken (poisoned e) h = refl
IsBroken-is_broken (io e) h = refl
IsBroken-is_broken _ h = absurd h

not_controller-again :
    (e : Protocol.Error) → IsNotController e → on_server_error e ≡ again_elsewhere
unfolding on_server_error
not_controller-again Protocol.not_controller h = refl
not_controller-again _ h = absurd h

pub on_error-lost : (e : Error) → IsLost e → on_error e ≡ again_elsewhere
unfolding on_error
on_error-lost (request e) h = rw (IsBroken-is_broken e h) refl
on_error-lost (connection e) h = refl
on_error-lost (server_error e message context response virtual) h = not_controller-again e h
on_error-lost _ h = absurd h
