-- ===== src/Client/Partition/Retry/Laws.antt =====
-- Which errors `maybe_retry` of src/client/partition.rs reports.
use rskafka.Prelude.{ℕ, ◌≡◌, refl, Bool, false, Bool-cases, inl, inr, List}
use mathlib.Core.List.{Memᴰ}
use rskafka.Protocol.Error as Protocol
use rskafka.Messenger.{RequestError, poisoned, io}
use rskafka.Connection.Metadata.{is_broken}
use rskafka.Client.Error.{Error, connection, request, server_error}
use rskafka.Client.Partition.{UnknownTopicHandling, give_error, retry}
use rskafka.Client.Retry.{Tried, maybe_retry}
use rskafka.Client.Retry.Laws.{Ends, Returns, maybe_retry-Ends}
use rskafka.Client.Partition.Retry.{on_server_error, on_error}

-- The errors that a user can meet. A connection that is broken, or that cannot be made, is none of
-- them, nor is a partition whose leader is elected, unknown or another broker. An unknown topic is one
-- if it is to be an error.
abbrev pub ReportedByServer : UnknownTopicHandling → Protocol.Error → Type 0
ReportedByServer handling Protocol.invalid_replication_factor = ⊥
ReportedByServer handling Protocol.leader_not_available = ⊥
ReportedByServer handling Protocol.offset_not_available = ⊥
ReportedByServer handling Protocol.not_leader_or_follower = ⊥
ReportedByServer handling Protocol.unknown_topic_or_partition = handling ≡ give_error
ReportedByServer handling _ = Unit

abbrev pub IsNotBroken : RequestError → Type 0
IsNotBroken (poisoned e) = ⊥
IsNotBroken (io e) = ⊥
IsNotBroken _ = Unit

abbrev pub IsReported : UnknownTopicHandling → Error → Type 0
IsReported handling (request e) = IsNotBroken e
IsReported handling (connection e) = ⊥
IsReported handling (server_error e message context response virtual) = ReportedByServer handling e
IsReported handling _ = Unit

pub is_broken-IsNotBroken : (e : RequestError) → is_broken e ≡ false → IsNotBroken e
unfolding is_broken
is_broken-IsNotBroken (poisoned e) h = cc
is_broken-IsNotBroken (io e) h = cc
is_broken-IsNotBroken _ h = tt

on_server_error-ReportedByServer :
    (handling : UnknownTopicHandling) (e : Protocol.Error)
    → (on_server_error handling e).retries ≡ false
    → ReportedByServer handling e
unfolding on_server_error
on_server_error-ReportedByServer handling Protocol.invalid_replication_factor h = cc
on_server_error-ReportedByServer handling Protocol.leader_not_available h = cc
on_server_error-ReportedByServer handling Protocol.offset_not_available h = cc
on_server_error-ReportedByServer handling Protocol.not_leader_or_follower h = cc
on_server_error-ReportedByServer give_error Protocol.unknown_topic_or_partition h = refl
on_server_error-ReportedByServer retry Protocol.unknown_topic_or_partition h = cc
on_server_error-ReportedByServer handling _ h = tt

on_error-IsReported :
    (handling : UnknownTopicHandling) (e : Error)
    → (on_error handling e).retries ≡ false
    → IsReported handling e
unfolding on_error
on_error-IsReported handling (request e) h = elim (Bool-cases (is_broken e)) [
  | inl broken ↦ cc (rw broken at h)
  | inr fine ↦ is_broken-IsNotBroken e fine
]
on_error-IsReported handling (connection e) h = cc
on_error-IsReported handling (server_error e message context response virtual) h =
    on_server_error-ReportedByServer handling e h
on_error-IsReported handling _ h = tt

module _ {S R T : Type 0} (invalidate : ℕ → S → S) (is_last : R → Bool) (f : R → S → Tried T × S)
    (handling : UnknownTopicHandling) (P : T → Type 0) where
  pub maybe_retry-Reports :
      (rounds : List R) (s : S)
      → ((r : R) → Memᴰ r rounds → (s : S) → Returns P (f r s).0)
      → Ends
          (IsReported handling)
          P
          (maybe_retry invalidate is_last f (on_error handling) rounds s).0
  maybe_retry-Reports =
      maybe_retry-Ends invalidate is_last f (on_error handling) (IsReported handling) (λ e. tt)
        (on_error-IsReported handling) P

  -- Whatever is tried, and however often, an operation ends with a value that a round returned, or with
  -- an error that is for the user: none that another round may mend, and an unknown topic only if it is
  -- to be an error.
  pub maybe_retry_reports :
      ((r : R) (s : S) → Returns P (f r s).0)
      → (rounds : List R) (s : S)
      → Ends
          (IsReported handling)
          P
          (maybe_retry invalidate is_last f (on_error handling) rounds s).0
  maybe_retry_reports each rounds s = maybe_retry-Reports rounds s (λ r m s. each r s)
