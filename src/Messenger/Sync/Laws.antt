-- ===== src/Messenger/Sync/Laws.antt =====
-- What `sync_versions` of src/messenger.rs promises.
use rskafka.Prelude.{
  ◌≡◌, ◌⊎◌, subst, refl, sym, arith, Bool-cases, inl, inr, Option, Option-cases, none, some, List,
  [], ◌∷◌, All,
}
use rskafka.Prelude.Int.{◌≤ℤ◌, leb_ℤ}
use rskafka.Prelude.Result.{Result, ok, err, panic, map_ok}
use rskafka.Throttle.{maybe_throttle}
use rskafka.Protocol.ApiKey.{ApiKey}
use rskafka.Protocol.ApiVersion.{ApiVersion, new}
use rskafka.Protocol.Messages.ApiVersions.{ApiVersionsResponseApiKey, ApiVersionsResponse}
use rskafka.Messenger.{
  RequestError, no_version_match, read_error, read_versioned_error, too_much_data,
}
use rskafka.Messenger.Requests.{body_api_version}
use rskafka.Messenger.Versions.{match_versions}
use rskafka.Messenger.Sync.{
  SyncVersionsError, Ranges, Verdict, throttled, next_version, returns, Answer, flipped, ranges_of,
  checked_ranges, on_response, on_error, on_answer, request_up_to, upper_bounds, sync_from,
  sync_versions,
}

-- Ranges that are not flipped, or an error.
abbrev pub IsSynced : Result SyncVersionsError Ranges → Type 0
IsSynced (ok ranges) = All (λ p. p.1.min ≤ℤ p.1.max) ranges
IsSynced (err e) = Unit
IsSynced panic = ⊥

cons-IsSynced :
    (key : ApiKey) (min max : ApiVersion) (rest : Result SyncVersionsError Ranges)
    → min ≤ℤ max
    → IsSynced rest
    → IsSynced (map_ok (λ ranges. (key, record { min = min; max = max }) ∷ ranges) rest)
cons-IsSynced key min max (ok ranges) h k = (h, k)
cons-IsSynced key min max (err e) h k = tt
cons-IsSynced key min max panic h k = k

ranges_of-IsSynced :
    (ks : List ApiVersionsResponseApiKey) → flipped ks ≡ none → IsSynced (ranges_of ks)
unfolding flipped ranges_of new
ranges_of-IsSynced [] e = tt
ranges_of-IsSynced (k ∷ ks) e = elim (Bool-cases (leb_ℤ k.min_version k.max_version)) [
  | inl fits ↦
      let le : k.min_version ≤ℤ k.max_version = ground arith in
      rw fits (
        cons-IsSynced k.api_key k.min_version k.max_version (ranges_of ks) le
          (ranges_of-IsSynced ks (rw fits at e)))
  | inr wrong ↦ cc (rw wrong at e)
]

checked_ranges-IsSynced : (ks : List ApiVersionsResponseApiKey) → IsSynced (checked_ranges ks)
unfolding checked_ranges
checked_ranges-IsSynced ks = elim (Option-cases (flipped ks)) [
  | inl e ↦ rw (e, checked_ranges) (ranges_of-IsSynced ks e)
  | inr (x, e) ↦ rw (e, checked_ranges) tt
]

abbrev IsFine : Verdict → Type 0
IsFine throttled = Unit
IsFine next_version = Unit
IsFine (returns r) = IsSynced r

on_response-IsFine : (r : ApiVersionsResponse) → IsFine (on_response r)
unfolding on_response
on_response-IsFine r = elim (Option-cases (maybe_throttle r.throttle_time_ms)) [
  | inl e ↦ elim (Option-cases r.error_code) [
    | inl q ↦ simp (e, q, on_response) (checked_ranges-IsSynced r.api_keys)
    | inr (x, q) ↦ simp (e, q, on_response) tt
  ]
  | inr (ms, e) ↦ rw (e, on_response) tt
]

-- An answer that is not a panic and does not say that there is no version, which the request finds
-- out before it is sent.
abbrev pub IsAnswer : Result RequestError ApiVersionsResponse → Type 0
IsAnswer (ok r) = Unit
IsAnswer (err (no_version_match key)) = ⊥
IsAnswer (err e) = Unit
IsAnswer panic = ⊥

on_error-IsFine : (e : RequestError) → IsAnswer (err e) → IsFine (on_error e)
unfolding on_error
on_error-IsFine (no_version_match key) h = h
on_error-IsFine (read_versioned_error e) h = tt
on_error-IsFine (read_error e) h = tt
on_error-IsFine (too_much_data size read key v) h = tt
on_error-IsFine e h = tt

on_answer-IsFine : (a : Result RequestError ApiVersionsResponse) → IsAnswer a → IsFine (on_answer a)
unfolding on_answer
on_answer-IsFine (ok r) h = on_response-IsFine r
on_answer-IsFine (err e) h = on_error-IsFine e h
on_answer-IsFine panic h = h

-- The request is sent in the version of the upper bound.
abbrev IsSentAs : ApiVersion → Type 0
IsSentAs u = (a : Answer) → request_up_to u a ≡ a u

upper_bounds-IsSentAs : All IsSentAs upper_bounds
unfolding request_up_to new body_api_version match_versions
upper_bounds-IsSentAs = ((λ a. refl), ((λ a. refl), ((λ a. refl), ((λ a. refl), tt))))

abbrev pub IsOutcome : Option (Result SyncVersionsError Ranges) → Type 0
IsOutcome none = Unit
IsOutcome (some r) = IsSynced r

Verdict-cases :
    (v : Verdict)
    → (v ≡ throttled)
      ⊎ (v ≡ next_version)
      ⊎ ((r : Result SyncVersionsError Ranges) × (v ≡ returns r))
Verdict-cases throttled = inl refl
Verdict-cases next_version = inr (inl refl)
Verdict-cases (returns r) = inr (inr (r, refl))

sync_from-IsOutcome :
    (us : List ApiVersion) (answers : List Answer)
    → All IsSentAs us
    → All (λ a. (v : ApiVersion) → IsAnswer (a v)) answers
    → IsOutcome (sync_from us answers)
unfolding sync_from
sync_from-IsOutcome [] answers s h = tt
sync_from-IsOutcome (u ∷ us) [] s h = tt
sync_from-IsOutcome (u ∷ us) (a ∷ answers) s h =
    let fine : IsFine (on_answer (request_up_to u a)) =
      subst (λ r. IsFine (on_answer r)) (sym (s.0 a)) (on_answer-IsFine (a u) (h.0 u)) in
    elim (Verdict-cases (on_answer (request_up_to u a))) [
      | inl e ↦ rw (e, sync_from) (sync_from-IsOutcome (u ∷ us) answers s h.1)
      | inr (inl e) ↦ rw (e, sync_from) (sync_from-IsOutcome us answers s.1 h.1)
      | inr (inr (r, e)) ↦ rw (e, sync_from) (subst IsFine e fine)
    ]

-- Whatever the broker answers, the sync of versions does not panic: it is an error, or ranges none of
-- which is flipped. An answer is a response or an error, but not the error that there is no version,
-- since there is one for each request that is sent.
pub sync_versions_is_sound :
    (answers : List Answer)
    → All (λ a. (v : ApiVersion) → IsAnswer (a v)) answers
    → IsOutcome (sync_versions answers)
unfolding sync_versions
sync_versions_is_sound answers h = sync_from-IsOutcome upper_bounds answers upper_bounds-IsSentAs h
