-- ===== src/Tests/Syncs.antt =====
-- The theorems about the sync of versions and its messages at concrete inputs.
use rskafka.Prelude.{none, some, List, [], ◌∷◌}
use rskafka.Prelude.Int.{pos}
use rskafka.Prelude.Result.{ok, err}
use rskafka.Protocol.Traits.{ReadError}
use rskafka.Protocol.ApiKey.{metadata}
use rskafka.Protocol.Messages.ApiVersions.{ApiVersionsResponseApiKey, ApiVersionsResponse}
use rskafka.Messenger.{read_error}
use rskafka.Messenger.Sync.{Answer, sync_versions}
use rskafka.Messenger.Sync.Laws.{IsOutcome, sync_versions_is_sound}

abbrev metadata_key : ApiVersionsResponseApiKey
metadata_key = record {
  api_key = metadata;
  min_version = pos 0;
  max_version = pos 9;
  tagged_fields = none;
}

abbrev response : ApiVersionsResponse
response = record {
  error_code = none;
  api_keys = metadata_key ∷ [];
  throttle_time_ms = some (pos 0);
  tagged_fields = none;
}

-- Version 3 cannot be read, and version 2 is answered.
abbrev answers : List Answer
answers = (λ v. err (read_error ReadError.malformed)) ∷ (λ v. ok response) ∷ []

sync_versions_is_sound_example : IsOutcome (sync_versions answers)
sync_versions_is_sound_example = sync_versions_is_sound answers ((λ v. tt), ((λ v. tt), tt))
