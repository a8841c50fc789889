-- ===== src/Client/MetadataCache/Laws.antt =====
-- What an invalidation of src/client/metadata_cache.rs drops.
use rskafka.Prelude.{
  ℕ, ◌+◌, ◌%◌, ◌<◌, ◌≡◌, refl, arith, Option, none, List, [], ◌∷◌, ◌==◌, if◌then◌else◌,
}
use rskafka.Protocol.Primitives.Varint.{u64_mod}
use rskafka.Protocol.Primitives.Text.Utf8.{Text}
use rskafka.Protocol.Messages.Metadata.{MetadataResponse}
use rskafka.Client.MetadataCache.{
  MetadataCache, Lookup, settle, invalidate, update, get, look_up, nothing, unknown_topic, found,
}

-- What the tasks that share the cache do with it, one at a time.
pub data Access : Type 0 where
  gets : Option (List Text) → Access
  invalidates : ℕ → Access
  updates : MetadataResponse → Access

abbrev access : Access → MetadataCache → MetadataCache
access (gets want) c = (get want c).1
access (invalidates gen) c = invalidate gen c
access (updates m) c = update m c

abbrev pub run : List Access → MetadataCache → MetadataCache
run [] c = c
run (a ∷ accesses) c = run accesses (access a c)

abbrev is_update : Access → ℕ
is_update (updates m) = 1
is_update _ = 0

-- How many of them store a response.
abbrev pub count_updates : List Access → ℕ
count_updates [] = 0
count_updates (a ∷ accesses) = is_update a + count_updates accesses

generation-invalidate : (gen : ℕ) (c : MetadataCache) → (invalidate gen c).generation ≡ c.generation
unfolding invalidate
generation-invalidate gen c = ground arith

generation-settle : (l : Lookup) (c : MetadataCache) → (settle l c).1.generation ≡ c.generation
generation-settle nothing c = refl
generation-settle (unknown_topic gen) c = generation-invalidate gen c
generation-settle (found m gen) c = refl

generation-get :
    (want : Option (List Text)) (c : MetadataCache) → (get want c).1.generation ≡ c.generation
unfolding get
generation-get want c = generation-settle (look_up want c) c

generation-access :
    (a : Access) (c : MetadataCache)
    → c.generation < u64_mod
    → (access a c).generation ≡ (c.generation + is_update a) % u64_mod
unfolding update
generation-access (gets want) c h = rw (generation-get want c) (omega arith)
generation-access (invalidates gen) c h = rw (generation-invalidate gen c) (omega arith)
generation-access (updates m) c h = refl

generation-run :
    (accesses : List Access) (c : MetadataCache)
    → c.generation < u64_mod
    → (run accesses c).generation ≡ (c.generation + count_updates accesses) % u64_mod
generation-run [] c h = omega arith
generation-run (a ∷ accesses) c h =
    let e = generation-access a c h in
    let ih = generation-run accesses (access a c) (omega arith) in omega arith

-- A task that read the cache and invalidates what it read, after other accesses with fewer than 2^64
-- updates among them: the entry is dropped if there was no update since, and a newer one is kept.
pub invalidation_hits_what_was_read :
    (accesses : List Access) (c : MetadataCache)
    → c.generation < u64_mod
    → count_updates accesses < u64_mod
    → invalidate c.generation (run accesses c) ≡ (
        if count_updates accesses == 0
        then record (run accesses c) { cached = none }
        else run accesses c)
unfolding invalidate
invalidation_hits_what_was_read accesses c h few =
    let e = generation-run accesses c h in ground arith
