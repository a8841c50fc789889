-- ===== src/Client/MetadataCache.antt =====
-- The cache of src/client/metadata_cache.rs. Each access under its lock is one function.
pub mod Laws
use rskafka.Prelude.{
  ℕ, zero, suc, ◌+◌, ◌%◌, Bool, true, false, ◌&&◌, ◌||◌, ◌==◌, if◌then◌else◌, Option, none, some,
  List, [], ◌∷◌, length,
}
use rskafka.Protocol.Primitives.Varint.{u64_mod}
use rskafka.Protocol.Primitives.Text.Utf8.{Text}
use rskafka.Protocol.Primitives.Text.Equality.{same_text}
use rskafka.Protocol.Messages.Metadata.{MetadataResponseTopic, MetadataResponse}

-- The cached response with its generation, a `usize` of 64 bits.
pub record MetadataCache : Type 0 where
  pub cached : Option MetadataResponse
  pub generation : ℕ

-- `MetadataCache::default`
abbrev pub default : MetadataCache
default = record { cached = none; generation = 0 }

-- `want.contains(&t.name.0)`
abbrev pub contains : List Text → Text → Bool
contains [] name = false
contains (w ∷ ws) name = same_text w name || contains ws name

-- `m.topics.retain(…)`
unfoldable pub retain : List Text → List MetadataResponseTopic → List MetadataResponseTopic
retain want [] = []
retain want (t ∷ ts) = let rest = retain want ts in if contains want t.name then t ∷ rest else rest

unfoldable pub invalidate : ℕ → MetadataCache → MetadataCache
invalidate gen c = if c.generation == gen then record c { cached = none } else c

unfoldable pub update : MetadataResponse → MetadataCache → MetadataCache
update m c = record { cached = some m; generation = (c.generation + 1) % u64_mod }

-- What `get` finds out under its first lock: nothing is cached, a topic is not known in a generation, or
-- what it returns.
pub data Lookup : Type 0 where
  nothing : Lookup
  unknown_topic : ℕ → Lookup
  found : MetadataResponse → ℕ → Lookup

unfoldable pub filtered : Option (List Text) → MetadataResponse → ℕ → Lookup
filtered none m gen = found m gen
filtered (some want) m gen =
    let topics = retain want m.topics in
    if length topics == length want
    then found (record m { topics = topics }) gen
    else unknown_topic gen

unfoldable pub look_up : Option (List Text) → MetadataCache → Lookup
look_up want c = elim c.cached [ none ↦ nothing | some m ↦ filtered want m c.generation ]

-- What `get` returns, and what it does under its second lock.
abbrev pub settle : Lookup → MetadataCache → Option (MetadataResponse × ℕ) × MetadataCache
settle nothing c = (none, c)
settle (unknown_topic gen) c = (none, invalidate gen c)
settle (found m gen) c = (some (m, gen), c)

-- `get` when no other task comes between its two locks.
unfoldable pub get :
    Option (List Text) → MetadataCache → Option (MetadataResponse × ℕ) × MetadataCache
get want c = settle (look_up want c) c
