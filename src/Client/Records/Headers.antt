-- ===== src/Client/Records/Headers.antt =====
-- The headers of a record of src/record.rs: a `BTreeMap<String, Vec<u8>>` of Rust's standard library,
-- as the list of its entries in the order of their keys.
pub mod Laws
use rskafka.Prelude.{ℕ, ltb, ◌==◌, ◌&&◌, ◌||◌, if◌then◌else◌, Bool, true, false, List, [], ◌∷◌}
use rskafka.Protocol.Primitives.Text.Utf8.{Text}
use rskafka.Protocol.Primitives.Text.Equality.{same_text}

abbrev pub HeaderMap : Type 0
HeaderMap = List (Text × List ℕ)

-- `<` of Rust's `String`: on the bytes.
unfoldable pub before : Text → Text → Bool
before [] [] = false
before [] (b ∷ t) = true
before (a ∷ s) [] = false
before (a ∷ s) (b ∷ t) = ltb a b || a == b && before s t

-- `insert`, which replaces the value of a key that is there.
unfoldable pub insert : Text → List ℕ → HeaderMap → HeaderMap
insert k v [] = (k, v) ∷ []
insert k v ((k', v') ∷ rest) =
    let behind = insert k v rest in
    if same_text k k'
    then (k, v) ∷ rest
    else if before k k'
    then (k, v) ∷ (k', v') ∷ rest
    else (k', v') ∷ behind

-- `collect`: one entry after the other is inserted.
unfoldable pub collect_into : HeaderMap → List (Text × List ℕ) → HeaderMap
collect_into m [] = m
collect_into m ((k, v) ∷ hs) = collect_into (insert k v m) hs
