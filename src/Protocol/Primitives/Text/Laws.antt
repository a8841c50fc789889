-- ===== src/Protocol/Primitives/Text/Laws.antt =====
-- Round trips of the string types of src/protocol/primitives.rs.
use rskafka.Protocol.Primitives.Varint.Overflow.{zero_byte}
use rskafka.Prelude.{
  ℕ, List, ◌∷◌, ◌+◌, ◌≡◌, refl, ◌∙◌, arith, true, Option, none, some, ◌++◌, length,
}
use rskafka.Prelude.Int.{pos, negsuc}
use rskafka.Prelude.Result.{ok}
use rskafka.Protocol.Traits.{WriteError, lift}
use rskafka.Protocol.Traits.Laws.{
  Reads, bind_ok, RoundTrips, RoundTrips-bind, RoundTrips-last, Reads→RoundTrips, RoundTrips-end,
}
use rskafka.Protocol.VecBuilder.{read_vec}
use rskafka.Protocol.Primitives.Ints.{half16}
use rskafka.Protocol.Primitives.Ints.Laws.{int16-RoundTrips}
use rskafka.Protocol.Primitives.Varint.{u64_mod, read_unsigned_varint}
use rskafka.Protocol.Primitives.Varint.Laws.{unsigned_varint-RoundTrips}
use rskafka.Protocol.Primitives.Lengths.{if-RoundTrips, read_vec-Reads, compact_prefix}
use rskafka.Protocol.Primitives.Text.{
  compact_nullable_text, from_utf8, read_text, read_nullable_string, write_nullable_string,
  read_string, write_string, read_compact_string, write_compact_string,
  read_compact_nullable_string, write_compact_nullable_string,
}
use rskafka.Protocol.Primitives.Text.Utf8.{Text, is_utf8}

-- What Rust's type `String` promises of its bytes.
pub record IsText (s : Text) : Type 0 where
  pub utf8 : is_utf8 s ≡ true

pub data IsOptText : Option Text → Type 0 where
  null : IsOptText none
  text : {s : Text} → IsText s → IsOptText (some s)

pub text-Reads : (s : Text) → IsText s → Reads (read_text (length s)) s s
unfolding read_text
text-Reads s h = record {
  at = λ rest.
      bind_ok (read_vec (length s)) (λ buf. lift (from_utf8 buf)) (s ++ rest)
        ((read_vec-Reads s).at rest)
      ∙ rw (h.utf8, from_utf8) refl;
}

pub text-RoundTrips :
    {E : Type 0} (s : Text) → IsText s → RoundTrips {E = E} (read_text (length s)) (ok s) s
text-RoundTrips s h = Reads→RoundTrips (text-Reads s h)

pub string-RoundTrips : (s : Text) → IsText s → RoundTrips read_string (write_string s) s
unfolding read_string write_string
string-RoundTrips s h =
    if-RoundTrips _ (length s) half16 WriteError.overflow _ s
      (λ fits. RoundTrips-bind _ (int16-RoundTrips (pos (length s)) fits) (text-RoundTrips s h))

pub nullable_string-RoundTrips :
    (s : Option Text) → IsOptText s → RoundTrips read_nullable_string (write_nullable_string s) s
unfolding read_nullable_string write_nullable_string
nullable_string-RoundTrips none h =
    RoundTrips-end _ none (int16-RoundTrips (negsuc 0) (omega arith)) (λ rest. refl)
nullable_string-RoundTrips (some s) (text h) =
    if-RoundTrips _ (length s) half16 WriteError.malformed _ (some s) (λ fits.
      RoundTrips-bind _ (int16-RoundTrips (pos (length s)) fits)
        (RoundTrips-last some (text-RoundTrips s h)))

pub compact_string-RoundTrips :
    (s : Text) → IsText s → RoundTrips read_compact_string (write_compact_string s) s
unfolding read_compact_string write_compact_string
compact_string-RoundTrips s h =
    if-RoundTrips _ (length s + 1) u64_mod WriteError.overflow _ s
      (λ fits. RoundTrips-bind _ (compact_prefix (length s) fits) (text-RoundTrips s h))

pub compact_nullable_string-RoundTrips :
    (s : Option Text)
    → IsOptText s
    → RoundTrips read_compact_nullable_string (write_compact_nullable_string s) s
unfolding read_compact_nullable_string write_compact_nullable_string
compact_nullable_string-RoundTrips none h =
    RoundTrips-end _ none (unsigned_varint-RoundTrips 0 (omega arith)) (λ rest. refl)
compact_nullable_string-RoundTrips (some s) (text h) =
    if-RoundTrips _ (length s + 1) u64_mod WriteError.overflow _ (some s) (λ fits.
      RoundTrips-bind _ (compact_prefix (length s) fits)
        (RoundTrips-last some (text-RoundTrips s h)))

pub null_string : (rest : List ℕ) → read_compact_nullable_string (0 ∷ rest) ≡ ok (none, rest)
unfolding read_compact_nullable_string compact_nullable_text
null_string rest = bind_ok read_unsigned_varint _ (0 ∷ rest) (zero_byte rest)
