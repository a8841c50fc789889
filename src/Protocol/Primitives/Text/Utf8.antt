-- ===== src/Protocol/Primitives/Text/Utf8.antt =====
-- Which bytes `String::from_utf8` of Rust's standard library accepts: well-formed UTF-8.
use rskafka.Prelude.{
  ℕ, ltb, leb, if◌then◌else◌, ◌&&◌, ◌==◌, Bool, true, false, Option, none, some, List, [], ◌∷◌,
}

abbrev pub Text : Type 0
Text = List ℕ

-- The ranges of the bytes that must follow a first byte.
abbrev trail : ℕ × ℕ
trail = (0x80, 0xbf)

follows : ℕ → Option (List (ℕ × ℕ))
follows b =
    if ltb b 0x80
    then some []
    else if ltb b 0xc2
    then none
    else if ltb b 0xe0
    then some (trail ∷ [])
    else if b == 0xe0
    then some ((0xa0, 0xbf) ∷ trail ∷ [])
    else if b == 0xed
    then some ((0x80, 0x9f) ∷ trail ∷ [])
    else if ltb b 0xf0
    then some (trail ∷ trail ∷ [])
    else if b == 0xf0
    then some ((0x90, 0xbf) ∷ trail ∷ trail ∷ [])
    else if ltb b 0xf4
    then some (trail ∷ trail ∷ trail ∷ [])
    else if b == 0xf4
    then some ((0x80, 0x8f) ∷ trail ∷ trail ∷ [])
    else none

scan : List (ℕ × ℕ) → List ℕ → Bool
scan [] [] = true
scan (p ∷ ps) [] = false
scan [] (b ∷ bs) = elim (follows b) [ none ↦ false | some ps ↦ scan ps bs ]
scan ((lo, hi) ∷ ps) (b ∷ bs) = leb lo b && leb b hi && scan ps bs

unfoldable pub is_utf8 : List ℕ → Bool
unfolding scan follows
is_utf8 = scan []
