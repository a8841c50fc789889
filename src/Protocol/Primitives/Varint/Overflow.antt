-- ===== src/Protocol/Primitives/Varint/Overflow.antt =====
-- The reader of UNSIGNED_VARINT in src/protocol/primitives.rs on any input.
use rskafka.Prelude.{
  ℕ, ◌+◌, ◌*◌, ◌%◌, ◌^◌, ◌≤◌, ◌<◌, ◌≡◌, ◌∙◌, arith, List, [], ◌∷◌, ◌++◌, length, All, bit_and, ◌==◌,
  ltb, ◌≢◌, Bool-cases, inl, inr,
}
use rskafka.Prelude.Bits.{and_7f, and_80, bit_or-lt}
use rskafka.Prelude.Result.{ok, panic}
use rskafka.Protocol.Traits.Total.{NeverPanics}
use rskafka.Protocol.Primitives.Varint.{u64_mod, add_group, read_groups, read_unsigned_varint}

add_group-lt : (res c shift : ℕ) → res < u64_mod → add_group res c shift < u64_mod
add_group-lt res c shift h = bit_or-lt 64 res (bit_and c 0x7f * 2 ^ shift % u64_mod) h (omega arith)

-- After `j` bytes the shift is 7 * j; the loop stops at ten bytes.
read_groups_takes :
    (src : List ℕ) (res shift j v : ℕ) (rest : List ℕ)
    → shift ≡ 7 * j
    → j ≤ 9
    → res < u64_mod
    → read_groups src res shift ≡ ok (v, rest)
    → (v < u64_mod) × (length rest < length src) × (length src + j ≤ length rest + 10)
unfolding read_groups
read_groups_takes [] res shift j v rest hs hj hr e = cc
read_groups_takes (c ∷ src) res shift j v rest hs hj hr e = ground (
  arith,
  add_group-lt res c shift,
  read_groups_takes src (add_group res c shift) (shift + 7) (j + 1) v rest,
)

-- Whatever the input is, an UNSIGNED_VARINT that is read fits a u64 and took between one and ten
-- bytes.
pub read_unsigned_varint_takes :
    (src : List ℕ) (v : ℕ) (rest : List ℕ)
    → read_unsigned_varint src ≡ ok (v, rest)
    → (v < u64_mod) × (length rest < length src) × (length src ≤ length rest + 10)
unfolding read_unsigned_varint
read_unsigned_varint_takes src v rest e = ground (arith, read_groups_takes src 0 0 0 v rest)

abbrev pub IsContinued : ℕ → Type 0
IsContinued c = (128 ≤ c) × (c < 256)

inner_step :
    (c : ℕ) (src : List ℕ) (res shift : ℕ)
    → IsContinued c
    → shift ≤ 56
    → read_groups (c ∷ src) res shift ≡ read_groups src (add_group res c shift) (shift + 7)
unfolding read_groups
inner_step c src res shift h hs = ground (arith, and_80 c)

last_step :
    (c : ℕ) (src : List ℕ) (res : ℕ)
    → c < 128
    → read_groups (c ∷ src) res 63 ≡ ok (add_group res (c % 2) 63, src)
unfolding read_groups
last_step c src res h = ground (arith, and_80 c, and_7f c, and_7f (c % 2))

-- What nine bytes leave of the value.
abbrev pub groups : List ℕ → ℕ → ℕ → ℕ
groups [] res shift = res
groups (b ∷ bs) res shift = groups bs (add_group res b shift) (shift + 7)

tenth_from :
    (bs : List ℕ) (c : ℕ) (rest : List ℕ) (res shift : ℕ)
    → All IsContinued bs
    → c < 128
    → shift + 7 * length bs ≡ 63
    → read_groups (bs ++ c ∷ rest) res shift ≡ ok (add_group (groups bs res shift) (c % 2) 63, rest)
tenth_from [] c rest res shift h hc hs =
    let e : shift ≡ 63 = omega arith in rw e (last_step c rest res hc)
tenth_from (b ∷ bs) c rest res shift h hc hs =
    inner_step b (bs ++ c ∷ rest) res shift h.0 (omega arith)
    ∙ tenth_from bs c rest (add_group res b shift) (shift + 7) h.1 hc (omega arith)

-- After nine bytes with the continuation bit, a tenth byte without it ends the value, whatever its bits
-- 1 to 6 are: there is no error, and only its lowest bit is added to what the nine bytes hold.
pub tenth_byte :
    (bs : List ℕ) (c : ℕ) (rest : List ℕ)
    → length bs ≡ 9
    → All IsContinued bs
    → c < 128
    → read_unsigned_varint (bs ++ c ∷ rest) ≡ ok (add_group (groups bs 0 0) (c % 2) 63, rest)
unfolding read_unsigned_varint
tenth_byte bs c rest hl h hc = tenth_from bs c rest 0 0 h hc (omega arith)

read_groups-total : (s : List ℕ) (res shift : ℕ) → read_groups s res shift ≢ panic
unfolding read_groups
read_groups-total [] res shift p = cc
read_groups-total (c ∷ rest) res shift p = elim (Bool-cases (bit_and c 0x80 == 0)) [
  | inl last ↦ cc (rw last at p)
  | inr more ↦ elim (Bool-cases (ltb 63 (shift + 7))) [
    | inl long ↦ cc (rw (more, long) at p)
    | inr fits ↦ read_groups-total rest (add_group res c shift) (shift + 7) (rw (more, fits) at p)
  ]
]

pub unsigned_varint-NeverPanics : NeverPanics read_unsigned_varint
unfolding read_unsigned_varint
unsigned_varint-NeverPanics = record { on = λ s. read_groups-total s 0 0 }

pub zero_byte : (rest : List ℕ) → read_unsigned_varint (0 ∷ rest) ≡ ok (0, rest)
unfolding read_unsigned_varint read_groups
zero_byte rest = λ i. ok (0, rest)
