-- ===== src/Protocol/VecBuilder.antt =====
-- src/protocol/vec_builder.rs: a vector built in blocks. Capacities (`with_capacity`) only steer the
-- allocator and are left out; a panic of the source is the outcome `panic`.
pub mod Blocks
pub mod Refinement
pub mod Elements
use rskafka.Prelude.{
  ℕ, zero, suc, ◌-◌, ◌/◌, ◌*◌, min, ◌==◌, leb, if◌then◌else◌, Bool, true, false, Option, none, some,
  List, [], ◌∷◌, ◌++◌, length, concat,
}
use rskafka.Prelude.Result.{Result, ok, err, panic}
use rskafka.Protocol.Traits.{Reader, ReadError, ◌>>=◌, pure, crash, lift, read_exact}

abbrev pub default_block_size : ℕ
default_block_size = 1024 * 1024 * 10

pub record VecBuilder (A : Type 0) : Type 0 where
  pub elements_per_block : ℕ
  pub blocks : List (List A)
  pub remaining_elements : ℕ

module _ {A : Type 0} where
  -- `blocks.last_mut()`: what stands in the last block, and a write at its end.
  pub last? : List (List A) → Option (List A)
  last? [] = none
  last? (x ∷ []) = some x
  last? (x ∷ y ∷ rest) = last? (y ∷ rest)

  pub extend_last : List (List A) → List A → List (List A)
  extend_last [] xs = []
  extend_last (x ∷ []) xs = (x ++ xs) ∷ []
  extend_last (x ∷ y ∷ rest) xs = x ∷ extend_last (y ∷ rest) xs

  -- `element_size` stands for `size_of::<T>()`.
  unfoldable pub new_with_block_size : ℕ → ℕ → ℕ → Result ReadError (VecBuilder A)
  new_with_block_size element_size expected_elements block_size =
      let per_block : ℕ =
        if element_size == 0 then expected_elements else block_size / element_size in
      if per_block == 0
      then panic
      else ok (record {
        elements_per_block = per_block;
        blocks = [] ∷ [];
        remaining_elements = expected_elements;
      })

  unfoldable pub new : ℕ → ℕ → Result ReadError (VecBuilder A)
  unfolding new_with_block_size
  new element_size expected_elements =
      new_with_block_size element_size expected_elements default_block_size

  -- The blocks once there is room in the last one: a full last block is followed by a new one.
  pub open_block : ℕ → List (List A) → List A → List (List A)
  open_block per_block blocks target =
      if leb per_block (length target) then blocks ++ [] ∷ [] else blocks

  unfoldable pub push : VecBuilder A → A → Result ReadError (VecBuilder A)
  push b element = if b.remaining_elements == 0 then panic else elim (last? b.blocks) [
    | none ↦ panic
    | some target ↦ ok (record b {
      blocks = extend_last (open_block b.elements_per_block b.blocks target) (element ∷ []);
      remaining_elements = b.remaining_elements - 1;
    })
  ]

  -- `Vec::from(builder)`: the only block, or all blocks appended.
  pub join_blocks : List (List A) → List A
  join_blocks [] = []
  join_blocks (x ∷ []) = x
  join_blocks (x ∷ y ∷ rest) = concat (x ∷ y ∷ rest)

  unfoldable pub into_vec : VecBuilder A → List A
  unfolding join_blocks
  into_vec b = join_blocks b.blocks

-- How many bytes one round of `read_exact` asks for.
pub to_read : VecBuilder ℕ → List (List ℕ) → ℕ
to_read b blocks = elim (last? blocks) [
  | none ↦ 0
  | some buf ↦ min b.remaining_elements (b.elements_per_block - length buf)
]

-- `buf.resize(..)`, the read into the new part, and the count.
pub fill : VecBuilder ℕ → List (List ℕ) → List ℕ → VecBuilder ℕ
fill b blocks bytes = record b {
  blocks = extend_last blocks bytes;
  remaining_elements = b.remaining_elements - to_read b blocks;
}

-- `while self.remaining_elements > 0`, with fuel. Every round reads a byte at least, so the number
-- of bytes asked for is enough (Protocol/VecBuilder/Refinement.antt).
pub read_blocks : ℕ → VecBuilder ℕ → Reader (VecBuilder ℕ)
read_blocks zero b = pure b
read_blocks (suc fuel) b = elim (b.remaining_elements == 0) [
  | true ↦ pure b
  | false ↦ elim (last? b.blocks) [
    | none ↦ crash
    | some target ↦ do
      let blocks = open_block b.elements_per_block b.blocks target
      bytes ← read_exact (to_read b blocks)
      read_blocks fuel (fill b blocks bytes)
  ]
]

-- `VecBuilder::<u8>::read_exact`.
pub read_exact_builder : VecBuilder ℕ → Reader (VecBuilder ℕ)
read_exact_builder b = read_blocks b.remaining_elements b

-- The three lines of every caller: `VecBuilder::new(len)`, `buf.read_exact(reader)?`, `buf.into()`.
unfoldable pub read_vec : ℕ → Reader (List ℕ)
read_vec len = do b ← lift (new 1 len); b' ← read_exact_builder b; pure (into_vec b')

module _ {A : Type 0} where
  -- `for _ in 0..len { builder.push(read()?); }`
  pub push_times : ℕ → Reader A → VecBuilder A → Reader (VecBuilder A)
  push_times zero read b = pure b
  push_times (suc n) read b = do a ← read; b' ← lift (push b a); push_times n read b'

  -- The builder around that loop, as the array readers have it.
  unfoldable pub read_elements : ℕ → ℕ → Reader A → Reader (List A)
  read_elements element_size len read = do
    b ← lift (new element_size len)
    b' ← push_times len read b
    pure (into_vec b')
