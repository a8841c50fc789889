-- ===== src/Protocol/Primitives/Zigzag/Laws.antt =====
-- Round trips of VARINT and VARLONG of src/protocol/primitives.rs.
use rskafka.Prelude.{◌-◌, ◌≡◌, refl, ◌∙◌, arith, true, ◌&&◌, ◌++◌}
use rskafka.Prelude.Int.{ℤ, pos, negsuc, InRange, leb_ℤ}
use rskafka.Protocol.Traits.Laws.{Reads, RoundTrips, Reads→RoundTrips, bind_ok}
use rskafka.Protocol.Primitives.Ints.{half32, half64}
use rskafka.Protocol.Primitives.Zigzag.{
  Zigzag, ZigzagLaws, checked_i32, read_varint, write_varint, read_varlong, write_varlong,
}

widened : (i : ℤ) → InRange half32 i → InRange half64 i
widened (pos n) h = omega arith
widened (negsuc n) h = omega arith

is_i32 :
    (i : ℤ)
    → InRange half32 i
    → (leb_ℤ (negsuc (half32 - 1)) i && leb_ℤ i (pos (half32 - 1))) ≡ true
is_i32 (pos n) h = ground arith
is_i32 (negsuc n) h = ground arith

module _ (z : Zigzag) (laws : ZigzagLaws z) where
  pub varint-Reads : (i : ℤ) → InRange half32 i → Reads (read_varint z) (z.write_varint i) i
  unfolding read_varint checked_i32
  varint-Reads i h = record {
    at = λ rest.
        bind_ok z.read_varint (checked_i32 z) (z.write_varint i ++ rest)
          ((laws.back i (widened i h)).at rest)
        ∙ rw (is_i32 i h) refl;
  }

  pub varint-RoundTrips :
      (i : ℤ) → InRange half32 i → RoundTrips (read_varint z) (write_varint z i) i
  unfolding write_varint
  varint-RoundTrips i h = Reads→RoundTrips (varint-Reads i h)

  pub varlong-RoundTrips :
      (i : ℤ) → InRange half64 i → RoundTrips (read_varlong z) (write_varlong z i) i
  unfolding read_varlong write_varlong
  varlong-RoundTrips i h = Reads→RoundTrips (laws.back i h)
