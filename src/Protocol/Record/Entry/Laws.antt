-- ===== src/Protocol/Record/Entry/Laws.antt =====
-- Round trips of the records of src/protocol/record.rs.
use rskafka.Prelude.{
  ℕ, ◌-◌, ◌==◌, ◌≡◌, refl, ap, sym, ◌∙◌, arith, true, Option, none, some, List, [], ◌∷◌, append-nil,
  length, take-append, drop-append, All,
}
use rskafka.Prelude.Int.{ℤ, pos, negsuc, InRange}
use rskafka.Prelude.Result.{ok, err, panic}
use rskafka.Protocol.Traits.{
  Reader, ReadError, ◌>>=◌, ◌then_write◌, read_times, write_each, Writer, WriteError,
}
use rskafka.Protocol.Traits.Laws.{
  Reads, RoundTrips, RoundTrips-bind, RoundTrips-last, RoundTrips-end, read_times-RoundTrips,
  Reads→RoundTrips,
}
use rskafka.Protocol.Traits.Nested.{RoundTrips-nested, RoundTrips-nested_end}
use rskafka.Protocol.Primitives.Text.{read_text}
use rskafka.Protocol.VecBuilder.{read_vec}
use rskafka.Protocol.Primitives.Ints.{half32, half64}
use rskafka.Protocol.Primitives.Ints.Laws.{int8-RoundTrips, int16-RoundTrips}
use rskafka.Protocol.Primitives.Zigzag.{Zigzag, ZigzagLaws, read_varint, write_varint}
use rskafka.Protocol.Primitives.Zigzag.Laws.{varint-RoundTrips, varlong-RoundTrips}
use rskafka.Protocol.Primitives.Lengths.{with_usize, if-RoundTrips, read_vec-RoundTrips}
use rskafka.Protocol.Primitives.Text.Laws.{IsText, text-RoundTrips}
use rskafka.Protocol.Record.{RecordHeader, Record, ControlBatchRecord, abort, commit}
use rskafka.Protocol.Record.Entry.{
  write_len, within, read_within, with_buffer, sized, optional_bytes, write_optional,
  read_record_header, write_record_header, read_record_fields, write_record_fields, read_record,
  write_record, control_type, control_of_version, read_control_record, write_control_record,
}

pub read_within-Reads :
    {A : Type 0} (r : Reader A) (bs : List ℕ) (a : A)
    → Reads r bs a
    → Reads (read_within (length bs) r) bs a
unfolding read_within within
read_within-Reads r bs a h = record {
  at = λ rest.
      let all : r bs ≡ ok (a, []) = ap r (sym (append-nil bs)) ∙ h.at [] in
      let front = take-append bs rest in
      let full : (length bs - (length bs - 0) == 0) ≡ true = ground arith in
      rw (front, all, within) (rw (front, full, drop-append bs rest) refl);
}

-- What a record's fields have by their Rust types.
pub record IsRecord (r : Record) : Type 0 where
  pub timestamp : InRange half64 r.timestamp_delta
  pub offset : InRange half32 r.offset_delta
  pub keys : All (λ h. IsText h.key) r.headers

module _ (z : Zigzag) (laws : ZigzagLaws z) where
  -- A length that was checked, and what follows it.
  len-RoundTrips :
      {B : Type 0} (n : ℕ) (f : ℤ → Reader B) (w : Writer) (b : B)
      → RoundTrips (f (pos n)) w b
      → RoundTrips (read_varint z >>= f) (write_len z n λ l. write_varint z l then_write w) b
  len-RoundTrips n f w b h =
      if-RoundTrips _ n half32 WriteError.malformed _ b
        (λ fits. RoundTrips-bind f (varint-RoundTrips z laws (pos n) fits) h)

  record_header-RoundTrips :
      (h : RecordHeader)
      → IsText h.key
      → RoundTrips (read_record_header z) (write_record_header z h) h
  unfolding read_record_header write_record_header
  record_header-RoundTrips h text =
      RoundTrips-nested (read_varint z) (λ len. with_usize ReadError.malformed len read_text) _
        (len-RoundTrips (length h.key) _ (ok h.key) h.key (text-RoundTrips h.key text))
        (RoundTrips-nested_end (read_varint z) (λ len. with_usize ReadError.malformed len read_vec)
          _ (len-RoundTrips (length h.value) _ (ok h.value) h.value (read_vec-RoundTrips h.value))
          (λ rest. refl))

  optional-RoundTrips :
      (b : Option (List ℕ)) → RoundTrips (read_varint z >>= optional_bytes z) (write_optional z b) b
  optional-RoundTrips none =
      RoundTrips-end _ none (varint-RoundTrips z laws (negsuc 0) (omega arith)) (λ rest. refl)
  optional-RoundTrips (some bs) =
      len-RoundTrips (length bs) _ (ok bs) (some bs) (RoundTrips-last some (read_vec-RoundTrips bs))

  each_header :
      (hs : List RecordHeader)
      → All (λ h. IsText h.key) hs
      → All (λ h. RoundTrips (read_record_header z) (write_record_header z h) h) hs
  each_header [] t = tt
  each_header (h ∷ hs) t = (record_header-RoundTrips h t.0, each_header hs t.1)

  headers-RoundTrips :
      (hs : List RecordHeader)
      → All (λ h. IsText h.key) hs
      → RoundTrips
          (read_varint z >>= λ n.
            with_usize ReadError.malformed n λ n. read_times n (read_record_header z))
          (write_len z
            (length hs)
            λ l. write_varint z l then_write write_each (write_record_header z) hs)
          hs
  headers-RoundTrips hs t =
      len-RoundTrips (length hs) _ (write_each (write_record_header z) hs) hs
        (read_times-RoundTrips (read_record_header z) (write_record_header z) hs (each_header hs t))

  record_fields-RoundTrips :
      (r : Record) → IsRecord r → RoundTrips (read_record_fields z) (write_record_fields z r) r
  unfolding read_record_fields write_record_fields
  record_fields-RoundTrips r h = RoundTrips-bind _ (int8-RoundTrips (pos 0) (omega arith)) (
      RoundTrips-bind _ (varlong-RoundTrips z laws r.timestamp_delta h.timestamp) (
        RoundTrips-bind _ (varint-RoundTrips z laws r.offset_delta h.offset) (
          RoundTrips-nested (read_varint z) (optional_bytes z) _ (optional-RoundTrips r.key) (
            RoundTrips-nested (read_varint z) (optional_bytes z) _ (optional-RoundTrips r.value) (
              RoundTrips-nested_end (read_varint z) _ _ (headers-RoundTrips r.headers h.keys)
                (λ rest. refl))))))

  buffer-RoundTrips :
      {A : Type 0} (r : Reader A) (w : Writer) (a : A)
      → RoundTrips r w a
      → RoundTrips
          (read_varint z >>= λ len. with_usize ReadError.malformed len λ n. read_within n r)
          (with_buffer w (sized z))
          a
  buffer-RoundTrips r (ok bs) a h =
      len-RoundTrips (length bs) _ (ok bs) a
        (Reads→RoundTrips (read_within-Reads r bs a (h.back bs refl)))
  buffer-RoundTrips r (err e) a h = record { back = λ bs q. cc }
  buffer-RoundTrips r panic a h = record { back = λ bs q. cc }

  -- A record with a timestamp delta in the range of i64, an offset delta in that of i32 and headers
  -- with UTF-8 keys that is written, behind its length, comes back, nulls and empty values told
  -- apart, and the input after it is untouched. The zigzag code reads back what it wrote.
  pub record_round_trip :
      (r : Record) → IsRecord r → RoundTrips (read_record z) (write_record z r) r
  unfolding read_record write_record
  record_round_trip r h =
      buffer-RoundTrips (read_record_fields z) (write_record_fields z r) r
        (record_fields-RoundTrips r h)

pub control_record-RoundTrips :
    (c : ControlBatchRecord) → RoundTrips read_control_record (write_control_record c) c
unfolding read_control_record write_control_record control_of_version control_type
control_record-RoundTrips abort =
    RoundTrips-bind _ (int16-RoundTrips (pos 0) (omega arith))
      (RoundTrips-end _ abort (int16-RoundTrips (pos 0) (omega arith)) (λ rest. refl))
control_record-RoundTrips commit =
    RoundTrips-bind _ (int16-RoundTrips (pos 0) (omega arith))
      (RoundTrips-end _ commit (int16-RoundTrips (pos 1) (omega arith)) (λ rest. refl))
