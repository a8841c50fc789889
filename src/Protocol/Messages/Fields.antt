-- ===== src/Protocol/Messages/Fields.antt =====
-- The idioms of src/protocol/messages for fields that only some versions have, and their round trips.
use rskafka.Prelude.{refl, Bool, true, false, if◌then◌else◌, Option, none, some, []}
use rskafka.Prelude.Result.{ok, err, panic, map_err}
use rskafka.Protocol.Traits.{Reader, Writer, Writes, WriteError, ◌>>=◌, pure, crash}
use rskafka.Protocol.Traits.Laws.{RoundTrips, RoundTrips-last, RoundTrips-pure}
use rskafka.Protocol.Traits.Succeeds.{Succeeds, Succeeds-ok}

-- src/protocol/messages/mod.rs: errors of versioned writers. Those of versioned readers are the
-- readers' own.
pub data WriteVersionedError : Type 0 where
  write_error : WriteError → WriteVersionedError
  field_not_available : WriteVersionedError

abbrev pub VersionedWriter : Type 0
VersionedWriter = Writes WriteVersionedError

-- The `?` on a plain writer inside a versioned one.
abbrev pub plain : Writer → VersionedWriter
plain w = map_err write_error w

pub plain-RoundTrips :
    {A : Type 0} {r : Reader A} (w : Writer) {a : A} → RoundTrips r w a → RoundTrips r (plain w) a
plain-RoundTrips (ok bs) h = record { back = λ cs e. h.back cs (cc e) }
plain-RoundTrips (err e) h = record { back = λ cs q. cc }
plain-RoundTrips panic h = record { back = λ cs q. cc }

pub plain-Succeeds : (w : Writer) → Succeeds w → Succeeds (plain w)
plain-Succeeds w h = record { bytes = h.bytes; written = rw (h.written, map_err) refl }

-- `(v >= k).then(|| read(reader)).transpose()?`
abbrev pub read_if : {A : Type 0} → Bool → Reader A → Reader (Option A)
read_if b r = if b then (do a ← r; pure (some a)) else pure none

-- `if v >= k { write }`
abbrev pub write_if : {E : Type 0} → Bool → Writes E → Writes E
write_if b w = if b then w else ok []

-- `assert!(v <= k)` before a reader and before a writer.
abbrev pub read_asserting : {A : Type 0} → Bool → Reader A → Reader A
read_asserting b r = if b then r else crash

abbrev pub write_asserting : {E : Type 0} → Bool → Writes E → Writes E
write_asserting b w = if b then w else panic

-- The field that is read: the one that was written, in the versions that have it.
abbrev pub kept : {A : Type 0} → Bool → A → Option A
kept b a = if b then some a else none

pub if_field-RoundTrips :
    {E A : Type 0} (b : Bool) {r : Reader A} {w : Writes E} {a : A}
    → RoundTrips r w a
    → RoundTrips (read_if b r) (write_if b w) (kept b a)
if_field-RoundTrips true h = RoundTrips-last some h
if_field-RoundTrips false h = RoundTrips-pure none

pub if-Succeeds : {E : Type 0} (b : Bool) {w : Writes E} → Succeeds w → Succeeds (write_if b w)
if-Succeeds true h = h
if-Succeeds false h = Succeeds-ok []

pub asserting-RoundTrips :
    {E A : Type 0} (b : Bool) {r : Reader A} {w : Writes E} {a : A}
    → RoundTrips r w a
    → RoundTrips (read_asserting b r) (write_asserting b w) a
asserting-RoundTrips true h = h
asserting-RoundTrips false h = record { back = λ bs e. cc }

-- `unwrap_or_default` on an optional field that is written.
abbrev pub or_default : {A : Type 0} → A → Option A → A
or_default d none = d
or_default d (some a) = a
