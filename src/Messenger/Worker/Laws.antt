-- ===== src/Messenger/Worker/Laws.antt =====
-- A response on its way from the stream to its caller, by src/messenger.rs.
use rskafka.Prelude.{
  ℕ, ◌+◌, ◌-◌, length-append, ◌==◌, ◌≡◌, refl, ap, ◌∙◌, arith, Bool, true, false, if◌then◌else◌,
  none, some, List, [], ◌∷◌, ◌++◌, append_assoc, length,
}
use rskafka.Prelude.Int.{pos, InRange}
use rskafka.Prelude.Result.{ok, err}
use rskafka.Protocol.Traits.{pure}
use rskafka.Protocol.Traits.Laws.{Reads, then_write-eq-ok, bind_ok}
use rskafka.Protocol.Primitives.Ints.{half32}
use rskafka.Protocol.Primitives.Ints.Laws.{int32-RoundTrips}
use rskafka.Protocol.Primitives.Collections.{TaggedFields, read_tagged_fields}
use rskafka.Protocol.Primitives.Collections.Laws.{IsTagged, tagged_fields-RoundTrips}
use rskafka.Protocol.ApiVersion.{ApiVersion}
use rskafka.Protocol.Messages.Fields.{kept, or_default, plain-RoundTrips}
use rskafka.Protocol.Messages.Header.{ResponseHeader, read_response_header, write_response_header}
use rskafka.Protocol.Messages.Header.Laws.{response_header_round_trip}
use rskafka.Messenger.{
  RequestMap, Response, request_map, MessengerState, lookup, remove, Delivery, too_much_data,
}
use rskafka.Messenger.Worker.{Turn, answer, dispatch, on_message}
use rskafka.Messenger.Requests.{RequestBody, response_body}

-- The version of the header that a broker answers with.
abbrev pub response_version : Bool → ApiVersion
response_version tagged = if tagged then pos 1 else pos 0

-- What both versions of a header have in common.
plain_header : ResponseHeader → ResponseHeader
plain_header h = record h { tagged_fields = none }

-- The header as its caller gets it.
abbrev pub header_for : Bool → ResponseHeader → ResponseHeader
header_for tagged h = record h { tagged_fields = kept tagged (or_default [] h.tagged_fields) }

abbrev pub response_of : Bool → ResponseHeader → List ℕ → List ℕ → Response
response_of tagged h head bs = record {
  header = header_for tagged h;
  message = head ++ bs;
  rest = bs;
}

-- The turn on a message for a request in the map.
on_message-found :
    (tagged : Bool) (m : RequestMap) (n : ℕ) (header : ResponseHeader) (msg rest : List ℕ)
    → lookup header.correlation_id m
      ≡ some (record { channel = n; use_tagged_fields_in_response = tagged })
    → read_response_header (pos 0) msg ≡ ok (header, rest)
    → on_message msg (request_map m) ≡ record {
      state = request_map (remove header.correlation_id m);
      sent = (answer n tagged header msg rest).0;
      goes_on = (answer n tagged header msg rest).1;
    }
unfolding on_message dispatch
on_message-found tagged m n header msg rest found e = rw (e, on_message) (rw (found, dispatch) refl)

-- The bytes of the tagged fields in the header of version 1.
header_parts :
    (h : ResponseHeader) (head bs : List ℕ)
    → InRange half32 h.correlation_id
    → IsTagged (or_default [] h.tagged_fields)
    → write_response_header h (pos 1) ≡ ok head
    → (cs : List ℕ) × (read_response_header (pos 0) (head ++ bs) ≡ ok (plain_header h, cs))
      × (read_tagged_fields cs ≡ ok (or_default [] h.tagged_fields, bs))
unfolding write_response_header read_response_header plain_header
header_parts h head bs id tags w =
    let (xs, cs, ex, ec, e) = then_write-eq-ok _ _ w in
    let four = (plain-RoundTrips _ (int32-RoundTrips h.correlation_id id)).back xs ex in
    let fields =
      (plain-RoundTrips _ (tagged_fields-RoundTrips (or_default [] h.tagged_fields) tags)).back cs
        ec in
    (
      cs ++ bs,
      ap (read_response_header (pos 0)) (ap (λ t. t ++ bs) e ∙ append_assoc xs cs bs)
          ∙ bind_ok _ _ _ (four.at (cs ++ bs))
          ∙ bind_ok (pure none) _ (cs ++ bs) refl,
      fields.at bs,
    )

answer_tagged :
    (n : ℕ) (header : ResponseHeader) (msg cs bs : List ℕ) (fields : TaggedFields)
    → read_tagged_fields cs ≡ ok (fields, bs)
    → answer n true header msg cs ≡ (
      (
        n,
        ok (record {
          header = record header { tagged_fields = some fields };
          message = msg;
          rest = bs;
        }),
      )
          ∷ [],
      true,
    )
unfolding answer
answer_tagged n header msg cs bs fields e = rw (e, answer) refl

turn_of : MessengerState → List Delivery × Bool → Turn
turn_of s out = record { state = s; sent = out.0; goes_on = out.1 }

-- A response in the header version that its request expects, for an ID in the map, reaches that
-- request: it gets the header as it was written and the rest of the message, the request leaves the
-- map, and the worker goes on. The ID fits an INT32, and tags are u64.
pub on_message_answers :
    (tagged : Bool) (m : RequestMap) (n : ℕ) (h : ResponseHeader) (head bs : List ℕ)
    → lookup h.correlation_id m
      ≡ some (record { channel = n; use_tagged_fields_in_response = tagged })
    → InRange half32 h.correlation_id
    → IsTagged (or_default [] h.tagged_fields)
    → write_response_header h (response_version tagged) ≡ ok head
    → on_message (head ++ bs) (request_map m) ≡ record {
      state = request_map (remove h.correlation_id m);
      sent = (n, ok (response_of tagged h head bs)) ∷ [];
      goes_on = true;
    }
unfolding turn_of plain_header answer
on_message_answers false m n h head bs found id tags w =
    on_message-found false m n (plain_header h) (head ++ bs) bs found
      (((response_header_round_trip h (pos 0) id tags).back head w).at bs)
on_message_answers true m n h head bs found id tags w =
    let (cs, read, fields) = header_parts h head bs id tags w in
    on_message-found true m n (plain_header h) (head ++ bs) cs found read
    ∙ ap (turn_of (request_map (remove h.correlation_id m)))
        (answer_tagged n (plain_header h) (head ++ bs) cs bs (or_default [] h.tagged_fields) fields)

module _ {Req Resp : Type 0} (body : RequestBody Req Resp) where
  -- A caller whose reader takes up the body's bytes gets the body if they end the message, and an
  -- error that tells how many bytes were read if they do not.
  pub response_body_takes_all :
      (v : ApiVersion) (tagged : Bool) (h : ResponseHeader) (head bs extra : List ℕ) (resp : Resp)
      → Reads (body.read_versioned v) bs resp
      → response_body body v (response_of tagged h head (bs ++ extra)) ≡ (
          if length extra == 0
          then ok resp
          else err (
              too_much_data
                (length head + length bs + length extra)
                (length head + length bs)
                body.api_key
                v))
  unfolding response_body
  response_body_takes_all v tagged h head bs [] resp r = rw (r.at [], response_body) refl
  response_body_takes_all v tagged h head bs (x ∷ extra) resp r =
      let sum = length head + length bs + length (x ∷ extra) in
      let size : length (head ++ (bs ++ x ∷ extra)) ≡ sum =
        omega (arith, length-append head (bs ++ x ∷ extra), length-append bs (x ∷ extra)) in
      let read : sum - length (x ∷ extra) ≡ length head + length bs = omega arith in
      let left : (length (x ∷ extra) == 0) ≡ false = ground arith in
      rw (r.at (x ∷ extra), response_body) (rw (left, size, read) refl)
