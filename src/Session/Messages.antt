-- ===== src/Session/Messages.antt =====
-- Whole messages, and several in one input: what the user's world is told (http-parser/src/parser.c).
pub mod Bodies
pub mod Heads
pub mod Views
pub mod Delivered
pub mod Inputs
use http_library.Prelude.{
  ℕ, ◌+◌, ◌≤◌, ◌<◌, ◌≡◌, Bool, true, false, Option, none, some, List, [], ◌∷◌, ◌++◌, map, length,
  All,
}
use http_library.Memory.Strings.{IsText}
use http_library.Message.{HttpMessage, u32}
use http_library.Message.View.{IsCleanView, MessageView, represent}
use http_library.HttpParser.{
  ParserType, http_response, Event, message_begin, chunk_header, chunk_complete, status,
  headers_complete, body, message_complete, http_request, HttpParser,
}
use http_library.Session.{Callbacks, identity, Session}
use http_library.Session.Fields.{IsFragment, join}
use http_library.Session.Handlers.{BodyHooks, request_hooks, response_hooks}
use http_library.Session.Assembly.{FieldPieces, IsCut, header_of, all_events}
use http_library.Session.Received.{head_events, request_of}
use http_library.Session.Scripts.{Report, events_of}

pub data Side : Type 0 where
  request_side response_side : Side

-- The first line: the method and the pieces of the url, or the code and the pieces of the status text.
pub data FirstLine : Type 0 where
  of_request : List ℕ → List ℕ → List (List ℕ) → FirstLine
  of_response : ℕ → List (List ℕ) → FirstLine

abbrev pub side_of : FirstLine → Side
side_of (of_request method f fs) = request_side
side_of (of_response code pieces) = response_side

-- A message: its first line, and the pieces of its header fields, of its body, and of the header
-- fields behind a chunked body.
pub record Sent : Type 0 where
  pub first : FirstLine
  pub fields : List FieldPieces
  pub content : List (List ℕ)
  pub trailer : List FieldPieces

-- The pieces of a text: the first is not empty, and all are free of NUL.
abbrev pub ArePieces : List (List ℕ) → Type 0
ArePieces [] = Unit
ArePieces (f ∷ fs) = IsFragment f × All IsText fs

abbrev pub IsFitLine : FirstLine → Type 0
IsFitLine (of_request method f fs) = IsText method × ArePieces (f ∷ fs)
IsFitLine (of_response code pieces) = ArePieces pieces

-- The pieces are free of NUL, the first ones of texts and names are not empty, and there are less than
-- 2^32 header fields with those of the trailer.
pub record IsFit (m : Sent) : Type 0 where
  pub line : IsFitLine m.first
  pub few : length m.fields + length m.trailer < u32
  pub cut : All IsCut m.fields
  pub trailer_cut : All IsCut m.trailer

-- A response: its status text if it has a piece, and the code, which is set with the text.
abbrev pub response_of : ℕ → List (List ℕ) → List FieldPieces → MessageView
response_of code [] ps = record {
  method = none;
  url = none;
  status = none;
  status_code = 0;
  headers = map header_of ps;
}
response_of code (f ∷ fs) ps = record {
  method = none;
  url = none;
  status = some (f ++ join fs);
  status_code = code;
  headers = map header_of ps;
}

abbrev pub view_of : FirstLine → List FieldPieces → MessageView
view_of (of_request method f fs) ps = request_of method f fs ps
view_of (of_response code pieces) ps = response_of code pieces ps

-- What the parser reports of a body: bytes, and where a chunk begins and ends.
pub data Part : Type 0 where
  bytes_part : List ℕ → Part
  chunk_start chunk_end : Part

abbrev pub part_event : Part → Event
part_event (bytes_part bytes) = body bytes
part_event chunk_start = chunk_header
part_event chunk_end = chunk_complete

-- The reports of a whole message: those of its head, its end, the parts of the body, the header fields
-- of the trailer, and the end of the message.
pub record Telling (P : Type 0) : Type 0 where
  pub head : List (Report P)
  pub at_head_end : P
  pub parts : List (Part × P)
  pub trailer : List (Report P)
  pub at_end : P

abbrev pub body_reports : {P : Type 0} → List (Part × P) → List (Report P)
body_reports [] = []
body_reports ((part, p) ∷ parts) = (part_event part, p) ∷ body_reports parts

-- The bytes of the parts.
abbrev pub content_of : {P : Type 0} → List (Part × P) → List (List ℕ)
content_of [] = []
content_of ((bytes_part bytes, p) ∷ parts) = bytes ∷ content_of parts
content_of ((chunk_start, p) ∷ parts) = content_of parts
content_of ((chunk_end, p) ∷ parts) = content_of parts

abbrev pub reports_of : {P : Type 0} → Telling P → List (Report P)
reports_of t =
    t.head
    ++ ((headers_complete, t.at_head_end)
        ∷ (body_reports t.parts ++ (t.trailer ++ ((message_complete, t.at_end) ∷ []))))

-- The bytes of the pieces.
abbrev pub pieces_of : {P : Type 0} → List (List ℕ × P) → List (List ℕ)
pieces_of [] = []
pieces_of ((bytes, p) ∷ pieces) = bytes ∷ pieces_of pieces

abbrev pub type_for : Side → ParserType
type_for request_side = http_request
type_for response_side = http_response

abbrev pub status_reports : {P : Type 0} → List (List ℕ × P) → List (Report P)
status_reports [] = []
status_reports ((bytes, p) ∷ pieces) = (status bytes, p) ∷ status_reports pieces

module _ {P : Type 0} ⦃http : HttpParser P⦄ where
  -- The reports of a head but its end. The parser has the status code with each piece of the text.
  pub data IsToldHead : FirstLine → List FieldPieces → List (Report P) → Type 0 where
    request_told :
        {method f : List ℕ} {fs : List (List ℕ)} {ps : List FieldPieces} {reports : List (Report P)}
        → events_of reports ≡ head_events f fs ps
        → IsToldHead (of_request method f fs) ps reports
    response_told :
        {code : ℕ} {texts : List (List ℕ)} {ps : List FieldPieces} {reports : List (Report P)}
        (p : P) (pieces : List (List ℕ × P)) (rest : List (Report P))
        → pieces_of pieces ≡ texts
        → All (λ (x : List ℕ × P). http.status_code x.1 ≡ code) pieces
        → events_of rest ≡ all_events ps
        → reports ≡ (message_begin, p) ∷ (status_reports pieces ++ rest)
        → IsToldHead (of_response code texts) ps reports

  -- The parser has the method at the end of a request's head.
  abbrev pub IsNamed : FirstLine → P → Type 0
  IsNamed (of_request method f fs) p = http.method_str (http.method p) ≡ method
  IsNamed (of_response code pieces) p = Unit

  -- The reports tell the message, with a parser that reads its side.
  pub record IsToldBy (m : Sent) (t : Telling P) : Type 0 where
    pub head : IsToldHead m.first m.fields t.head
    pub reads : http.parser_type t.at_head_end ≡ type_for (side_of m.first)
    pub named : IsNamed m.first t.at_head_end
    pub content : content_of t.parts ≡ m.content
    pub trailer : events_of t.trailer ≡ all_events m.trailer
    pub reads_parts :
        All (λ (x : Part × P). http.parser_type x.1 ≡ type_for (side_of m.first)) t.parts
    pub reads_end : http.parser_type t.at_end ≡ type_for (side_of m.first)

module _ {World : Type 0} where
  -- The callbacks of a side.
  abbrev pub received_of :
      Side → Callbacks World → ℕ → Option HttpMessage → World → ℕ × Option HttpMessage × World
  received_of request_side c = c.http_request_received
  received_of response_side c = c.http_response_received

  abbrev pub hooks_for : Side → Callbacks World → BodyHooks World
  hooks_for request_side c = request_hooks c
  hooks_for response_side c = response_hooks c

  abbrev pub finished_of : Side → Callbacks World → ℕ → World → World
  finished_of request_side c = c.http_request_body_finished
  finished_of response_side c = c.http_response_body_finished

  -- Where its world is `Good`, the user goes on with each message, leaves one that stands for a view
  -- with no more header fields, and wants bodies as they are; and its world stays good.
  pub record IsPlainUser (c : Callbacks World) (id : ℕ) (Good : World → Type 0) : Type 0 where
    pub answer :
        (side : Side) (v : MessageView) (w : World)
        → IsCleanView v
        → Good w
        → (received_of side c id (some (represent v)) w).0 ≡ 0
    pub keeps :
        (side : Side) (v : MessageView) (w : World)
        → IsCleanView v
        → Good w
        → (u : MessageView) × ((received_of side c id (some (represent v)) w).1
            ≡ some (represent u))
          × (length u.headers ≤ length v.headers)
    pub good_received :
        (side : Side) (v : MessageView) (w : World)
        → IsCleanView v
        → Good w
        → Good (received_of side c id (some (represent v)) w).2
    pub plain : (side : Side) (w : World) → Good w → ((hooks_for side c).started id w).0 ≡ 0
    pub good_started : (side : Side) (w : World) → Good w → Good ((hooks_for side c).started id w).1
    pub good_data :
        (side : Side) (bytes : List ℕ) (w : World)
        → Good w
        → Good ((hooks_for side c).body_data id bytes w)
    pub good_finished : (side : Side) (w : World) → Good w → Good (finished_of side c id w)

  -- What the user's callbacks make of the pieces of a body, in order.
  abbrev pub told_pieces : Side → Callbacks World → ℕ → List (List ℕ) → World → World
  told_pieces side c id [] w = w
  told_pieces side c id (bytes ∷ pieces) w =
      told_pieces side c id pieces ((hooks_for side c).body_data id bytes w)

  -- A body that has a piece is started, told piece by piece, and finished.
  abbrev pub told_body : Side → Callbacks World → ℕ → List (List ℕ) → World → World
  told_body side c id [] w = w
  told_body side c id (bytes ∷ pieces) w =
      finished_of side c id
        (told_pieces side c id (bytes ∷ pieces) ((hooks_for side c).started id w).1)

  abbrev pub told_message : Callbacks World → ℕ → Sent → World → World
  told_message c id m w =
      told_body (side_of m.first) c id m.content
        (received_of (side_of m.first) c id (some (represent (view_of m.first m.fields))) w).2

  abbrev pub told_messages : Callbacks World → ℕ → List Sent → World → World
  told_messages c id [] w = w
  told_messages c id (m ∷ messages) w = told_messages c id messages (told_message c id m w)

module _ {P Z World : Type 0} (c : Callbacks World) (id : ℕ) (Good : World → Type 0) where
  -- A connection with the message `m`; its body has begun if `b`, and nothing is decoded.
  pub record IsBetween (b : Bool) (m : Option HttpMessage) (s : Session P Z World) : Type 0 where
    pub own : s.callbacks ≡ c
    pub same : s.id ≡ id
    pub here : s.message ≡ m
    pub closed : s.in_field ≡ false
    pub started : s.body_started ≡ b
    pub having : s.have_body ≡ b
    pub plain : s.content_encoding ≡ identity
    pub no_buffer : s.decode_out_buffer ≡ none
    pub good : Good s.world

-- The reports of several messages, one after the other.
abbrev pub all_reports : {P : Type 0} → List (Sent × Telling P) → List (Report P)
all_reports [] = []
all_reports ((m, telling) ∷ rest) = reports_of telling ++ all_reports rest

abbrev pub messages_of : {P : Type 0} → List (Sent × Telling P) → List Sent
messages_of [] = []
messages_of ((m, telling) ∷ rest) = m ∷ messages_of rest
