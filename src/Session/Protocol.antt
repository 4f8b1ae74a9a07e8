-- ===== src/Session/Protocol.antt =====
-- The order in which the Node.js parser reports a message, as far as the callbacks of
-- http-parser/src/parser.c rely on it, as a relation of phases and events.
use http_library.Prelude.{ℕ, suc, ◌+◌, ◌<◌, ◌≡◌, ◌≢◌, List}
use http_library.Memory.Strings.{IsText}
use http_library.Message.{u32}
use http_library.HttpParser.{
  ParserType, http_both, Event, message_begin, url, status, header_field, header_value,
  headers_complete, body, message_complete, chunk_header, chunk_complete, Exec, finished, notify,
  HttpParser,
}
use http_library.Session.Fields.{IsFragment}

-- Where a parser stands in a message, with a bound for the header fields that the message has.
pub data Phase : Type 0 where
  idle : Phase
  first_line : ℕ → Phase
  in_name : ℕ → Phase
  in_value : ℕ → Phase
  in_body : ℕ → Phase

-- The phases in a message in which no header name is open.
pub data IsClosed : ℕ → Phase → Type 0 where
  line_closed : {n : ℕ} → IsClosed n (first_line n)
  value_closed : {n : ℕ} → IsClosed n (in_value n)
  body_closed : {n : ℕ} → IsClosed n (in_body n)

-- The event that a parser may report in a phase, and the phase behind it. `extra` bounds the header
-- fields that the user adds to the message. Fields behind a body are those of a chunked body's
-- trailer.
pub data Next (extra : ℕ) : Phase → Event → Phase → Type 0 where
  begins : Next extra idle message_begin (first_line 0)
  reads_url :
      {n : ℕ} {bytes : List ℕ} → IsText bytes → Next extra (first_line n) (url bytes) (first_line n)
  reads_status :
      {n : ℕ} {bytes : List ℕ}
      → IsText bytes
      → Next extra (first_line n) (status bytes) (first_line n)
  starts_name :
      {phase : Phase} {n : ℕ} {bytes : List ℕ}
      → IsClosed n phase
      → suc n < u32
      → IsFragment bytes
      → Next extra phase (header_field bytes) (in_name (suc n))
  reads_name :
      {n : ℕ} {bytes : List ℕ}
      → IsText bytes
      → Next extra (in_name n) (header_field bytes) (in_name n)
  starts_value :
      {n : ℕ} {bytes : List ℕ}
      → IsText bytes
      → Next extra (in_name n) (header_value bytes) (in_value n)
  reads_value :
      {n : ℕ} {bytes : List ℕ}
      → IsText bytes
      → Next extra (in_value n) (header_value bytes) (in_value n)
  ends_head :
      {phase : Phase} {n : ℕ}
      → IsClosed n phase
      → Next extra phase headers_complete (in_body (n + extra))
  reads_body : {n : ℕ} {bytes : List ℕ} → Next extra (in_body n) (body bytes) (in_body n)
  starts_chunk : {phase : Phase} → Next extra phase chunk_header phase
  ends_chunk : {phase : Phase} → Next extra phase chunk_complete phase
  completes : {phase : Phase} {n : ℕ} → IsClosed n phase → Next extra phase message_complete idle

module _ {P : Type 0} ⦃http : HttpParser P⦄ where
  -- The parser that a callback leaves: `parser_reset` initialises it.
  abbrev pub left_by : Event → P → P
  left_by message_complete p = http.init p http_both
  left_by _ p = p

  -- A run that reports the events in their order from a phase on, whatever the callbacks return. It may
  -- stop anywhere, and `phase_of` says where the parser stands then. The type of the message is known
  -- when its head ends.
  pub data Follows (extra : ℕ) (phase_of : P → Phase) : Phase → Exec P → Type 0 where
    stops :
        {phase : Phase} {n : ℕ} {p : P}
        → phase_of p ≡ phase
        → Follows extra phase_of phase (finished n p)
    reports :
        {phase later : Phase} {event : Event} {p : P} {k : ℕ → P → Exec P}
        → Next extra phase event later
        → (event ≡ headers_complete → http.parser_type p ≢ http_both)
        → ((r : ℕ) → Follows extra phase_of later (k r (left_by event p)))
        → Follows extra phase_of phase (notify event p k)

  -- The parser keeps the order: every run from where it stands, an initialised parser is idle, and the
  -- names of the methods are free of NUL.
  pub record IsOrderly (extra : ℕ) (phase_of : P → Phase) : Type 0 where
    pub run : (p : P) (bytes : List ℕ) → Follows extra phase_of (phase_of p) (http.execute p bytes)
    pub initialised : (p : P) (kind : ParserType) → phase_of (http.init p kind) ≡ idle
    pub method_text : (n : ℕ) → IsText (http.method_str n)
