-- ===== src/HttpParser.antt =====
-- What http-parser/src/parser.c uses of the Node.js http_parser (a library of its own, kept under
-- http-parser/src/nodejs_http_parser): the fields that it reads, and the calls that it makes.
-- `http_parser_execute` calls back into the program, which may initialise the parser anew in the
-- middle of a run. So a run is a tree: it has finished, with the number of bytes that it read, or
-- it notifies the program and goes on with the value that the callback returns and the parser that
-- the callback leaves.
use http_library.Prelude.{ℕ, List}

pub data ParserType : Type 0 where
  http_request http_response http_both : ParserType

-- The callbacks of `http_parser_settings`, with the bytes that the data callbacks get.
pub data Event : Type 0 where
  message_begin : Event
  url : List ℕ → Event
  status : List ℕ → Event
  header_field : List ℕ → Event
  header_value : List ℕ → Event
  headers_complete : Event
  body : List ℕ → Event
  message_complete : Event
  chunk_header : Event
  chunk_complete : Event

pub data Exec (P : Type 0) : Type 0 where
  finished : ℕ → P → Exec P
  notify : Event → P → (ℕ → P → Exec P) → Exec P

-- The operations on a `struct http_parser`, kept abstract as `P`. `HPE_OK` is 0.
pub record HttpParser (P : Type 0) : Type 0 where
  pub parser_type : P → ParserType
  pub http_errno : P → ℕ
  pub status_code : P → ℕ
  pub method : P → ℕ
  pub init : P → ParserType → P
  pub execute : P → List ℕ → Exec P
  pub method_str : ℕ → List ℕ
  pub errno_description : ℕ → List ℕ
  pub hpe_cb_body : ℕ
