-- ===== src/Session.antt =====
-- One connection: `struct connection_context` and its state (http-parser/src/parser.c), the
-- callbacks of the user (`parser_callbacks`, http-parser/src/parser.h), and the error codes.
-- Flags that hold 0 or 1 are Booleans. The decode buffers hold `ZLIB_DECOMPRESS_CHUNK_SIZE` bytes,
-- of which the list has those that were stored last; `none` is `NULL`. `info` is never used,
-- `settings` is always the one table, and `parser_ctx` serves the trace log and
-- `parser_connection_close` alone: none of these is a field here. Trace logging is left out.
pub mod Inflate
pub mod Handlers
pub mod Input
pub mod Fields
pub mod Assembly
pub mod Lifecycle
pub mod Received
pub mod Encoding
pub mod Body
pub mod Inflates
pub mod Stream
pub mod Kept
pub mod Frame
pub mod Outcome
pub mod Halts
pub mod Termination
pub mod Protocol
pub mod Safety
pub mod Scripts
pub mod Messages
mod Tests
use http_library.Prelude.{ℕ, ◌+◌, Bool, true, false, Option, none, some, List, [], take}
use http_library.Message.{HttpMessage}

-- The user's callbacks. They get the connection by its id, and `World` is what they act on. The
-- message callbacks may change the message that they get a pointer to.
pub record Callbacks (World : Type 0) : Type 0 where
  pub http_request_received : ℕ → Option HttpMessage → World → ℕ × Option HttpMessage × World
  pub http_request_body_started : ℕ → World → ℕ × World
  pub http_request_body_data : ℕ → List ℕ → World → World
  pub http_request_body_finished : ℕ → World → World
  pub http_response_received : ℕ → Option HttpMessage → World → ℕ × Option HttpMessage × World
  pub http_response_body_started : ℕ → World → ℕ × World
  pub http_response_body_data : ℕ → List ℕ → World → World
  pub http_response_body_finished : ℕ → World → World

pub data ContentEncoding : Type 0 where
  identity deflate gzip : ContentEncoding

pub data Direction : Type 0 where
  direction_in direction_out : Direction

-- `error_type_t`
abbrev pub parser_ok : ℕ
parser_ok = 0

abbrev pub parser_already_connected_error : ℕ
parser_already_connected_error = 101

abbrev pub parser_http_parse_error : ℕ
parser_http_parse_error = 102

abbrev pub parser_zlib_error : ℕ
parser_zlib_error = 103

abbrev pub parser_null_pointer_error : ℕ
parser_null_pointer_error = 104

abbrev pub parser_invalid_argument_error : ℕ
parser_invalid_argument_error = 105

abbrev pub zlib_decompress_chunk_size : ℕ
zlib_decompress_chunk_size = 262144

pub record ConnectionContext (P Z World : Type 0) : Type 0 where
  pub id : ℕ
  pub error_message : List ℕ
  pub body_callback_error : ℕ
  pub callbacks : Callbacks World
  pub parser : P
  pub message : Option HttpMessage
  pub done : ℕ
  pub in_field : Bool
  pub have_body : Bool
  pub body_started : Bool
  pub need_decode : ℕ
  pub content_encoding : ContentEncoding
  pub decode_in_buffer : Option (List ℕ)
  pub decode_out_buffer : Option (List ℕ)
  pub avail_in : ℕ
  pub zlib_stream : Z

-- A connection and the world that its callbacks act on.
pub record Session (P Z World : Type 0) : Type 0 where
  pub context : ConnectionContext P Z World
  pub open context use *
  pub world : World

abbrev pub with_context :
    {P Z World : Type 0} → Session P Z World → ConnectionContext P Z World → Session P Z World
with_context s c = record s { context = c }

-- `snprintf(context->error_message, 256, "%s", msg ? msg : "")`
abbrev pub error_text : Option (List ℕ) → List ℕ
error_text none = []
error_text (some msg) = take 255 msg

unfoldable pub set_error :
    {P Z World : Type 0} → Session P Z World → Option (List ℕ) → Session P Z World
set_error s msg = with_context s (record (s.context) { error_message = error_text msg })
