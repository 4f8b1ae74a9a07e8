-- ===== src/Zlib.antt =====
-- What http-parser/src/parser.c uses of zlib: the calls on a `z_stream`, kept abstract as `Z`. The
-- input and output windows of the stream are arguments and results of `inflate`, which reads a
-- front part of its input and writes at most `avail_out` bytes.
use http_library.Prelude.{ℕ, Option, List}

pub data ZCode : Type 0 where
  z_ok z_stream_end : ZCode
  z_error : ℕ → ZCode

pub record Inflated (Z : Type 0) : Type 0 where
  pub code : ZCode
  pub consumed : ℕ
  pub output : List ℕ
  pub stream : Z

pub record Zlib (Z : Type 0) : Type 0 where
  -- all fields zero, as `memset` leaves them
  pub zeroed : Z
  pub msg : Z → Option (List ℕ)
  pub inflate_init : Z → ZCode × Z
  -- with `windowBits`
  pub inflate_init2 : Z → ℕ → ZCode × Z
  -- the input and `avail_out`
  pub inflate : Z → List ℕ → ℕ → Inflated Z
  pub inflate_end : Z → ZCode × Z
