-- ===== src/Session/Messages/Inputs.antt =====
-- An input that holds several messages (`parser_input`, http-parser/src/parser.c).
use http_library.HttpParser.{HttpParser}
use http_library.Zlib.{Zlib}
use http_library.Session.{Session}
