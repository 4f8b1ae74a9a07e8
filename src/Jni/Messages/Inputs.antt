-- ===== src/Jni/Messages/Inputs.antt =====
-- An input of whole messages to a connection of the binding, up to Java
-- (http-parser-java/jni/callbacks.cpp and http-parser/src/parser.c).
use http_library.HttpParser.{HttpParser}
use http_library.Zlib.{Zlib}
use http_library.Session.{Session}
