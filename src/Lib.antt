-- ===== src/Lib.antt =====
-- HTTP message and parser library: the C sources under http-parser/src, and their Java binding under
-- http-parser-java/jni.
--
-- The program and its model. http-parser/src/parser.c keeps one `connection_context` for each
-- connection. Its input goes to the Node.js HTTP parser, whose callbacks build an `http_message`,
-- hand messages and bodies to the user, and decompress bodies with zlib. The Java binding is a user:
-- its callbacks call Java, and its native methods call the functions of parser.h and logger.h.
--
-- - Memory: undefined behaviour as the faults of a small monad (`Run`), blocks with their ownership
--   (`Ptr`: null, a live block, a block that was given back), and `append_chars`, `append_bytes`,
--   `set_chars`, `strlen`, `strncasecmp` and `snprintf`. Memory/Strings has the laws of blocks that
--   hold NUL-terminated strings, Memory/Halts the runs that end.
-- - Message: `http_message` and the `http_message_…` functions (http-parser/src/parser.c and
--   parser.h). Message/View is the abstract view, texts and a list of headers, and `represent` is the
--   message that stands for a view. Message/Search, Edit, Add, Delete, Clone, Setters and Update have
--   the theorems of the operations; Message/Raw models `http_message_raw`, Message/Raw/Decimal its
--   digits, and Message/Raw/Render its rendering. Message/Update also has the two calls of `addHeader`
--   of the Java binding (http-parser-java/jni/parser.cpp). Message/Interface is the interface of
--   parser.h, with its laws, and Message/Commands a client of it.
-- - HttpParser and Zlib: what the code uses of the two libraries, as records of operations that the
--   model takes as instance arguments. A run of `http_parser_execute` is a tree of callbacks, since a
--   callback may initialise the parser in the middle of the run. Laws of them are named hypotheses
--   where they are asked (`IsOrderly`).
-- - Session: `connection_context`, the user's callbacks, which act on a world of their own, and the
--   error codes. Session/Inflate models body decompression, Session/Handlers the callbacks
--   `http_parser_on_…` and `parser_reset`, Session/Input `parser_input` and `parser_disconnect`. The
--   theorems stand in Session/Fields and Assembly (header fields in pieces), Received (the head of a
--   request), Lifecycle (begin and end of a message), Encoding, Body, Inflates and Stream (bodies),
--   Kept, Frame and Outcome (runs of the parser and what `parser_input` answers), Halts and
--   Termination (that an input ends). Session/Protocol is the order in which the parser reports a
--   message, as a relation of phases and events, and Session/Safety with its children (Heads and
--   Lines for the callbacks, Runs for inputs) the invariant of a connection in each
--   phase. Session/Scripts relates a run to the events that it reports, and Session/Messages with its
--   children (Views, Heads, Bodies, Delivered, Inputs) is about inputs of whole requests and responses.
-- - Registry: `parser_context`, the hash map `context_by_id_…`, `parser_create`, `parser_connect`,
--   `parser_connection_close` and `parser_destroy`. Registry/Buckets and Lookup relate the buckets to
--   the map from ids to connections, Registry/Attach, Connect and Close have the operations,
--   Registry/Reach the invariant, Registry/Calls the inputs and disconnects of connections at
--   their addresses, and Registry/Feeds a connection through its inputs and disconnects.
--   Registry/Interface is the interface of parser.h, with its laws, and Registry/Clients a client of it.
-- - Logger: the logger (http-parser/src/logger.c), with the system's calls as a record. What
--   `logger_open` returns is an argument: it has no return statement. Logger/Lines is about the lines
--   that a logger writes to its file.
-- - Jni: the Java binding, with the Java Native Interface as a record of operations on an abstract
--   virtual machine. Jni/Errors is `processError`, Jni/Message the native methods of `HttpMessage`,
--   Jni/Parser those of `NativeParser` (http-parser-java/jni/parser.cpp), Jni/Callbacks the callbacks
--   (callbacks.cpp and callbacks.h), and Jni/Logging `NativeLogger` (logger.cpp). `nativePtr` is the
--   message itself, or the value of the logger, a connection's pointer its address. The theorems stand in
--   Jni/Strings, which has the laws of a string's characters, Contents, Delivery and Bodies (a
--   request and a body up to Java), Messages and Messages/Inputs (inputs of whole messages up to
--   Java), Answers (the exceptions of an input) and Connections.
-- - Prelude: library names, Boolean tests and list lemmas that the parts share.
--
-- Numbers are natural numbers; `unsigned int` keeps its wrap-around (`% 2 ^ 32`). The loop of
-- `message_inflate` runs on fuel, one more than the bytes of its input: each further round has less
-- input, so that the fuel is never used up. `%u` prints ten digits at most, which is enough below
-- 2^32. All other loops are recursions on the list or the count that they walk over.
--
-- Not modelled: the Node.js parser and zlib themselves; allocation that fails; memory that is never
-- freed; the calls of the trace log in parser.c; the Java classes, and Java methods that call back into
-- the parser; which block a text of a message stands in, so that a clone that shares its blocks, or the
-- message itself in place of its clone, is the same in the model; counts of header fields from 2^31 on
-- in the loops with an `int` index, and lengths from there on as a signed `jsize` or `jint`; the
-- `connection_info` that `connect` fills in and drops; a close of a connection by the
-- user's callback while its parser runs.
pub mod Prelude
pub mod Memory
pub mod Message
pub mod HttpParser
pub mod Zlib
pub mod Session
pub mod Registry
pub mod Logger
pub mod Jni
