-- ===== src/Session/Received.antt =====
-- A whole request head: from `http_parser_on_message_begin` through the pieces of the url and of the
-- header fields to `http_parser_on_headers_complete` and the user's callback.
use http_library.Prelude.{
  suc, ℕ, ◌<◌, ◌≡◌, refl, ap, false, none, some, List, [], ◌∷◌, ◌++◌, map, append_assoc, append-nil,
  arith, length, All, All-append,
}
use http_library.Memory.{ok, ◌>>=◌, append_chars, set_chars, realloc}
use http_library.Memory.Strings.{IsText, append_chars-c_string}
use http_library.Message.{u32}
use http_library.Message.View.{IsClean, IsCleanView, MessageView, represent}
use http_library.HttpParser.{http_request, Event, message_begin, url, headers_complete, HttpParser}
use http_library.Zlib.{Zlib}
use http_library.Session.{Session}
use http_library.Session.Handlers.{
  on_event, received, http_parser_on_message_begin, http_parser_on_url,
  http_parser_on_headers_complete, headers_complete_of,
}
use http_library.Session.Fields.{
  kept_value-IsText, IsFragment, IsFragment-IsText, join, holding, run_events, run_events-append,
}
use http_library.Session.Assembly.{FieldPieces, IsCut, header_of, all_events, all_events-holding}

abbrev with_url : MessageView → List ℕ → MessageView
with_url v text = record v { url = some text }

-- A message that has an url alone.
abbrev url_view : List ℕ → MessageView
url_view text = record {
  method = none;
  url = some text;
  status = none;
  status_code = 0;
  headers = [];
}

-- The head of a request as the parser hands it over.
abbrev pub head_events : List ℕ → List (List ℕ) → List FieldPieces → List Event
head_events f fs ps = message_begin ∷ url f ∷ (map url fs ++ all_events ps)

-- What the head says.
abbrev pub request_of : List ℕ → List ℕ → List (List ℕ) → List FieldPieces → MessageView
request_of method f fs ps = record {
  method = some method;
  url = some (f ++ join fs);
  status = none;
  status_code = 0;
  headers = map header_of ps;
}

pub join-IsText : (fs : List (List ℕ)) → All IsText fs → IsText (join fs)
join-IsText [] h = tt
join-IsText (f ∷ fs) h = All-append _ f (join fs) h.0 (join-IsText fs h.1)

pub headers-IsClean : (ps : List FieldPieces) → All IsCut ps → IsClean (map header_of ps)
headers-IsClean [] h = tt
headers-IsClean (p ∷ ps) h = (
  (
    All-append _ p.name_first (join p.name_pieces) (IsFragment-IsText _ h.0.first)
        (join-IsText p.name_pieces h.0.name),
    kept_value-IsText [] p.value_pieces tt h.0.value,
  ),
  headers-IsClean ps h.1,
)

pub length-headers : (ps : List FieldPieces) → length (map header_of ps) ≡ length ps
length-headers [] = refl
length-headers (p ∷ ps) = ap suc (length-headers ps)

-- The message that a request head says is free of NUL.
pub request_of-IsCleanView :
    (method f : List ℕ) (fs : List (List ℕ)) (ps : List FieldPieces)
    → IsText method
    → IsFragment f × All IsText fs
    → All IsCut ps
    → length ps < u32
    → IsCleanView (request_of method f fs ps)
request_of-IsCleanView method f fs ps named pieces cut few = record {
  method = named;
  url = All-append _ f (join fs) (IsFragment-IsText f pieces.0) (join-IsText fs pieces.1);
  status = tt;
  headers = headers-IsClean ps cut;
  few = rw (length-headers ps) few;
}

module _ {P Z World : Type 0} ⦃http : HttpParser P⦄ ⦃zlib : Zlib Z⦄ (s : Session P Z World) where
  url_more :
      (v : MessageView) (text f : List ℕ)
      → IsText text
      → IsText f
      → http_parser_on_url (some f) (holding s (represent (with_url v text)) false)
        ≡ ok (0, holding s (represent (with_url v (text ++ f))) false)
  unfolding http_parser_on_url
  url_more v text [] t h = rw (append-nil text) refl
  url_more v text (b ∷ f) t h = rw (append_chars-c_string text (b ∷ f) t) refl

  url_rest :
      (v : MessageView) (text : List ℕ) (fs : List (List ℕ))
      → IsText text
      → All IsText fs
      → run_events (map url fs) (holding s (represent (with_url v text)) false)
        ≡ ok (holding s (represent (with_url v (text ++ join fs))) false)
  unfolding run_events on_event
  url_rest v text [] t h = rw (append-nil text) refl
  url_rest v text (f ∷ fs) t h =
      rw (url_more v text f t h.0, ← append_assoc text f (join fs))
        (url_rest v (text ++ f) fs (All-append _ text f t h.0) h.1)

  -- The first piece of the url goes into a message with none.
  begin_url :
      (f : List ℕ)
      → s.in_field ≡ false
      → IsFragment f
      → run_events (message_begin ∷ url f ∷ []) s ≡ ok (holding s (represent (url_view f)) false)
  unfolding run_events on_event http_parser_on_message_begin http_parser_on_url append_chars realloc
  begin_url [] e h = absurd h
  begin_url (b ∷ f) e h = ap (λ x. ok (holding s (represent (url_view (b ∷ f))) x)) e

  -- The pieces of a head make up its message.
  pub head_events-holding :
      (method f : List ℕ) (fs : List (List ℕ)) (ps : List FieldPieces)
      → s.in_field ≡ false
      → IsFragment f × All IsText fs
      → length ps < u32
      → All IsCut ps
      → run_events (head_events f fs ps) s
        ≡ ok (holding s (represent (record (request_of method f fs ps) { method = none })) false)
  head_events-holding method f fs ps idle pieces few cut =
      let start = message_begin ∷ url f ∷ [] in
      let rest = map url fs ++ all_events ps in
      rw
        (
          run_events-append start rest s,
          begin_url f idle pieces.0,
          run_events-append (map url fs) (all_events ps),
          url_rest (url_view f) f fs (IsFragment-IsText f pieces.0) pieces.1,
          all_events-holding s (with_url (url_view f) (f ++ join fs)) ps (omega arith) cut,
        )
        refl

  -- The head's message gets its method, and goes to the user.
  pub headers_complete-received :
      (v : MessageView)
      → http.parser_type s.parser ≡ http_request
      → let m = represent (record v { method = some (http.method_str (http.method s.parser)) }) in
        on_event headers_complete (holding s (represent (record v { method = none })) false)
        ≡ ok
            (received (holding s m false) (s.callbacks.http_request_received s.id (some m) s.world))
  unfolding on_event http_parser_on_headers_complete headers_complete_of set_chars realloc
  headers_complete-received v reads =
      ap
        (λ kind.
          headers_complete_of kind (holding s (represent (record v { method = none })) false))
        reads

  -- While the parser reads a request and no name is left unfinished: a request head in pieces that
  -- are free of NUL, the first of the url and of each header name not empty, and with less than 2^32
  -- header fields, runs without a fault up to the user's callback
  -- for a request, which gets the message of the parser's method, the joined url and the header fields
  -- in order, a name joined from its pieces, and a value from its pieces behind the last empty one,
  -- since an empty piece takes the place of all that the value held. The callback's result is the
  -- answer to the parser.
  pub head_events-received :
      (f : List ℕ) (fs : List (List ℕ)) (ps : List FieldPieces)
      → s.in_field ≡ false
      → http.parser_type s.parser ≡ http_request
      → IsFragment f × All IsText fs
      → length ps < u32
      → All IsCut ps
      → let m = represent (request_of (http.method_str (http.method s.parser)) f fs ps) in
        (run_events (head_events f fs ps) s >>= on_event headers_complete)
        ≡ ok
            (received (holding s m false) (s.callbacks.http_request_received s.id (some m) s.world))
  head_events-received f fs ps idle reads pieces few cut =
      let v = request_of (http.method_str (http.method s.parser)) f fs ps in
      rw (head_events-holding (http.method_str (http.method s.parser)) f fs ps idle pieces few cut)
        (headers_complete-received v reads)
