-- ===== src/Session/Messages/Heads.antt =====
-- The reports of a head make up its message (http-parser/src/parser.c).
use mathlib.Core.Path.{subst}
use http_library.Prelude.{
  ℕ, ◌<◌, ◌≡◌, refl, sym, ◌∙◌, ap, false, Option, none, some, List, [], ◌∷◌, ◌++◌, map, arith, All,
  All-append, append_assoc, append-nil, length,
}
use http_library.Memory.{ok}
use http_library.Memory.Strings.{IsText}
use http_library.Message.{u32}
use http_library.Message.View.{MessageView, IsCleanText, represent, with_headers}
use http_library.HttpParser.{
  Event, message_begin, url, status, header_field, header_value, HttpParser,
}
use http_library.Zlib.{Zlib}
use http_library.Session.{Session}
use http_library.Session.Handlers.{on_event, http_parser_on_message_begin, http_parser_on_status}
use http_library.Session.Input.{with_parser}
use http_library.Session.Fields.{IsFragment, IsFragment-IsText, join, holding, run_events}
use http_library.Session.Assembly.{
  FieldPieces, IsCut, header_of, value_events, field_events, all_events, all_events-holding,
}
use http_library.Session.Received.{head_events, head_events-holding}
use http_library.Session.Scripts.{
  Report, events_of, last_parser, Takes, taken, takes, Takes-append, IsQuiet, run_events-Takes,
}
use http_library.Session.Safety.Lines.{joined, append_chars-joined}
use http_library.Session.Messages.{
  ArePieces, FirstLine, of_request, of_response, IsFitLine, Sent, IsFit, view_of, status_reports,
  pieces_of, IsToldHead, request_told, response_told,
}

map-IsQuiet :
    (g : List ℕ → Event) (xs : List (List ℕ))
    → ((x : List ℕ) → IsQuiet (g x))
    → All IsQuiet (map g xs)
map-IsQuiet g [] q = tt
map-IsQuiet g (x ∷ xs) q = (q x, map-IsQuiet g xs q)

value_events-IsQuiet : (gs : List (List ℕ)) → All IsQuiet (value_events gs)
value_events-IsQuiet [] = (tt, tt)
value_events-IsQuiet (g ∷ gs) = (tt, map-IsQuiet header_value gs (λ x. tt))

pub all_events-IsQuiet : (ps : List FieldPieces) → All IsQuiet (all_events ps)
all_events-IsQuiet [] = tt
all_events-IsQuiet (p ∷ ps) =
    All-append IsQuiet (field_events p) (all_events ps)
      (
        tt,
        All-append IsQuiet (map header_field p.name_pieces) (value_events p.value_pieces)
            (map-IsQuiet header_field p.name_pieces (λ x. tt))
            (value_events-IsQuiet p.value_pieces),
      )
      (all_events-IsQuiet ps)

head_events-IsQuiet :
    (f : List ℕ) (fs : List (List ℕ)) (ps : List FieldPieces) → All IsQuiet (head_events f fs ps)
head_events-IsQuiet f fs ps = (
  tt,
  (
    tt,
    All-append IsQuiet (map url fs) (all_events ps) (map-IsQuiet url fs (λ x. tt))
        (all_events-IsQuiet ps),
  ),
)

abbrev status_view : Option (List ℕ) → ℕ → MessageView
status_view text code = record {
  method = none;
  url = none;
  status = text;
  status_code = code;
  headers = [];
}

-- The status text and the code that the pieces make.
abbrev text_of : List (List ℕ) → Option (List ℕ)
text_of [] = none
text_of (f ∷ fs) = some (f ++ join fs)

abbrev code_of : ℕ → List (List ℕ) → ℕ
code_of code [] = 0
code_of code (f ∷ fs) = code

-- The message before the end of the head: that of a request has no method yet.
abbrev pub bare_view : FirstLine → List FieldPieces → MessageView
bare_view line ps = record (view_of line ps) { method = none }

response-headers :
    (code : ℕ) (texts : List (List ℕ)) (ps : List FieldPieces)
    → with_headers (status_view (text_of texts) (code_of code texts)) (map header_of ps)
      ≡ bare_view (of_response code texts) ps
response-headers code [] ps = refl
response-headers code (f ∷ fs) ps = refl

module _ {P Z World : Type 0} ⦃http : HttpParser P⦄ ⦃zlib : Zlib Z⦄ (s : Session P Z World) where
  status_added :
      (text : Option (List ℕ)) (old : ℕ) (f : List ℕ) (p : P)
      → IsCleanText text
      → IsFragment f
      → on_event (status f) (with_parser (holding s (represent (status_view text old)) false) p)
        ≡ ok (
          0,
          with_parser
              (holding s
                (represent (status_view (some (joined text f)) (http.status_code p)))
                false)
              p,
        )
  unfolding on_event http_parser_on_status
  status_added text old [] p clean h = absurd h
  status_added text old (b ∷ f) p clean h = rw (append_chars-joined text (b ∷ f) clean) refl

  -- A further piece of a status text, which may be empty.
  status_further :
      (text : List ℕ) (code : ℕ) (f : List ℕ) (p : P)
      → IsText text
      → IsText f
      → http.status_code p ≡ code
      → on_event
          (status f)
          (with_parser (holding s (represent (status_view (some text) code)) false) p)
        ≡ ok (0, with_parser (holding s (represent (status_view (some (text ++ f)) code)) false) p)
  unfolding on_event http_parser_on_status
  status_further text code [] p t h same = rw (append-nil text) refl
  status_further text code (b ∷ f) p t h same =
      status_added (some text) code (b ∷ f) p t h
      ∙ ap
          (λ n. ok (
            0,
            with_parser (holding s (represent (status_view (some (text ++ (b ∷ f))) n)) false) p,
          ))
          same

  -- The further pieces of a status text.
  status_more :
      (text : List ℕ) (code : ℕ) (pieces : List (List ℕ × P)) (q : P)
      → IsText text
      → All IsText (pieces_of pieces)
      → All (λ (x : List ℕ × P). http.status_code x.1 ≡ code) pieces
      → Takes
          (status_reports pieces)
          (with_parser (holding s (represent (status_view (some text) code)) false) q)
          (with_parser
            (holding s
              (represent (status_view (some (text ++ join (pieces_of pieces))) code))
              false)
            (last_parser q (status_reports pieces)))
  status_more text code [] q t h codes = rw (append-nil text) taken
  status_more text code ((f, p) ∷ pieces) q t h codes =
      rw (← append_assoc text f (join (pieces_of pieces))) (
        takes (status_further text code f p t h.0 codes.0) refl
          (status_more (text ++ f) code pieces p (All-append _ text f t h.0) h.1 codes.1))

  -- The status text, from none on.
  status_pieces :
      (code : ℕ) (pieces : List (List ℕ × P)) (q : P)
      → ArePieces (pieces_of pieces)
      → All (λ (x : List ℕ × P). http.status_code x.1 ≡ code) pieces
      → Takes
          (status_reports pieces)
          (with_parser (holding s (represent (status_view none 0)) false) q)
          (with_parser
            (holding s
              (represent
                (status_view (text_of (pieces_of pieces)) (code_of code (pieces_of pieces))))
              false)
            (last_parser q (status_reports pieces)))
  status_pieces code [] q h codes = taken
  status_pieces code ((f, p) ∷ pieces) q h codes =
      let view = λ (n : ℕ). with_parser (holding s (represent (status_view (some f) n)) false) p in
      takes (status_added none 0 f p tt h.0 ∙ ap (λ n. ok (0, view n)) codes.0) refl
        (status_more f code pieces p (IsFragment-IsText f h.0) h.1 codes.1)

  begun_head :
      s.in_field ≡ false
      → run_events (message_begin ∷ []) s ≡ ok (holding s (represent (status_view none 0)) false)
  unfolding run_events on_event http_parser_on_message_begin
  begun_head closed = ap (λ b. ok (holding s (represent (status_view none 0)) b)) closed

  told_response :
      (code : ℕ) (p : P) (pieces : List (List ℕ × P)) (rest : List (Report P))
      (ps : List FieldPieces)
      → ArePieces (pieces_of pieces)
      → length ps < u32
      → All IsCut ps
      → s.in_field ≡ false
      → All (λ (x : List ℕ × P). http.status_code x.1 ≡ code) pieces
      → events_of rest ≡ all_events ps
      → (q : P) × Takes ((message_begin, p) ∷ (status_reports pieces ++ rest)) s (
          with_parser
            (holding s (represent (bare_view (of_response code (pieces_of pieces)) ps)) false)
            q)
  told_response code p pieces rest ps fit few cut closed codes same =
      let texts = pieces_of pieces in
      let v = status_view (text_of texts) (code_of code texts) in
      let r = last_parser p (status_reports pieces) in
      let u = holding s (represent v) false in
      let t = holding s (represent (with_headers v (map header_of ps))) false in
      let q = last_parser r rest in
      let begun =
        run_events-Takes ((message_begin, p) ∷ []) s.parser s _ (tt, tt) (begun_head closed) in
      let fields =
        run_events-Takes rest r u t (subst (All IsQuiet) (sym same) (all_events-IsQuiet ps))
          (ap (λ es. run_events es u) same ∙ all_events-holding s v ps (omega arith) cut) in
      (
        q,
        subst
            (λ w.
              Takes ((message_begin, p) ∷ (status_reports pieces ++ rest)) s
                (with_parser (holding s (represent w) false) q))
            (response-headers code texts ps)
            (Takes-append ((message_begin, p) ∷ []) (status_reports pieces ++ rest) s _ _ begun (
              Takes-append (status_reports pieces) rest _ (with_parser u r) (with_parser t q)
                (status_pieces code pieces p fit codes) fields)),
      )

  told_line :
      (line : FirstLine) (ps : List FieldPieces) (reports : List (Report P))
      → IsFitLine line
      → length ps < u32
      → All IsCut ps
      → s.in_field ≡ false
      → IsToldHead line ps reports
      → (q : P) × Takes reports s (with_parser (holding s (represent (bare_view line ps)) false) q)
  told_line line ps reports fit few cut closed (request_told {method} {f} {fs} same) = (
    last_parser s.parser reports,
    run_events-Takes reports s.parser s
        (holding s (represent (bare_view (of_request method f fs) ps)) false)
        (subst (All IsQuiet) (sym same) (head_events-IsQuiet f fs ps))
        (ap (λ es. run_events es s) same
          ∙ head_events-holding s method f fs ps closed fit.1 few cut),
  )
  told_line line ps reports fit few cut closed
        (response_told {code} p pieces rest texts codes same all) =
      let (q, told) =
        told_response code p pieces rest ps (subst ArePieces (sym texts) fit) few cut closed codes
          same in
      (
        q,
        subst (λ rs. Takes rs s (with_parser (holding s (represent (bare_view line ps)) false) q))
            (sym all)
            (subst
              (λ ts.
                Takes ((message_begin, p) ∷ (status_reports pieces ++ rest)) s (
                  with_parser (holding s (represent (bare_view (of_response code ts) ps)) false) q))
              texts told),
      )

  -- The pieces of a head make up its message, but for the method of a request.
  pub told_head :
      (m : Sent) (reports : List (Report P))
      → IsFit m
      → s.in_field ≡ false
      → IsToldHead m.first m.fields reports
      → (q : P) × Takes reports s
          (with_parser (holding s (represent (bare_view m.first m.fields)) false) q)
  told_head m reports fit closed told =
      told_line m.first m.fields reports fit.line (omega (arith, fit.few)) fit.cut closed told
