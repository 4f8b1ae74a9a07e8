-- ===== src/Session/Messages/Views.antt =====
-- The message that a request's or a response's pieces say is free of NUL (http-parser/src/parser.c).
use http_library.Prelude.{ℕ, ◌<◌, ◌≡◌, arith, All, All-append, length, List, [], ◌∷◌}
use http_library.Message.{u32}
use http_library.Message.View.{IsCleanView}
use http_library.Session.Fields.{IsFragment-IsText, join}
use http_library.Session.Assembly.{FieldPieces, IsCut}
use http_library.Session.Received.{
  request_of-IsCleanView, headers-IsClean, length-headers, join-IsText,
}
use http_library.Session.Messages.{
  ArePieces, IsFitLine, response_of, FirstLine, of_request, of_response, Sent, IsFit, view_of,
}

response_of-IsCleanView :
    (code : ℕ) (pieces : List (List ℕ)) (ps : List FieldPieces)
    → ArePieces pieces
    → All IsCut ps
    → length ps < u32
    → IsCleanView (response_of code pieces ps)
response_of-IsCleanView code [] ps texts cut few = record {
  method = tt;
  url = tt;
  status = tt;
  headers = headers-IsClean ps cut;
  few = rw (length-headers ps) few;
}
response_of-IsCleanView code (f ∷ fs) ps texts cut few = record {
  method = tt;
  url = tt;
  status = All-append _ f (join fs) (IsFragment-IsText f texts.0) (join-IsText fs texts.1);
  headers = headers-IsClean ps cut;
  few = rw (length-headers ps) few;
}

line-IsCleanView :
    (line : FirstLine) (ps : List FieldPieces)
    → IsFitLine line
    → All IsCut ps
    → length ps < u32
    → IsCleanView (view_of line ps)
line-IsCleanView (of_request method f fs) ps fit cut few =
    request_of-IsCleanView method f fs ps fit.0 fit.1 cut few
line-IsCleanView (of_response code pieces) ps fit cut few =
    response_of-IsCleanView code pieces ps fit cut few

pub view_of-IsCleanView : (m : Sent) → IsFit m → IsCleanView (view_of m.first m.fields)
view_of-IsCleanView m fit =
    line-IsCleanView m.first m.fields fit.line fit.cut (omega (arith, fit.few))

pub length-view_of :
    (line : FirstLine) (ps : List FieldPieces) → length (view_of line ps).headers ≡ length ps
length-view_of (of_request method f fs) ps = length-headers ps
length-view_of (of_response code []) ps = length-headers ps
length-view_of (of_response code (f ∷ fs)) ps = length-headers ps
