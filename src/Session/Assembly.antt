-- ===== src/Session/Assembly.antt =====
-- Header fields that arrive in pieces: the message does not depend on where they were cut.
use http_library.Prelude.{
  ℕ, suc, ◌+◌, ◌<◌, ◌≡◌, true, false, List, [], ◌∷◌, ◌++◌, map, append_assoc, append-nil, arith,
  length, All, length-append,
}
use http_library.Memory.{ok, null}
use http_library.Memory.Strings.{IsText, c_string}
use http_library.Message.{u32}
use http_library.Message.View.{Header, MessageView, represent, with_headers}
use http_library.Message.Add.{with_last-represent}
use http_library.HttpParser.{Event, header_field, header_value, HttpParser}
use http_library.Zlib.{Zlib}
use http_library.Session.{Session}
use http_library.Session.Handlers.{on_event}
use http_library.Session.Fields.{
  IsFragment, IsFragment-IsText, join, kept_value, holding, building, run_events, run_events-append,
  name_start, name_rest, value_start, value_rest, value_cleared,
}

-- One header field as the parser hands it over: the name in one piece or more, and the value in
-- some pieces, or in an empty one where there is none.
pub record FieldPieces : Type 0 where
  pub name_first : List ℕ
  pub name_pieces : List (List ℕ)
  pub value_pieces : List (List ℕ)

pub record IsCut (p : FieldPieces) : Type 0 where
  pub first : IsFragment p.name_first
  pub name : All IsText p.name_pieces
  pub value : All IsText p.value_pieces

abbrev pub value_events : List (List ℕ) → List Event
value_events [] = header_value [] ∷ []
value_events (g ∷ gs) = header_value g ∷ map header_value gs

abbrev pub field_events : FieldPieces → List Event
field_events p =
    header_field p.name_first ∷ (map header_field p.name_pieces ++ value_events p.value_pieces)

abbrev pub header_of : FieldPieces → Header
header_of p = (p.name_first ++ join p.name_pieces, kept_value [] p.value_pieces)

abbrev pub all_events : List FieldPieces → List Event
all_events [] = []
all_events (p ∷ ps) = field_events p ++ all_events ps

module _ {P Z World : Type 0} ⦃http : HttpParser P⦄ ⦃zlib : Zlib Z⦄ (s : Session P Z World) where
  value_events-holding :
      (v : MessageView) (name : List ℕ) (gs : List (List ℕ))
      → suc (length v.headers) < u32
      → All IsText gs
      → run_events (value_events gs) (holding s (building v (c_string name) null) true)
        ≡ ok (
            holding s
              (represent (with_headers v (v.headers ++ ((name, kept_value [] gs) ∷ []))))
              false)
  unfolding run_events on_event
  value_events-holding v name [] room h =
      rw (value_cleared s v room true name null) (rw (with_last-represent v (name, [])))
  value_events-holding v name ([] ∷ gs) room h =
      rw (value_cleared s v room true name null, value_rest s v room name [] gs tt h.1)
        (rw (with_last-represent v (name, kept_value [] gs)))
  value_events-holding v name ((b ∷ g) ∷ gs) room h =
      rw (value_start s v room true name (b ∷ g) h.0, value_rest s v room name (b ∷ g) gs h.0 h.1)
        (rw (with_last-represent v (name, kept_value (b ∷ g) gs)))

  field_events-holding :
      (v : MessageView) (p : FieldPieces)
      → suc (length v.headers) < u32
      → IsCut p
      → run_events (field_events p) (holding s (represent v) false)
        ≡ ok (holding s (represent (with_headers v (v.headers ++ (header_of p ∷ [])))) false)
  unfolding run_events on_event
  field_events-holding v p room cut =
      rw
        (
          name_start s v room p.name_first cut.first,
          run_events-append (map header_field p.name_pieces) (value_events p.value_pieces),
          name_rest s v room p.name_first p.name_pieces (IsFragment-IsText _ cut.first) cut.name,
        )
        (value_events-holding v _ p.value_pieces room cut.value)

  -- Where the count of the fields stays below 2^32, and every piece is free of NUL and the first of each
  -- name is not empty: the header fields of the message are those that the pieces make up, in order, behind
  -- those that were there. A name is its pieces together. A value is its pieces behind the last empty
  -- one together, since an empty piece takes the place of all that the value held.
  pub all_events-holding :
      (v : MessageView) (ps : List FieldPieces)
      → length v.headers + length ps < u32
      → All IsCut ps
      → run_events (all_events ps) (holding s (represent v) false)
        ≡ ok (holding s (represent (with_headers v (v.headers ++ map header_of ps))) false)
  unfolding run_events
  all_events-holding v [] room cut = rw (append-nil v.headers)
  all_events-holding v (p ∷ ps) room cut =
      let next =
        all_events-holding (with_headers v (v.headers ++ (header_of p ∷ []))) ps
          (omega (arith, length-append v.headers (header_of p ∷ []))) cut.1 in
      rw
        (
          run_events-append (field_events p) (all_events ps),
          field_events-holding v p (omega arith) cut.0,
        )
        (rw (append_assoc v.headers (header_of p ∷ []) (map header_of ps)) at next)
