-- ===== src/Session/Messages/Bodies.antt =====
-- The pieces of a body, reported by different states of the parser
-- (http-parser/src/parser.c).
use mathlib.Core.Path.{subst}
use http_library.Prelude.{
  ℕ, ◌≡◌, refl, sym, ◌∙◌, ap, Bool, true, false, Option, some, List, [], ◌∷◌, All, arith,
}
use http_library.Memory.{ok}
use http_library.Message.{HttpMessage}
use http_library.HttpParser.{ParserType, body, HttpParser}
use http_library.Zlib.{Zlib}
use http_library.Session.{Callbacks, Session}
use http_library.Session.Handlers.{
  http_parser_on_chunk_header, http_parser_on_chunk_complete, on_event,
}
use http_library.Session.Input.{with_parser}
use http_library.Session.Body.{
  hooks_of, asks_decoding, begun, handed_over, with_body, on_body-handed_over,
}
use http_library.Session.Scripts.{Takes, taken, takes}
use http_library.Session.Messages.{
  Side, request_side, response_side, type_for, hooks_for, IsBetween, IsPlainUser, body_reports,
  content_of, told_pieces, Part, bytes_part, chunk_start, chunk_end,
}

-- The world when a piece comes, behind the start of the body.
abbrev opened : {World : Type 0} → Side → Callbacks World → ℕ → Bool → World → World
opened side c id true w = w
opened side c id false w = ((hooks_for side c).started id w).1

-- Whether the body has begun behind the pieces, if it had before where `b` says so.
abbrev pub has_begun : Bool → List (List ℕ) → Bool
has_begun b [] = b
has_begun b (piece ∷ pieces) = true

-- What the pieces make of the world, with the start of the body if it has not begun.
abbrev pub begun_pieces :
    {World : Type 0} → Side → Callbacks World → ℕ → Bool → List (List ℕ) → World → World
begun_pieces side c id b [] w = w
begun_pieces side c id true pieces w = told_pieces side c id pieces w
begun_pieces side c id false pieces w =
    told_pieces side c id pieces ((hooks_for side c).started id w).1

begun_pieces-opened :
    {World : Type 0} (side : Side) (c : Callbacks World) (id : ℕ) (b : Bool) (bytes : List ℕ)
    (pieces : List (List ℕ)) (w : World)
    → begun_pieces side c id true pieces
        ((hooks_for side c).body_data id bytes (opened side c id b w))
      ≡ begun_pieces side c id b (bytes ∷ pieces) w
begun_pieces-opened side c id true bytes [] w = refl
begun_pieces-opened side c id false bytes [] w = refl
begun_pieces-opened side c id true bytes (piece ∷ pieces) w = refl
begun_pieces-opened side c id false bytes (piece ∷ pieces) w = refl

has_begun-true : (pieces : List (List ℕ)) → has_begun true pieces ≡ true
has_begun-true [] = refl
has_begun-true (piece ∷ pieces) = refl

known_hooks :
    {World : Type 0} {kind : ParserType} {own c : Callbacks World} (side : Side)
    → kind ≡ type_for side
    → own ≡ c
    → hooks_of kind own ≡ some (hooks_for side c)
known_hooks request_side reads same = rw (reads, same) refl
known_hooks response_side reads same = rw (reads, same) refl

module _ {World : Type 0} (side : Side) (c : Callbacks World) (id : ℕ) (Good : World → Type 0)
    (user : IsPlainUser c id Good) where
  opened-Good : (b : Bool) (w : World) → Good w → Good (opened side c id b w)
  opened-Good true w good = good
  opened-Good false w good = user.good_started side w good

module _ {P Z World : Type 0} ⦃http : HttpParser P⦄ ⦃zlib : Zlib Z⦄ (side : Side)
    (c : Callbacks World) (id : ℕ) (Good : World → Type 0) (user : IsPlainUser c id Good)
    (m : Option HttpMessage) where
  record IsToldPiece (b : Bool) (bytes : List ℕ) (q : P) (s t : Session P Z World) : Type 0 where
    done : on_event (body bytes) (with_parser s q) ≡ ok (0, t)
    left : t.parser ≡ q
    between : IsBetween c id Good true m t
    world : t.world ≡ (hooks_for side c).body_data id bytes (opened side c id b s.world)

  told_world :
      (b : Bool) (bytes : List ℕ) (s : Session P Z World)
      → s.callbacks ≡ c
      → s.id ≡ id
      → s.body_started ≡ b
      → (handed_over (hooks_for side c) bytes (begun (hooks_for side c) (with_body s))).world
        ≡ (hooks_for side c).body_data id bytes (opened side c id b s.world)
  told_world true bytes s own same started = ground arith
  told_world false bytes s own same started = ground arith

  told_piece :
      (b : Bool) (bytes : List ℕ) (q : P) (s : Session P Z World)
      → IsBetween c id Good b m s
      → http.parser_type q ≡ type_for side
      → (t : Session P Z World) × IsToldPiece b bytes q s t
  told_piece b bytes q s x reads =
      let hooks = hooks_for side c in
      let u = with_parser s q in
      let known : hooks_of (http.parser_type q) s.callbacks ≡ some hooks =
        known_hooks side reads x.own in
      let quiet : asks_decoding hooks u ≡ false = ground (arith, user.plain side u.world x.good) in
      (
        handed_over hooks bytes (begun hooks (with_body u)),
        record {
          done = on_body-handed_over u bytes hooks known x.plain quiet;
          left = ground arith;
          between = record {
            own = ground arith;
            same = ground arith;
            here = ground arith;
            closed = ground arith;
            started = ground arith;
            having = ground arith;
            plain = ground arith;
            no_buffer = ground arith;
            good = subst Good (sym (told_world b bytes u x.own x.same x.started)) (
                user.good_data side bytes (opened side c id b s.world)
                  (opened-Good side c id Good user b s.world x.good));
          };
          world = told_world b bytes u x.own x.same x.started;
        },
      )

  -- Another state of the parser.
  pub with_parser-IsBetween :
      (b : Bool) (q : P) (s : Session P Z World)
      → IsBetween c id Good b m s
      → IsBetween c id Good b m (with_parser s q)
  with_parser-IsBetween b q s x = record {
    own = x.own;
    same = x.same;
    here = x.here;
    closed = x.closed;
    started = x.started;
    having = x.having;
    plain = x.plain;
    no_buffer = x.no_buffer;
    good = x.good;
  }

  -- The parts of a body, in chunks or not.
  pub told_parts :
      (b : Bool) (parts : List (Part × P)) (s : Session P Z World)
      → IsBetween c id Good b m s
      → All (λ (x : Part × P). http.parser_type x.1 ≡ type_for side) parts
      → (t : Session P Z World) × Takes (body_reports parts) s t
        × IsBetween c id Good (has_begun b (content_of parts)) m t
        × (t.world ≡ begun_pieces side c id b (content_of parts) s.world)
  unfolding on_event http_parser_on_chunk_header http_parser_on_chunk_complete
  told_parts b [] s x reads = (s, taken, x, refl)
  told_parts b ((bytes_part bytes, q) ∷ parts) s x reads =
      let (t, y) = told_piece b bytes q s x reads.0 in
      let (u, takes_rest, z, w) = told_parts true parts t y.between reads.1 in
      (
        u,
        takes y.done y.left takes_rest,
        subst (λ d. IsBetween c id Good d m u) (has_begun-true (content_of parts)) z,
        w
            ∙ ap (begun_pieces side c id true (content_of parts)) y.world
            ∙ begun_pieces-opened side c id b bytes (content_of parts) s.world,
      )
  told_parts b ((chunk_start, q) ∷ parts) s x reads =
      let t = with_parser s q in
      let (u, takes_rest, z, w) = told_parts b parts t (with_parser-IsBetween b q s x) reads.1 in
      (u, takes refl refl takes_rest, z, w)
  told_parts b ((chunk_end, q) ∷ parts) s x reads =
      let t = with_parser s q in
      let (u, takes_rest, z, w) = told_parts b parts t (with_parser-IsBetween b q s x) reads.1 in
      (u, takes refl refl takes_rest, z, w)
