-- ===== src/Session/Messages/Delivered.antt =====
-- A whole message, from its first callback to its last (http-parser/src/parser.c).
use mathlib.Core.Path.{subst}
use http_library.Prelude.{
  ℕ, ◌+◌, ◌<◌, ◌≤◌, ◌++◌, map, length, All, arith, ◌≡◌, refl, sym, ◌∙◌, ap, Bool, true, false,
  Option, none, some, List, [], ◌∷◌,
}
use http_library.Memory.{ok}
use http_library.Message.{HttpMessage, u32}
use http_library.Message.View.{IsCleanView, MessageView, represent, with_headers}
use http_library.HttpParser.{headers_complete, message_complete, HttpParser}
use http_library.Zlib.{Zlib}
use http_library.Session.{Callbacks, Session, with_context}
use http_library.Session.Handlers.{
  on_event, received, http_parser_on_headers_complete, headers_complete_of,
}
use http_library.Session.Input.{with_parser}
use http_library.Session.Fields.{holding, run_events}
use http_library.Session.Assembly.{FieldPieces, IsCut, header_of, all_events, all_events-holding}
use http_library.Session.Received.{request_of, headers_complete-received}
use http_library.Session.Lifecycle.{
  after_message, finished_world, on_message_complete-after_message,
}
use http_library.Session.Scripts.{
  Report, events_of, last_parser, IsQuiet, Takes, taken, takes, Takes-append, run_events-Takes,
}
use http_library.Session.Messages.{
  Side, request_side, response_side, side_of, type_for, FirstLine, of_request, of_response, Sent,
  IsFit, view_of, Telling, reports_of, body_reports, content_of, IsNamed, IsToldBy, IsPlainUser,
  received_of, IsBetween, told_body, told_message,
}
use http_library.Session.Messages.Views.{view_of-IsCleanView, length-view_of}
use http_library.Session.Messages.Heads.{bare_view, told_head, all_events-IsQuiet}
use http_library.Session.Messages.Bodies.{has_begun, begun_pieces, told_parts}

finished-told_body :
    {World : Type 0} (side : Side) (c : Callbacks World) (id : ℕ) (pieces : List (List ℕ))
    (w : World)
    → finished_world c
        (type_for side)
        (has_begun false pieces)
        id
        (begun_pieces side c id false pieces w)
      ≡ told_body side c id pieces w
finished-told_body request_side c id [] w = refl
finished-told_body request_side c id (piece ∷ pieces) w = refl
finished-told_body response_side c id [] w = refl
finished-told_body response_side c id (piece ∷ pieces) w = refl

module _ {World : Type 0} (c : Callbacks World) (id : ℕ) (Good : World → Type 0)
    (user : IsPlainUser c id Good) where
  end-Good :
      (side : Side) (b : Bool) (w : World) → Good w → Good (finished_world c (type_for side) b id w)
  end-Good request_side true w good = user.good_finished request_side w good
  end-Good request_side false w good = good
  end-Good response_side true w good = user.good_finished response_side w good
  end-Good response_side false w good = good

module _ {P Z World : Type 0} ⦃http : HttpParser P⦄ ⦃zlib : Zlib Z⦄ (s : Session P Z World) where
  -- The end of a head calls the user's callback of its side, with the whole message.
  head_done :
      (line : FirstLine) (ps : List FieldPieces)
      → http.parser_type s.parser ≡ type_for (side_of line)
      → IsNamed line s.parser
      → let m = represent (view_of line ps) in
        on_event headers_complete (holding s (represent (bare_view line ps)) false)
        ≡ ok (
            received
              (holding s m false)
              (received_of (side_of line) s.callbacks s.id (some m) s.world))
  unfolding on_event http_parser_on_headers_complete headers_complete_of
  head_done (of_request method f fs) ps reads named =
      headers_complete-received s (request_of method f fs ps) reads
      ∙ ap
          (λ name.
            let m = represent (record (request_of method f fs ps) { method = some name }) in
            ok (
              received (holding s m false)
                (s.callbacks.http_request_received s.id (some m) s.world)))
          named
  head_done (of_response code []) ps reads named =
      ap
        (λ kind.
          headers_complete_of kind
            (holding s (represent (bare_view (of_response code []) ps)) false))
        reads
  head_done (of_response code (f ∷ fs)) ps reads named =
      ap
        (λ kind.
          headers_complete_of kind
            (holding s (represent (bare_view (of_response code (f ∷ fs)) ps)) false))
        reads

module _ {P Z World : Type 0} ⦃http : HttpParser P⦄ ⦃zlib : Zlib Z⦄ (c : Callbacks World) (id : ℕ)
    (Good : World → Type 0) (user : IsPlainUser c id Good) where
  end_world :
      (side : Side) (b : Bool) (m : Option HttpMessage) (p : P) (s : Session P Z World)
      → IsBetween c id Good b m s
      → http.parser_type p ≡ type_for side
      → (after_message (with_parser s p)).world ≡ finished_world c (type_for side) b id s.world
  end_world side b m p s x reads = rw (reads, x.own, x.having, x.same) refl

  -- The end of a message.
  told_end :
      (side : Side) (b : Bool) (v : MessageView) (p : P) (s : Session P Z World)
      → IsBetween c id Good b (some (represent v)) s
      → http.parser_type p ≡ type_for side
      → (t : Session P Z World) × Takes ((message_complete, p) ∷ []) s t
        × IsBetween c id Good false none t
        × (t.world ≡ finished_world c (type_for side) b id s.world)
  told_end side b v p s x reads =
      let u = with_parser s p in
      (
        after_message u,
        takes (on_message_complete-after_message u v x.here) refl taken,
        record {
          own = x.own;
          same = x.same;
          here = refl;
          closed = x.closed;
          started = refl;
          having = refl;
          plain = refl;
          no_buffer = refl;
          good =
              subst Good (sym (end_world side b _ p s x reads))
                (end-Good c id Good user side b s.world x.good);
        },
        end_world side b _ p s x reads,
      )

  -- The end of a head, where the user's callback answers 0.
  told_head_end :
      (line : FirstLine) (ps : List FieldPieces) (p : P) (s : Session P Z World)
      → IsBetween c id Good false none s
      → http.parser_type p ≡ type_for (side_of line)
      → IsNamed line p
      → IsCleanView (view_of line ps)
      → (u : MessageView) × (t : Session P Z World) × Takes
          ((headers_complete, p) ∷ [])
          (holding s (represent (bare_view line ps)) false)
          t
        × IsBetween c id Good false (some (represent u)) t
        × (length u.headers ≤ length ps)
        × (t.world
            ≡ (received_of (side_of line) c id (some (represent (view_of line ps))) s.world).2)
  told_head_end line ps p s x reads named clean =
      let side = side_of line in
      let m = represent (view_of line ps) in
      let headed = holding (with_parser s p) m false in
      let answer = received_of side c id (some m) s.world in
      let asked = received_of side s.callbacks s.id (some m) s.world in
      let same : asked ≡ answer = λ i. received_of side (x.own i) (x.same i) (some m) s.world in
      let t = (received headed answer).1 in
      let (u, kept, few) = user.keeps side (view_of line ps) s.world clean x.good in
      (
        u,
        t,
        takes
            (head_done (with_parser s p) line ps reads named
              ∙ ap (λ a. ok (received headed a)) same
              ∙ ap (λ n. ok (n, t)) (user.answer side (view_of line ps) s.world clean x.good))
            refl taken,
        record {
          own = x.own;
          same = x.same;
          here = kept;
          closed = refl;
          started = x.started;
          having = x.having;
          plain = x.plain;
          no_buffer = x.no_buffer;
          good = user.good_received side (view_of line ps) s.world clean x.good;
        },
        omega (arith, few, length-view_of line ps),
        refl,
      )

  -- The header fields behind a body, which are added to those that the user left.
  told_trailer :
      (ps : List FieldPieces) (reports : List (Report P)) (b : Bool) (v : MessageView)
      (s : Session P Z World)
      → length v.headers + length ps < u32
      → All IsCut ps
      → events_of reports ≡ all_events ps
      → IsBetween c id Good b (some (represent v)) s
      → (u : MessageView) × (t : Session P Z World) × Takes reports s t
        × IsBetween c id Good b (some (represent u)) t
        × (t.world ≡ s.world)
  told_trailer ps reports b v s room cut same x =
      let u = with_headers v (v.headers ++ map header_of ps) in
      let q = last_parser s.parser reports in
      let t = with_parser (holding s (represent u) false) q in
      let here : s ≡ holding s (represent v) false =
        λ i. with_context s (record (s.context) { in_field = x.closed i; message = x.here i }) in
      (
        u,
        t,
        run_events-Takes reports s.parser s (holding s (represent u) false)
            (subst (All IsQuiet) (sym same) (all_events-IsQuiet ps))
            (ap (λ es. run_events es s) same
              ∙ ap (run_events (all_events ps)) here
              ∙ all_events-holding s v ps room cut),
        record {
          own = x.own;
          same = x.same;
          here = refl;
          closed = refl;
          started = x.started;
          having = x.having;
          plain = x.plain;
          no_buffer = x.no_buffer;
          good = x.good;
        },
        refl,
      )

  -- A whole message.
  pub told_whole :
      (m : Sent) (telling : Telling P) (s : Session P Z World)
      → IsFit m
      → IsToldBy m telling
      → IsBetween c id Good false none s
      → (t : Session P Z World) × Takes (reports_of telling) s t
        × IsBetween c id Good false none t
        × (t.world ≡ told_message c id m s.world)
  told_whole m telling s fit told x =
      let side = side_of m.first in
      let (p, begun_taken) = told_head s m telling.head fit x.closed told.head in
      let (u, headed, head_taken, y, few, heard) =
        told_head_end m.first m.fields telling.at_head_end (with_parser s p)
          (record {
            own = x.own;
            same = x.same;
            here = x.here;
            closed = x.closed;
            started = x.started;
            having = x.having;
            plain = x.plain;
            no_buffer = x.no_buffer;
            good = x.good;
          })
          told.reads told.named (view_of-IsCleanView m fit) in
      let seen = (received_of side c id (some (represent (view_of m.first m.fields))) s.world).2 in
      let (bodied, body_taken, z, w) =
        told_parts side c id Good user (some (represent u)) false telling.parts headed y
          told.reads_parts in
      let begun = has_begun false (content_of telling.parts) in
      let (v, trailed, trailer_taken, z2, still) =
        told_trailer m.trailer telling.trailer begun u bodied (omega (arith, few, fit.few))
          fit.trailer_cut told.trailer z in
      let (t, end_taken, done, last) =
        told_end side begun v telling.at_end trailed z2 told.reads_end in
      (
        t,
        Takes-append telling.head _ s _ t begun_taken (
            Takes-append ((headers_complete, telling.at_head_end) ∷ []) _ _ headed t head_taken (
              Takes-append (body_reports telling.parts) _ headed bodied t body_taken
                (Takes-append telling.trailer _ bodied trailed t trailer_taken end_taken))),
        done,
        last
            ∙ ap (finished_world c (type_for side) begun id)
                (still ∙ w ∙ ap (begun_pieces side c id false (content_of telling.parts)) heard)
            ∙ finished-told_body side c id (content_of telling.parts) seen
            ∙ ap (λ pieces. told_body side c id pieces seen) told.content,
      )
