-- ===== src/Session/Safety/Heads.antt =====
-- The callbacks of a head meet no fault (http-parser/src/parser.c).
use http_library.Prelude.{
  ℕ, suc, ◌<◌, ◌≤◌, ◌≡◌, refl, ◌∙◌, ap, Bool, true, false, Option, none, some, List, [], ◌∷◌, ◌++◌,
  arith, length, length-append, All-append,
}
use http_library.Memory.{Run, ok, null}
use http_library.Memory.Strings.{IsText, c_string}
use http_library.Message.{HttpMessage, u32, http_message_create}
use http_library.Message.View.{MessageView, IsCleanView, with_headers}
use http_library.Message.Add.{with_last-represent}
use http_library.HttpParser.{HttpParser}
use http_library.Zlib.{Zlib}
use http_library.Session.{Callbacks, Session, with_context}
use http_library.Session.Handlers.{
  with_message, http_parser_on_message_begin, http_parser_on_header_field,
  http_parser_on_header_value,
}
use http_library.Session.Fields.{
  IsFragment, IsFragment-IsText, holding, building, name_start, name_more, value_start, value_more,
  value_cleared,
}
use http_library.Session.Protocol.{
  Phase, idle, first_line, in_name, in_value, IsClosed, line_closed, value_closed, body_closed,
}
use http_library.Session.Safety.{Shape, IsSound, Steps, Stands, Values}

abbrev blank_view : MessageView
blank_view = record { method = none; url = none; status = none; status_code = 0; headers = [] }

-- The last header field, with its value, counts among those of the message.
Values-Stands :
    (n : ℕ) (v : MessageView) (name value : List ℕ) (m : Option HttpMessage) (b : Bool)
    → Values n v name value m b
    → Stands n (with_headers v (v.headers ++ ((name, value) ∷ []))) m b
Values-Stands n v name value m b x = record {
  here = x.here ∙ ap some (with_last-represent v (name, value));
  clean = record {
    method = x.clean.method;
    url = x.clean.url;
    status = x.clean.status;
    headers =
        All-append _ v.headers ((name, value) ∷ []) x.clean.headers ((x.text, x.value_text), tt);
    few = omega (arith, length-append v.headers ((name, value) ∷ []), x.room);
  };
  within = omega (arith, length-append v.headers ((name, value) ∷ []), x.within);
  closed = x.closed;
}

module _ {P Z World : Type 0} (c : Callbacks World) (knows : MessageView → World → Type 0)
    (s : Session P Z World) where
  pub held : (m : HttpMessage) (b : Bool) → s.message ≡ some m → s.in_field ≡ b → s ≡ holding s m b
  held m b here flag =
      λ i. with_context s (record (s.context) { in_field = flag i; message = here i })

  pub closed-Stands :
      (n : ℕ) (phase : Phase)
      → IsClosed n phase
      → IsSound c knows phase s
      → (v : MessageView) × Stands n v s.message s.in_field
  closed-Stands n phase line_closed sound = sound.shape
  closed-Stands n phase value_closed sound =
      let (v, name, value, x) = sound.shape in
      (with_headers v (v.headers ++ ((name, value) ∷ [])), Values-Stands n v name value _ _ x)
  closed-Stands n phase body_closed sound = (sound.shape.0, sound.shape.1)

  pub holding-Steps :
      (phase later : Phase) (m : HttpMessage) (b : Bool) (r : Run (ℕ × Session P Z World))
      → IsSound c knows phase s
      → r ≡ ok (0, holding s m b)
      → Shape knows later (some m) b s.world
      → Steps c knows later s.parser r
  holding-Steps phase later m b r sound e shape = record {
    answer = 0;
    after = holding s m b;
    returns = e;
    sound = record { shape = shape; plain = sound.plain; own = sound.own };
    parser = refl;
  }

  pub begin-Steps :
      IsSound c knows idle s
      → Steps c knows (first_line 0) s.parser (http_parser_on_message_begin s)
  unfolding http_parser_on_message_begin
  begin-Steps sound = record {
    answer = 0;
    after = with_message s http_message_create;
    returns = refl;
    sound = record {
      shape = (
        blank_view,
        record {
          here = refl;
          clean = record { method = tt; url = tt; status = tt; headers = tt; few = omega arith };
          within = omega arith;
          closed = sound.shape;
        },
      );
      plain = sound.plain;
      own = sound.own;
    };
    parser = refl;
  }

module _ {P Z World : Type 0} ⦃http : HttpParser P⦄ ⦃zlib : Zlib Z⦄ (c : Callbacks World)
    (knows : MessageView → World → Type 0) (s : Session P Z World) where
  pub starts_name-Steps :
      (phase : Phase) (n : ℕ) (bytes : List ℕ)
      → IsClosed n phase
      → suc n < u32
      → IsFragment bytes
      → IsSound c knows phase s
      → Steps c knows (in_name (suc n)) s.parser (http_parser_on_header_field (some bytes) s)
  starts_name-Steps phase n bytes closed few f sound =
      let (v, x) = closed-Stands c knows s n phase closed sound in
      let room : suc (length v.headers) < u32 = omega (arith, few, x.within) in
      holding-Steps c knows s phase (in_name (suc n)) (building v (c_string bytes) null) true _
        sound
        (ap (http_parser_on_header_field (some bytes)) (held c knows s _ _ x.here x.closed)
          ∙ name_start s v room bytes f)
        (
          v,
          bytes,
          record {
            here = refl;
            clean = x.clean;
            text = IsFragment-IsText bytes f;
            room = room;
            within = omega (arith, x.within);
            unfinished = refl;
          },
        )

  pub reads_name-Steps :
      (n : ℕ) (bytes : List ℕ)
      → IsText bytes
      → IsSound c knows (in_name n) s
      → Steps c knows (in_name n) s.parser (http_parser_on_header_field (some bytes) s)
  reads_name-Steps n bytes f sound =
      let (v, name, x) = sound.shape in
      holding-Steps c knows s (in_name n) (in_name n) (building v (c_string (name ++ bytes)) null)
        true _ sound
        (ap (http_parser_on_header_field (some bytes)) (held c knows s _ _ x.here x.unfinished)
          ∙ name_more s v x.room name bytes x.text f)
        (
          v,
          name ++ bytes,
          record {
            here = refl;
            clean = x.clean;
            text = All-append _ name bytes x.text f;
            room = x.room;
            within = x.within;
            unfinished = refl;
          },
        )

  -- The value that was there, and what the piece makes of it.
  valued-Steps :
      (n : ℕ) (bytes : List ℕ) (phase : Phase) (v : MessageView) (name value : List ℕ)
      → IsCleanView v
      → IsText name
      → IsText value
      → suc (length v.headers) < u32
      → suc (length v.headers) ≤ n
      → IsSound c knows phase s
      → http_parser_on_header_value (some bytes) s
        ≡ ok (0, holding s (building v (c_string name) (c_string value)) false)
      → Steps c knows (in_value n) s.parser (http_parser_on_header_value (some bytes) s)
  valued-Steps n bytes phase v name value clean text value_text room within sound e =
      holding-Steps c knows s phase (in_value n) (building v (c_string name) (c_string value)) false
        _ sound e
        (
          v,
          name,
          value,
          record {
            here = refl;
            clean = clean;
            text = text;
            value_text = value_text;
            room = room;
            within = within;
            closed = refl;
          },
        )

  pub starts_value-Steps :
      (n : ℕ) (bytes : List ℕ)
      → IsText bytes
      → IsSound c knows (in_name n) s
      → Steps c knows (in_value n) s.parser (http_parser_on_header_value (some bytes) s)
  starts_value-Steps n [] t sound =
      let (v, name, x) = sound.shape in
      valued-Steps n [] (in_name n) v name [] x.clean x.text tt x.room x.within sound (
        ap (http_parser_on_header_value (some [])) (held c knows s _ _ x.here x.unfinished)
        ∙ value_cleared s v x.room true name null)
  starts_value-Steps n (b ∷ bytes) t sound =
      let (v, name, x) = sound.shape in
      valued-Steps n (b ∷ bytes) (in_name n) v name (b ∷ bytes) x.clean x.text t x.room x.within
        sound
        (ap (http_parser_on_header_value (some (b ∷ bytes)))
            (held c knows s _ _ x.here x.unfinished)
          ∙ value_start s v x.room true name (b ∷ bytes) t)

  pub reads_value-Steps :
      (n : ℕ) (bytes : List ℕ)
      → IsText bytes
      → IsSound c knows (in_value n) s
      → Steps c knows (in_value n) s.parser (http_parser_on_header_value (some bytes) s)
  reads_value-Steps n [] t sound =
      let (v, name, value, x) = sound.shape in
      valued-Steps n [] (in_value n) v name [] x.clean x.text tt x.room x.within sound (
        ap (http_parser_on_header_value (some [])) (held c knows s _ _ x.here x.closed)
        ∙ value_cleared s v x.room false name (c_string value))
  reads_value-Steps n (b ∷ bytes) t sound =
      let (v, name, value, x) = sound.shape in
      valued-Steps n (b ∷ bytes) (in_value n) v name (value ++ (b ∷ bytes)) x.clean x.text
        (All-append _ value (b ∷ bytes) x.value_text t) x.room x.within sound
        (ap (http_parser_on_header_value (some (b ∷ bytes))) (held c knows s _ _ x.here x.closed)
          ∙ value_more s v x.room false name value (b ∷ bytes) x.value_text t)
