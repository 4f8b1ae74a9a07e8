-- ===== src/Session/Safety/Lines.antt =====
-- The callbacks for the first line, the end of a head, a body and the end of a message meet no fault
-- (http-parser/src/parser.c).
use http_library.Prelude.{
  ℕ, ◌+◌, ◌≤◌, ◌≡◌, ◌≢◌, refl, ◌∙◌, ap, true, false, Option, none, some, List, [], ◌∷◌, ◌++◌, arith,
  length, All-append, inl, inr, Bool-cases,
}
use http_library.Memory.{Run, ok, append_chars, set_chars, realloc}
use http_library.Memory.Strings.{IsText, c_string, append_chars-c_string}
use http_library.Message.{HttpMessage}
use http_library.Message.View.{MessageView, IsCleanView, IsCleanText, c_text, represent}
use http_library.HttpParser.{
  ParserType, http_request, http_response, http_both, body, message_complete, HttpParser,
}
use http_library.Zlib.{Zlib}
use http_library.Session.{
  Callbacks, Session, with_context, parser_ok, parser_invalid_argument_error,
}
use http_library.Session.Handlers.{
  on_event, received, http_parser_on_url, http_parser_on_status, http_parser_on_headers_complete,
  http_parser_on_body, BodyHooks, request_hooks, response_hooks, headers_complete_of,
}
use http_library.Session.Fields.{holding}
use http_library.Session.Lifecycle.{after_message, on_message_complete-after_message}
use http_library.Session.Protocol.{Phase, idle, first_line, in_body, IsClosed}
use http_library.Session.Safety.{IsSound, Steps, Stands, IsGentle, Given, Starts, Receives}
use http_library.Session.Body.{
  hooks_of, asks_decoding, begun, handed_over, with_body, on_body-handed_over,
}
use http_library.Session.Safety.Heads.{held, holding-Steps, closed-Stands}

-- Bytes that are added to a text of the message.
abbrev pub joined : Option (List ℕ) → List ℕ → List ℕ
joined none bytes = bytes
joined (some text) bytes = text ++ bytes

pub append_chars-joined :
    (t : Option (List ℕ)) (bytes : List ℕ)
    → IsCleanText t
    → append_chars (c_text t) bytes ≡ ok (c_string (joined t bytes))
unfolding append_chars
append_chars-joined none bytes h = refl
append_chars-joined (some text) bytes h = append_chars-c_string text bytes h

joined-IsText :
    (t : Option (List ℕ)) (bytes : List ℕ) → IsCleanText t → IsText bytes → IsText (joined t bytes)
joined-IsText none bytes h t = t
joined-IsText (some text) bytes h t = All-append _ text bytes h t

set_chars-c_text :
    (t : Option (List ℕ)) (bytes : List ℕ) → set_chars (c_text t) bytes ≡ ok (c_string bytes)
unfolding set_chars realloc
set_chars-c_text none bytes = refl
set_chars-c_text (some text) bytes = refl

module _ {P Z World : Type 0} ⦃http : HttpParser P⦄ (c : Callbacks World)
    (knows : MessageView → World → Type 0) (s : Session P Z World) where
  pub same-Steps :
      (phase : Phase) → IsSound c knows phase s → Steps c knows phase s.parser (ok (0, s))
  same-Steps phase sound = record {
    answer = 0;
    after = s;
    returns = refl;
    sound = sound;
    parser = refl;
  }

  pub url-Steps :
      (n : ℕ) (bytes : List ℕ)
      → IsText bytes
      → IsSound c knows (first_line n) s
      → Steps c knows (first_line n) s.parser (http_parser_on_url (some bytes) s)
  unfolding http_parser_on_url
  url-Steps n [] t sound = same-Steps (first_line n) sound
  url-Steps n (b ∷ bytes) t sound =
      let (v, x) = sound.shape in
      let text = joined v.url (b ∷ bytes) in
      let u : MessageView = record v { url = some text } in
      let e : http_parser_on_url (some (b ∷ bytes)) (holding s (represent v) false)
          ≡ ok (0, holding s (represent u) false) =
        rw (append_chars-joined v.url (b ∷ bytes) x.clean.url) refl in
      holding-Steps c knows s (first_line n) (first_line n) (represent u) false _ sound
        (ap (http_parser_on_url (some (b ∷ bytes))) (held c knows s _ _ x.here x.closed) ∙ e)
        (
          u,
          record {
            here = refl;
            clean = record {
              method = x.clean.method;
              url = joined-IsText v.url (b ∷ bytes) x.clean.url t;
              status = x.clean.status;
              headers = x.clean.headers;
              few = x.clean.few;
            };
            within = x.within;
            closed = refl;
          },
        )

  pub status-Steps :
      (n : ℕ) (bytes : List ℕ)
      → IsText bytes
      → IsSound c knows (first_line n) s
      → Steps c knows (first_line n) s.parser (http_parser_on_status (some bytes) s)
  unfolding http_parser_on_status
  status-Steps n [] t sound = same-Steps (first_line n) sound
  status-Steps n (b ∷ bytes) t sound =
      let (v, x) = sound.shape in
      let text = joined v.status (b ∷ bytes) in
      let u : MessageView = record v {
        status = some text;
        status_code = http.status_code s.parser;
      } in
      let e : http_parser_on_status (some (b ∷ bytes)) (holding s (represent v) false)
          ≡ ok (0, holding s (represent u) false) =
        rw (append_chars-joined v.status (b ∷ bytes) x.clean.status) refl in
      holding-Steps c knows s (first_line n) (first_line n) (represent u) false _ sound
        (ap (http_parser_on_status (some (b ∷ bytes))) (held c knows s _ _ x.here x.closed) ∙ e)
        (
          u,
          record {
            here = refl;
            clean = record {
              method = x.clean.method;
              url = x.clean.url;
              status = joined-IsText v.status (b ∷ bytes) x.clean.status t;
              headers = x.clean.headers;
              few = x.clean.few;
            };
            within = x.within;
            closed = refl;
          },
        )

module _ {P Z World : Type 0} ⦃http : HttpParser P⦄ (c : Callbacks World)
    (knows : MessageView → World → Type 0) (extra : ℕ) (gentle : IsGentle c knows extra)
    (s : Session P Z World) where
  -- The user's callback gets the message of `v`, and leaves one of its own.
  received-Steps :
      (n : ℕ) (phase : Phase) (v : MessageView) (x : ℕ × Option HttpMessage × World)
      (r : Run (ℕ × Session P Z World))
      → length v.headers ≤ n
      → IsSound c knows phase s
      → r ≡ ok (received (holding s (represent v) false) x)
      → Given knows extra v x
      → Steps c knows (in_body (n + extra)) s.parser r
  received-Steps n phase v x r within sound e (u, here, clean, more, known) = record {
    answer = x.0;
    after = (received (holding s (represent v) false) x).1;
    returns = e;
    sound = record {
      shape = (
        u,
        record { here = here; clean = clean; within = omega (arith, more, within); closed = refl },
        known,
      );
      plain = sound.plain;
      own = sound.own;
    };
    parser = refl;
  }

  headers_complete_of-Steps :
      (kind : ParserType) (n : ℕ) (phase : Phase) (v : MessageView)
      → kind ≢ http_both
      → ((m : ℕ) → IsText (http.method_str m))
      → IsSound c knows phase s
      → Stands n v s.message s.in_field
      → Steps c knows (in_body (n + extra)) s.parser (headers_complete_of kind s)
  unfolding headers_complete_of
  headers_complete_of-Steps http_request n phase v known texts sound x =
      let method = http.method_str (http.method s.parser) in
      let u : MessageView = record v { method = some method } in
      let e : headers_complete_of http_request (holding s (represent v) false)
          ≡ ok (
              received (holding s (represent u) false)
                (s.callbacks.http_request_received s.id (some (represent u)) s.world)) =
        rw (set_chars-c_text v.method method) refl in
      let clean : IsCleanView u = record {
        method = texts (http.method s.parser);
        url = x.clean.url;
        status = x.clean.status;
        headers = x.clean.headers;
        few = x.clean.few;
      } in
      received-Steps n phase u _ _ x.within sound
        (ap (headers_complete_of http_request) (held c knows s _ _ x.here x.closed) ∙ e)
        (rw sound.own (gentle.request s.id u s.world clean))
  headers_complete_of-Steps http_response n phase v known texts sound x =
      received-Steps n phase v
        (s.callbacks.http_response_received s.id (some (represent v)) s.world) _ x.within sound
        (ap (headers_complete_of http_response) (held c knows s _ _ x.here x.closed))
        (rw sound.own (gentle.response s.id v s.world x.clean))
  headers_complete_of-Steps http_both n phase v known texts sound x = absurd (known refl)

  pub headers_complete-Steps :
      (n : ℕ) (phase : Phase)
      → IsClosed n phase
      → http.parser_type s.parser ≢ http_both
      → ((m : ℕ) → IsText (http.method_str m))
      → IsSound c knows phase s
      → Steps c knows (in_body (n + extra)) s.parser (http_parser_on_headers_complete s)
  unfolding http_parser_on_headers_complete
  headers_complete-Steps n phase closed known texts sound =
      let (v, x) = closed-Stands c knows s n phase closed sound in
      headers_complete_of-Steps (http.parser_type s.parser) n phase v known texts sound x

module _ {P Z World : Type 0} ⦃http : HttpParser P⦄ ⦃zlib : Zlib Z⦄ (c : Callbacks World)
    (knows : MessageView → World → Type 0) (s : Session P Z World) where
  -- What is left by a piece of a body that goes to the user as it is.
  handed_over-IsSound :
      (hooks : BodyHooks World) (n : ℕ) (bytes : List ℕ)
      → Starts knows hooks.started
      → Receives knows hooks.body_data
      → IsSound c knows (in_body n) s
      → IsSound c knows (in_body n) (handed_over hooks bytes (begun hooks (with_body s)))
        × ((handed_over hooks bytes (begun hooks (with_body s))).parser ≡ s.parser)
  handed_over-IsSound hooks n bytes starts receives sound =
      let (v, x, known) = sound.shape in
      elim (Bool-cases s.body_started) [
        | inl e ↦ rw e (
          record {
            shape = (v, x, receives s.id bytes v s.world known);
            plain = sound.plain;
            own = sound.own;
          },
          refl,
        )
        | inr e ↦ rw e (
          record {
            shape = (
              v,
              x,
              receives s.id bytes v (hooks.started s.id s.world).1 (starts s.id v s.world known).1,
            );
            plain = sound.plain;
            own = sound.own;
          },
          refl,
        )
      ]

  hooked-Steps :
      (hooks : BodyHooks World) (n : ℕ) (bytes : List ℕ)
      → hooks_of (http.parser_type s.parser) s.callbacks ≡ some hooks
      → Starts knows hooks.started
      → Receives knows hooks.body_data
      → IsSound c knows (in_body n) s
      → Steps c knows (in_body n) s.parser (on_event (body bytes) s)
  hooked-Steps hooks n bytes reads starts receives sound =
      let (v, x, known) = sound.shape in
      let quiet : asks_decoding hooks s ≡ false = ground (arith, (starts s.id v s.world known).0) in
      let (after, same) = handed_over-IsSound hooks n bytes starts receives sound in
      record {
        answer = parser_ok;
        after = handed_over hooks bytes (begun hooks (with_body s));
        returns = on_body-handed_over s bytes hooks reads sound.plain quiet;
        sound = after;
        parser = same;
      }

  -- A body before the type is known is an error, which the user does not see.
  unknown-Steps :
      (n : ℕ) (bytes : List ℕ)
      → http.parser_type s.parser ≡ http_both
      → IsSound c knows (in_body n) s
      → Steps c knows (in_body n) s.parser (on_event (body bytes) s)
  unfolding on_event http_parser_on_body
  unknown-Steps n bytes e sound = record {
    answer = parser_invalid_argument_error;
    after = with_context s (record (s.context) {
      have_body = true;
      body_callback_error = parser_invalid_argument_error;
    });
    returns = ground arith;
    sound = record { shape = sound.shape; plain = sound.plain; own = sound.own };
    parser = refl;
  }

  pub body-Steps :
      (extra n : ℕ) (bytes : List ℕ) (kind : ParserType)
      → http.parser_type s.parser ≡ kind
      → IsGentle c knows extra
      → IsSound c knows (in_body n) s
      → Steps c knows (in_body n) s.parser (on_event (body bytes) s)
  body-Steps extra n bytes http_request e gentle sound =
      hooked-Steps (request_hooks c) n bytes (rw (e, sound.own) refl) gentle.request_started
        gentle.request_data sound
  body-Steps extra n bytes http_response e gentle sound =
      hooked-Steps (response_hooks c) n bytes (rw (e, sound.own) refl) gentle.response_started
        gentle.response_data sound
  body-Steps extra n bytes http_both e gentle sound = unknown-Steps n bytes e sound

  pub message_complete-Steps :
      (n : ℕ) (phase : Phase)
      → IsClosed n phase
      → IsSound c knows phase s
      → Steps c knows idle (http.init s.parser http_both) (on_event message_complete s)
  message_complete-Steps n phase closed sound =
      let (v, x) = closed-Stands c knows s n phase closed sound in
      record {
        answer = 0;
        after = after_message s;
        returns = on_message_complete-after_message s v x.here;
        sound = record { shape = x.closed; plain = refl; own = sound.own };
        parser = refl;
      }
