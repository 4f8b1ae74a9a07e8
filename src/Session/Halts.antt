-- ===== src/Session/Halts.antt =====
-- The parser's callbacks for the head of a message end (http-parser/src/parser.c).
use http_library.Prelude.{ℕ, Option, none, some, List, [], ◌∷◌, ◌++◌, if◌then◌else◌, codes}
use http_library.Memory.{ok, tolower, append_chars, set_chars}
use http_library.Memory.Halts.{
  Halts, Halts-ok, Halts-null, Halts-bind, Halts-if, Halts-option, strn_eq-Halts,
  append_chars-Halts, set_chars-Halts,
}
use http_library.Message.{
  HttpMessage, http_message_get_header_field, add_http_header_param, last_index, write_field,
  append_name, append_value, clear_value,
}
use http_library.Message.Halts.{
  add_http_header_param-Halts, write_field-Halts, append_name-Halts, append_value-Halts,
  destroy_http_message-Halts, http_message_get_header_field-Halts,
}
use http_library.HttpParser.{ParserType, http_request, http_response, http_both, HttpParser}
use http_library.Session.{identity, deflate, gzip, Session}
use http_library.Session.Inflate.{
  value_is, encoding_of, get_content_encoding, content_encoding_name,
}
use http_library.Session.Handlers.{
  the_message, value_change, destroy_if_set, http_parser_on_url, http_parser_on_status,
  http_parser_on_header_field, http_parser_on_header_value, headers_complete_of,
}

pub the_message-Halts : (m : Option HttpMessage) → Halts (the_message m)
the_message-Halts none = Halts-null _
the_message-Halts (some m) = Halts-ok m

pub destroy_if_set-Halts : (m : Option HttpMessage) → Halts (destroy_if_set m)
destroy_if_set-Halts none = Halts-ok tt
destroy_if_set-Halts (some m) = destroy_http_message-Halts m

value_change-Halts : (at : Option (List ℕ)) (m : HttpMessage) → Halts (value_change at m)
value_change-Halts none m = write_field-Halts m (last_index m) clear_value (λ f. Halts-ok _)
value_change-Halts (some []) m = write_field-Halts m (last_index m) clear_value (λ f. Halts-ok _)
value_change-Halts (some (b ∷ bytes)) m =
    write_field-Halts m (last_index m) (append_value (b ∷ bytes)) (append_value-Halts (b ∷ bytes))

value_is-Halts : (value : List ℕ × ℕ) (name : List ℕ) → Halts (value_is value name)
value_is-Halts value name = strn_eq-Halts tolower value.1 value.0 (name ++ (0 ∷ []))

encoding_of-Halts : (value : List ℕ × ℕ) → Halts (encoding_of value)
unfolding encoding_of
encoding_of-Halts value =
    Halts-bind (value_is value (codes "gzip")) _ (value_is-Halts value (codes "gzip")) (λ b.
      Halts-if b _ _ (Halts-ok gzip) (
        Halts-bind (value_is value (codes "x-gzip")) _ (value_is-Halts value (codes "x-gzip")) (λ c.
          Halts-if c _ _ (Halts-ok gzip) (
            Halts-bind (value_is value (codes "deflate")) _ (value_is-Halts value (codes "deflate"))
              (λ d. Halts-if d _ _ (Halts-ok deflate) (Halts-ok identity))))))

pub get_content_encoding-Halts : (m : Option HttpMessage) → Halts (get_content_encoding m)
unfolding get_content_encoding
get_content_encoding-Halts m =
    Halts-bind (http_message_get_header_field m (some content_encoding_name)) _
      (http_message_get_header_field-Halts m (some content_encoding_name))
      (λ value. Halts-option value _ _ (Halts-null _) encoding_of-Halts)

module _ {P Z World : Type 0} where
  pub url-Halts : (at : Option (List ℕ)) (s : Session P Z World) → Halts (http_parser_on_url at s)
  unfolding http_parser_on_url
  url-Halts (some (b ∷ bytes)) s =
      Halts-bind (the_message s.message) _ (the_message-Halts s.message) (λ m.
        Halts-bind (append_chars m.url (b ∷ bytes)) _ (append_chars-Halts m.url (b ∷ bytes))
          (λ p. Halts-ok _))
  url-Halts at s = Halts-ok _

  pub header_field-Halts :
      (at : Option (List ℕ)) (s : Session P Z World) → Halts (http_parser_on_header_field at s)
  unfolding http_parser_on_header_field
  header_field-Halts (some (b ∷ bytes)) s =
      Halts-bind (the_message s.message) _ (the_message-Halts s.message) (λ m.
        Halts-bind (if s.in_field then ok m else add_http_header_param m) _
          (Halts-if s.in_field _ _ (Halts-ok m) (add_http_header_param-Halts m))
          (λ longer.
            Halts-bind (write_field longer (last_index longer) (append_name (b ∷ bytes))) _
              (write_field-Halts longer (last_index longer) (append_name (b ∷ bytes))
                (append_name-Halts (b ∷ bytes)))
              (λ named. Halts-ok _)))
  header_field-Halts at s = Halts-ok _

  pub header_value-Halts :
      (at : Option (List ℕ)) (s : Session P Z World) → Halts (http_parser_on_header_value at s)
  unfolding http_parser_on_header_value
  header_value-Halts at s =
      Halts-bind (the_message s.message) _ (the_message-Halts s.message)
        (λ m. Halts-bind (value_change at m) _ (value_change-Halts at m) (λ valued. Halts-ok _))

module _ {P Z World : Type 0} ⦃http : HttpParser P⦄ where
  pub status-Halts :
      (at : Option (List ℕ)) (s : Session P Z World) → Halts (http_parser_on_status at s)
  unfolding http_parser_on_status
  status-Halts (some (b ∷ bytes)) s =
      Halts-bind (the_message s.message) _ (the_message-Halts s.message) (λ m.
        Halts-bind (append_chars m.status (b ∷ bytes)) _ (append_chars-Halts m.status (b ∷ bytes))
          (λ p. Halts-ok _))
  status-Halts at s = Halts-ok _

  pub headers_complete_of-Halts :
      (kind : ParserType) (s : Session P Z World) → Halts (headers_complete_of kind s)
  unfolding headers_complete_of
  headers_complete_of-Halts http_request s =
      Halts-bind (the_message s.message) _ (the_message-Halts s.message) (λ m.
        Halts-bind (set_chars m.method (http.method_str (http.method s.parser))) _
          (set_chars-Halts m.method (http.method_str (http.method s.parser))) (λ p. Halts-ok _))
  headers_complete_of-Halts http_response s = Halts-ok _
  headers_complete_of-Halts http_both s = Halts-ok _
