-- ===== src/Session/Fields.antt =====
-- How `http_parser_on_header_field` and `http_parser_on_header_value` put the header fields of a
-- message together from the fragments that the parser hands over.
use http_library.Prelude.{
  ℕ, suc, ◌<◌, ◌≡◌, refl, Bool, true, false, some, List, [], ◌∷◌, ◌++◌, map, append_assoc,
  append-nil, length, All, All-append,
}
use http_library.Memory.{Run, ok, fault, ◌>>=◌, Ptr, null, append_chars}
use http_library.Memory.Strings.{IsText, c_string, append_chars-c_string}
use http_library.Message.{
  HttpMessage, HttpHeaderField, u32, empty_field, append_name, append_value, clear_value,
}
use http_library.Message.View.{MessageView, c_field, represent}
use http_library.Message.Add.{
  with_last, add_http_header_param-with_last, last_index-with_last, write_field-with_last,
}
use http_library.HttpParser.{Event, header_field, header_value, HttpParser}
use http_library.Zlib.{Zlib}
use http_library.Session.{Session, with_context}
use http_library.Session.Handlers.{
  http_parser_on_header_field, http_parser_on_header_value, on_event,
}

-- A piece of a name or of a value: not empty, and free of NUL.
abbrev pub IsFragment : List ℕ → Type 0
IsFragment [] = ⊥
IsFragment (b ∷ bytes) = IsText (b ∷ bytes)

pub IsFragment-IsText : (f : List ℕ) → IsFragment f → IsText f
IsFragment-IsText [] h = absurd h
IsFragment-IsText (b ∷ f) h = h

abbrev pub join : List (List ℕ) → List ℕ
join [] = []
join (f ∷ fs) = f ++ join fs

-- What a value that held `value` holds behind its further pieces: an empty piece takes the place of all
-- that was there.
abbrev pub kept_value : List ℕ → List (List ℕ) → List ℕ
kept_value value [] = value
kept_value value ([] ∷ gs) = kept_value [] gs
kept_value value ((b ∷ g) ∷ gs) = kept_value (value ++ (b ∷ g)) gs

pub kept_value-IsText :
    (value : List ℕ) (gs : List (List ℕ))
    → IsText value
    → All IsText gs
    → IsText (kept_value value gs)
kept_value-IsText value [] t h = t
kept_value-IsText value ([] ∷ gs) t h = kept_value-IsText [] gs tt h.1
kept_value-IsText value ((b ∷ g) ∷ gs) t h =
    kept_value-IsText (value ++ (b ∷ g)) gs (All-append _ value (b ∷ g) t h.0) h.1

-- A session whose message is `message`, with the flag `in_field`.
abbrev pub holding :
    {P Z World : Type 0} → Session P Z World → HttpMessage → Bool → Session P Z World
holding s message b = with_context s (record (s.context) { in_field = b; message = some message })

abbrev pub field : Ptr → Ptr → HttpHeaderField
field name value = record { name = name; value = value }

-- The message with one more header field, whose name and value are `name` and `value`.
abbrev pub building : MessageView → Ptr → Ptr → HttpMessage
building v name value = with_last v (field name value)

module _ {P Z World : Type 0} ⦃http : HttpParser P⦄ ⦃zlib : Zlib Z⦄ where
  -- The callbacks of a sequence of events, one after the other.
  unfoldable pub run_events : List Event → Session P Z World → Run (Session P Z World)
  run_events [] s = ok s
  run_events (e ∷ es) s = do (_, t) ← on_event e s; run_events es t

  pub run_events-append :
      (es fs : List Event) (s : Session P Z World)
      → run_events (es ++ fs) s ≡ (run_events es s >>= run_events fs)
  unfolding run_events
  run_events-append [] fs s = refl
  run_events-append (e ∷ es) fs s = first (on_event e s) (run_events-append es fs)
    where
      first :
          (r : Run (ℕ × Session P Z World))
          → ((t : Session P Z World)
              → run_events (es ++ fs) t ≡ (run_events es t >>= run_events fs))
          → (r >>= λ x. run_events (es ++ fs) x.1)
            ≡ ((r >>= λ x. run_events es x.1) >>= run_events fs)
      first (ok (n, t)) later = later t
      first (fault e) later = refl

module _ {P Z World : Type 0} ⦃http : HttpParser P⦄ ⦃zlib : Zlib Z⦄ (s : Session P Z World)
    (v : MessageView) (room : suc (length v.headers) < u32) where
  pub name_start :
      (f : List ℕ)
      → IsFragment f
      → http_parser_on_header_field (some f) (holding s (represent v) false)
        ≡ ok (0, holding s (building v (c_string f) null) true)
  unfolding http_parser_on_header_field append_chars
  name_start [] h = absurd h
  name_start (b ∷ f) h = rw (add_http_header_param-with_last v room) (
      rw (last_index-with_last v room empty_field)
        (rw (write_field-with_last v empty_field _ (append_name (b ∷ f)) refl)))

  pub name_more :
      (name f : List ℕ)
      → IsText name
      → IsText f
      → http_parser_on_header_field (some f) (holding s (building v (c_string name) null) true)
        ≡ ok (0, holding s (building v (c_string (name ++ f)) null) true)
  unfolding http_parser_on_header_field
  name_more name [] t h = rw (append-nil name) refl
  name_more name (b ∷ f) t h =
      let old = field (c_string name) null in
      let change : append_name (b ∷ f) old ≡ ok (field (c_string (name ++ (b ∷ f))) null) =
        rw (append_chars-c_string name (b ∷ f) t) in
      rw (last_index-with_last v room old)
        (rw (write_field-with_last v old _ (append_name (b ∷ f)) change))

  pub value_start :
      (b : Bool) (name f : List ℕ)
      → IsFragment f
      → http_parser_on_header_value (some f) (holding s (building v (c_string name) null) b)
        ≡ ok (0, holding s (building v (c_string name) (c_string f)) false)
  unfolding http_parser_on_header_value append_chars
  value_start b name [] h = absurd h
  value_start b name (c ∷ f) h =
      let old = field (c_string name) null in
      rw (last_index-with_last v room old)
        (rw (write_field-with_last v old _ (append_value (c ∷ f)) refl))

  pub value_more :
      (b : Bool) (name value f : List ℕ)
      → IsText value
      → IsFragment f
      → http_parser_on_header_value
          (some f)
          (holding s (building v (c_string name) (c_string value)) b)
        ≡ ok (0, holding s (building v (c_string name) (c_string (value ++ f))) false)
  unfolding http_parser_on_header_value
  value_more b name value [] t h = absurd h
  value_more b name value (c ∷ f) t h =
      let old = field (c_string name) (c_string value) in
      let change : append_value (c ∷ f) old
          ≡ ok (field (c_string name) (c_string (value ++ (c ∷ f)))) =
        rw (append_chars-c_string value (c ∷ f) t) in
      rw (last_index-with_last v room old)
        (rw (write_field-with_last v old _ (append_value (c ∷ f)) change))

  -- Where the count of the fields stays below 2^32, an empty piece of a value takes the place of all
  -- that the value of the last field held.
  pub value_cleared :
      (b : Bool) (name : List ℕ) (value : Ptr)
      → http_parser_on_header_value (some []) (holding s (building v (c_string name) value) b)
        ≡ ok (0, holding s (building v (c_string name) (c_string [])) false)
  unfolding http_parser_on_header_value
  value_cleared b name value =
      let old = field (c_string name) value in
      rw (last_index-with_last v room old)
        (rw (write_field-with_last v old (c_field (name, [])) clear_value refl))

  pub name_rest :
      (name : List ℕ) (fs : List (List ℕ))
      → IsText name
      → All IsText fs
      → run_events (map header_field fs) (holding s (building v (c_string name) null) true)
        ≡ ok (holding s (building v (c_string (name ++ join fs)) null) true)
  unfolding run_events on_event
  name_rest name [] t h = rw (append-nil name)
  name_rest name (f ∷ fs) t h =
      rw (name_more name f t h.0, ← append_assoc name f (join fs))
        (name_rest (name ++ f) fs (All-append _ name f t h.0) h.1)

  pub value_rest :
      (name value : List ℕ) (gs : List (List ℕ))
      → IsText value
      → All IsText gs
      → run_events
          (map header_value gs)
          (holding s (building v (c_string name) (c_string value)) false)
        ≡ ok (holding s (building v (c_string name) (c_string (kept_value value gs))) false)
  unfolding run_events on_event
  value_rest name value [] t h = refl
  value_rest name value ([] ∷ gs) t h =
      rw (value_cleared false name (c_string value)) (value_rest name [] gs tt h.1)
  value_rest name value ((b ∷ g) ∷ gs) t h =
      rw (value_more false name value (b ∷ g) t h.0)
        (value_rest name (value ++ (b ∷ g)) gs (All-append _ value (b ∷ g) t h.0) h.1)
