-- ===== src/Message/Raw/Render.antt =====
-- `http_message_raw` against a plain rendering of the view.
use mathlib.Core.Path.{subst}
use http_library.Prelude.{
  ℕ, zero, suc, ◌+◌, ◌≤◌, ◌<◌, ◌↔◌, ◌≡◌, refl, ap, sym, ◌∙◌, Option, none, some, List, [], ◌∷◌,
  ◌++◌, append_assoc, append-nil, arith, ◌==◌, if◌then◌else◌, length, take, replicate, inl, inr,
  Bool-cases, length-append, take-append, take_all,
}
use http_library.Memory.{Run, ok, fault, null_pointer, deref, strlen, snprintf}
use http_library.Memory.Strings.{IsText, c_string, strlen_text}
use http_library.Message.View.{
  Header, MessageView, IsClean, IsCleanView, IsCleanText, c_fields, c_text, represent,
}
use http_library.Message.Raw.{
  crlf, format_u, snprintf_zeroed, status_line, request_line, field_line, raw_request, raw_response,
  raw_first_line, raw_fields, http_message_raw,
}
use http_library.Message.Raw.Decimal.{length-format_u, three_digits}

-- The first `n` bytes of a text, filled up with NUL.
unfoldable pub pad : ℕ → List ℕ → List ℕ
pad zero text = []
pad (suc n) [] = 0 ∷ pad n []
pad (suc n) (b ∷ text) = b ∷ pad n text

unfoldable pub render_fields : List Header → List ℕ
render_fields [] = []
render_fields (h ∷ hs) = field_line h.0 h.1 ++ render_fields hs

-- The request line, where there is a method and an url.
abbrev pub render_request : Option (List ℕ) → Option (List ℕ) → Option (List ℕ)
render_request (some method) (some url) = some (request_line method url)
render_request _ _ = none

-- The first line: that of a response in a place for a status code of three digits, where status and
-- code are set, and else that of a request.
abbrev pub render_first_line : MessageView → Option (List ℕ) → Option (List ℕ)
render_first_line v none = render_request v.method v.url
render_first_line v (some status) =
    if v.status_code == 0
    then render_request v.method v.url
    else some (pad (length status + 15) (status_line v.status_code status))

take-replicate : (n : ℕ) → take n (replicate (suc n) 0) ≡ pad n []
unfolding pad
take-replicate zero = refl
take-replicate (suc n) = ap (λ t. 0 ∷ t) (take-replicate n)

take-snprintf_zeroed : (n : ℕ) (text : List ℕ) → take n (snprintf_zeroed (suc n) text) ≡ pad n text
unfolding pad snprintf
take-snprintf_zeroed zero text = refl
take-snprintf_zeroed (suc n) [] = ap (λ t. 0 ∷ t) (take-replicate n)
take-snprintf_zeroed (suc n) (b ∷ text) = ap (λ t. b ∷ t) (take-snprintf_zeroed n text)

pub pad_exact : (text : List ℕ) → pad (length text) text ≡ text
unfolding pad
pad_exact [] = refl
pad_exact (b ∷ text) = ap (λ t. b ∷ t) (pad_exact text)

pub length-pad : (n : ℕ) (text : List ℕ) → length (pad n text) ≡ n
unfolding pad
length-pad zero text = refl
length-pad (suc n) [] = ap suc (length-pad n [])
length-pad (suc n) (b ∷ text) = ap suc (length-pad n text)

length-request_line :
    (method url : List ℕ) → length (request_line method url) ≡ 8 + length url + length method + 4
length-request_line method url = simp length-append (omega arith)

length-field_line :
    (name value : List ℕ) → length (field_line name value) ≡ length name + length value + 4
length-field_line name value = simp length-append (omega arith)

snprintf_exact :
    (n : ℕ) (text : List ℕ) → n ≡ length text → snprintf (suc n) text ≡ text ++ (0 ∷ [])
unfolding snprintf
snprintf_exact n text e = rw (e, take_all (length text) text (omega arith)) refl

-- A buffer whose first bytes are `text`.
record Begins (text : List ℕ) (r : Run (List ℕ × ℕ)) : Type 0 where
  out_buffer : List ℕ
  run : r ≡ ok (out_buffer, length text)
  text_first : take (length text) out_buffer ≡ text

raw_fields-Begins :
    (hs : List Header) (out_buffer text : List ℕ) (size : ℕ)
    → IsClean hs
    → size ≡ length text
    → take size out_buffer ≡ text
    → Begins (text ++ render_fields hs) (raw_fields (length hs) (c_fields hs) out_buffer size)
unfolding raw_fields render_fields deref
raw_fields-Begins [] out_buffer text size clean e t = rw append-nil (record {
  out_buffer = out_buffer;
  run = ap (λ n. ok (out_buffer, n)) e;
  text_first = rw (← e) t;
})
raw_fields-Begins (h ∷ hs) out_buffer text size clean e t =
    let line = field_line h.0 h.1 in
    let same : size + (length h.0 + length h.1 + 4) ≡ length (text ++ line) =
      omega (arith, length-append text line, length-field_line h.0 h.1) in
    let next =
      raw_fields-Begins hs (text ++ (line ++ (0 ∷ []))) (text ++ line)
        (size + (length h.0 + length h.1 + 4)) clean.1 same
        (rw same (rw (append_assoc text line (0 ∷ [])) at (take-append (text ++ line) (0 ∷ [])))) in
    rw
      (
        strlen_text h.0 [] clean.0.0,
        strlen_text h.1 [] clean.0.1,
        take-append h.0 (0 ∷ []),
        take-append h.1 (0 ∷ []),
        t,
        snprintf_exact (length h.0 + length h.1 + 4) line (sym (length-field_line h.0 h.1)),
      )
      (rw append_assoc at next)

-- The first line is rendered, unless the message has no method or url to make a request of.
abbrev FirstLine : Option (List ℕ) → Run (List ℕ × ℕ) → Type 0
FirstLine none r = r ≡ fault null_pointer
FirstLine (some line) r = Begins line r

zeroed-Begins :
    (size : ℕ) (text : List ℕ) → Begins (pad size text) (ok (snprintf_zeroed (suc size) text, size))
zeroed-Begins size text = record {
  out_buffer = snprintf_zeroed (suc size) text;
  run = ap (λ n. ok (snprintf_zeroed (suc size) text, n)) (sym (length-pad size text));
  text_first = rw (length-pad size text) (take-snprintf_zeroed size text);
}

request_line-FirstLine :
    (method url : Option (List ℕ))
    → IsCleanText method
    → IsCleanText url
    → FirstLine (render_request method url) (raw_request (c_text method) (c_text url))
unfolding raw_request deref strlen
request_line-FirstLine none none m u = refl
request_line-FirstLine none (some url) m u = rw (strlen_text url [] u) refl
request_line-FirstLine (some method) none m u = refl
request_line-FirstLine (some method) (some url) m u =
    let size = 8 + length url + length method + 4 in
    let line = request_line method url in
    let fits : pad size line ≡ line =
      ap (λ n. pad n line) (sym (length-request_line method url)) ∙ pad_exact line in
    rw
      (
        strlen_text url [] u,
        strlen_text method [] m,
        take-append url (0 ∷ []),
        take-append method (0 ∷ []),
      )
      (rw fits at (zeroed-Begins size line))

status_line-Begins :
    (code : ℕ) (status : List ℕ)
    → IsText status
    → Begins
        (pad (length status + 15) (status_line code status))
        (raw_response (c_string status) code)
unfolding raw_response deref
status_line-Begins code status h =
    let size : 8 + length status + 7 ≡ length status + 15 = omega arith in
    rw (strlen_text status [] h, take-append status (0 ∷ []), size)
      (zeroed-Begins (length status + 15) (status_line code status))

raw_first_line-FirstLine :
    (v : MessageView) (status : Option (List ℕ))
    → status ≡ v.status
    → IsCleanView v
    → FirstLine (render_first_line v status) (raw_first_line (represent v))
unfolding raw_first_line
raw_first_line-FirstLine v none e clean =
    rw (← e) (request_line-FirstLine v.method v.url clean.method clean.url)
raw_first_line-FirstLine v (some status) e clean = elim (Bool-cases (v.status_code == 0)) [
  | inl unset ↦ rw (← e, unset) (request_line-FirstLine v.method v.url clean.method clean.url)
  | inr coded ↦
      rw (← e, coded)
        (status_line-Begins v.status_code status (subst IsCleanText (sym e) clean.status))
]

-- The whole text that stands for a message with the given first line.
abbrev pub render_message : List ℕ → List Header → List ℕ
render_message line hs = (line ++ render_fields hs) ++ crlf

abbrev pub rendered : Option (List ℕ) → List Header → Run (Option (List ℕ × ℕ))
rendered none hs = fault null_pointer
rendered (some line) hs =
    ok (some (render_message line hs ++ (0 ∷ []), length (render_message line hs)))

finish :
    (v : MessageView) (line : Option (List ℕ))
    → IsClean v.headers
    → FirstLine line (raw_first_line (represent v))
    → http_message_raw (some (represent v)) ≡ rendered line v.headers
unfolding http_message_raw snprintf
finish v none clean first = rw first
finish v (some line) clean first =
    let fields =
      raw_fields-Begins v.headers first.out_buffer line (length line) clean refl first.text_first in
    rw (first.run, fields.run)
      (rw (fields.text_first, append_assoc (line ++ render_fields v.headers) crlf (0 ∷ []))
        (ap (λ n. ok (some ((line ++ render_fields v.headers) ++ (crlf ++ (0 ∷ [])), n)))
          (omega (arith, length-append (line ++ render_fields v.headers) crlf))))

-- A message whose texts are free of NUL, with less than 2^32 header fields, is serialised as its
-- first line, a line for each header field in order, and an empty line, with a NUL behind and the
-- length without it; a status line is cut off or filled up with NUL to the place for a code of
-- three digits. A message with neither a status line nor a request line reads through a null
-- pointer.
pub http_message_raw-rendered :
    (v : MessageView)
    → IsCleanView v
    → http_message_raw (some (represent v)) ≡ rendered (render_first_line v v.status) v.headers
http_message_raw-rendered v clean =
    finish v (render_first_line v v.status) clean.headers
      (raw_first_line-FirstLine v v.status refl clean)

length-status_line :
    (code : ℕ) (status : List ℕ)
    → length (status_line code status) ≡ length status + 12 + length (format_u code)
length-status_line code status = simp length-append (omega arith)

pad-status_line_iff :
    (code : ℕ) (status : List ℕ)
    → (pad (length status + 15) (status_line code status) ≡ status_line code status)
      ↔ ((100 ≤ code) × (code < 1000))
pad-status_line_iff code status = (
  λ e. three_digits code (
      omega (
        arith,
        ap length e,
        length-pad (length status + 15) (status_line code status),
        length-status_line code status,
      )),
  λ range.
      let size : length status + 15 ≡ length (status_line code status) =
        omega (arith, length-status_line code status, length-format_u code range.0 range.1) in
      ap (λ n. pad n (status_line code status)) size ∙ pad_exact (status_line code status),
)

-- `raw_response`, for a status text free of NUL, returns a buffer and how many of its bytes are used,
-- and these are the status line exactly if the status code has three digits: a longer code cuts the
-- end of the line off, and a shorter one leaves NUL behind it.
pub raw_response-status_line_iff :
    (code : ℕ) (status : List ℕ)
    → IsText status
    → (out_buffer : List ℕ) × (size : ℕ) × (raw_response (c_string status) code
        ≡ ok (out_buffer, size))
      × ((take size out_buffer ≡ status_line code status) ↔ ((100 ≤ code) × (code < 1000)))
raw_response-status_line_iff code status h =
    let b = status_line-Begins code status h in
    let exact = pad-status_line_iff code status in
    (
      b.out_buffer,
      length (pad (length status + 15) (status_line code status)),
      b.run,
      (λ e. exact.0 (sym b.text_first ∙ e), λ range. b.text_first ∙ exact.1 range),
    )
