-- ===== src/Message/Delete.antt =====
-- `http_message_del_header_field`: the loop that closes the gap, and the result.
use mathlib.Core.Path.{subst}
use http_library.Prelude.{
  ℕ, suc, ◌+◌, ◌-◌, ◌%◌, ◌<◌, ◌≡◌, refl, ap, inl, inr, some, List, [], ◌∷◌, ◌++◌, arith,
  Option-cases, length, set, take, length-append, take-append, append_assoc, append-nil,
}
use http_library.Memory.{ok, at, free, tolower}
use http_library.Memory.Strings.{IsText}
use http_library.Message.{HttpHeaderField, u32, shift_fields, http_message_del_header_field}
use http_library.Message.View.{
  Header, MessageView, IsCleanView, c_field, c_fields, represent, edited, remove_first,
}
use http_library.Message.Search.{
  tolower-KeepsNul, find_field-find_index, find_index, Split, find_index-Split, find_index-Absent,
  at-Split,
}

at_middle :
    {A : Type 0} (front : List A) (x : A) (back : List A)
    → at (front ++ (x ∷ back)) (length front) ≡ ok x
unfolding at
at_middle [] x back = refl
at_middle (y ∷ front) x back = at_middle front x back

set_middle :
    {A : Type 0} (front : List A) (x y : A) (back : List A)
    → set (front ++ (x ∷ back)) (length front) y ≡ front ++ (y ∷ back)
set_middle [] x y back = refl
set_middle (z ∷ front) x y back = ap (λ t. z ∷ t) (set_middle front x y back)

length-snoc :
    {A : Type 0} (front : List A) (x : A) → length (front ++ (x ∷ [])) ≡ suc (length front)
length-snoc front x = omega (arith, length-append front (x ∷ []))

at_second :
    {A : Type 0} (front : List A) (x y : A) (back : List A)
    → at (front ++ (x ∷ y ∷ back)) (suc (length front)) ≡ ok y
unfolding at
at_second [] x y back = refl
at_second (z ∷ front) x y back = at_second front x y back

-- The loop moves the fields behind the gap one place to the front; the last one stays twice.
shift_fields-append :
    (front : List HttpHeaderField) (x : HttpHeaderField) (back : List HttpHeaderField)
    → (last : HttpHeaderField) × (shift_fields
          (length back)
          (suc (length front))
          (front ++ (x ∷ back))
        ≡ ok ((front ++ back) ++ (last ∷ [])))
unfolding shift_fields
shift_fields-append front x [] = (x, rw append-nil refl)
shift_fields-append front x (y ∷ back) =
    let (last, e) = shift_fields-append (front ++ (y ∷ [])) y back in
    let back_one : suc (length front) - 1 ≡ length front = omega arith in
    (
      last,
      rw (at_second front x y back, back_one, set_middle front x y (y ∷ back))
          (rw
            (
              length-snoc front y,
              append_assoc front (y ∷ []) (y ∷ back),
              append_assoc front (y ∷ []) back,
            )
            at e),
    )

c_fields-append : (hs ks : List Header) → c_fields (hs ++ ks) ≡ c_fields hs ++ c_fields ks
c_fields-append [] ks = refl
c_fields-append (h ∷ hs) ks = ap (λ t. c_field h ∷ t) (c_fields-append hs ks)

length-c_fields : (hs : List Header) → length (c_fields hs) ≡ length hs
length-c_fields [] = refl
length-c_fields (h ∷ hs) = ap suc (length-c_fields hs)

-- How the loop and the count leave the array when the field `i` of `hs` goes and `rest` stays.
record Closed (hs : List Header) (i : ℕ) (rest : List Header) : Type 0 where
  shifted : List HttpHeaderField
  loop : shift_fields (length hs - (i + 1)) (i + 1) (c_fields hs) ≡ ok shifted
  count : (length hs + u32 - 1) % u32 ≡ length rest
  kept : take (length rest) shifted ≡ c_fields rest

Closed-append :
    (front : List Header) (h : Header) (back : List Header)
    → length (front ++ (h ∷ back)) < u32
    → Closed (front ++ (h ∷ back)) (length front) (front ++ back)
Closed-append front h back few =
    let (last, e) = shift_fields-append (c_fields front) (c_field h) (c_fields back) in
    let whole : length (front ++ (h ∷ back)) ≡ suc (length front + length back) =
      omega (arith, length-append front (h ∷ back)) in
    let rounds : suc (length front + length back) - (length front + 1) ≡ length (c_fields back) =
      omega (arith, length-c_fields back) in
    let start : length front + 1 ≡ suc (length (c_fields front)) =
      omega (arith, length-c_fields front) in
    let left : length (front ++ back) ≡ length (c_fields front ++ c_fields back) = omega (
      arith,
      length-append front back,
      length-append (c_fields front) (c_fields back),
      length-c_fields front,
      length-c_fields back,
    ) in
    record {
      shifted = (c_fields front ++ c_fields back) ++ (last ∷ []);
      loop = rw (whole, rounds, start, c_fields-append front (h ∷ back)) e;
      count = omega (arith, whole, length-append front back);
      kept = rw (left, c_fields-append front back) (take-append _ (last ∷ []));
    }

Closed-Split :
    {fold : ℕ → ℕ} {name : List ℕ} (hs : List Header) {i : ℕ} (s : Split fold name hs i)
    → length hs < u32
    → Closed hs i (s.front ++ s.back)
Closed-Split hs s few =
    rw (s.whole, s.index)
      (Closed-append s.front s.hit s.back (subst (λ l. length l < u32) s.whole few))

-- Of a message whose texts are free of NUL, with less than 2^32 header fields, and a name that is not
-- empty and free of NUL: the first header field whose name begins with the given name, whatever the
-- case, is taken out, and the order of the others is kept. With no such field the call returns 1 and
-- changes nothing.
pub http_message_del_header_field-remove_first :
    (v : MessageView) (c : ℕ) (name : List ℕ)
    → IsCleanView v
    → IsText (c ∷ name)
    → http_message_del_header_field (some (represent v)) (some (c ∷ name))
      ≡ edited v (remove_first tolower (c ∷ name) v.headers)
unfolding http_message_del_header_field free
http_message_del_header_field-remove_first v c name clean text =
    rw (find_field-find_index tolower tolower-KeepsNul (c ∷ name) v.headers text clean.headers)
      (elim (Option-cases (find_index tolower (c ∷ name) v.headers)) [
        | inl e ↦ rw (e, (find_index-Absent tolower (c ∷ name) v.headers e).removed)
        | inr (i, e) ↦
            let s = find_index-Split tolower (c ∷ name) v.headers i e in
            let closed = Closed-Split v.headers s clean.few in
            rw (e, s.removed)
              (rw (at-Split s) (rw closed.loop (rw (closed.count, closed.kept) refl)))
      ])
