-- ===== src/Session/Inflates.antt =====
-- The calls of `inflate` that decompress one input, as a relation, and what they mean for the session
-- (`message_inflate`, http-parser/src/parser.c).
use http_library.Prelude.{
  ℕ, ◌<◌, ◌≤◌, Option, ◌≡◌, refl, ◌⊎◌, inl, inr, Bool, true, false, not, ◌&&◌, none, some, List, [],
  ◌∷◌, ◌==◌, ltb, if◌then◌else◌, length, drop,
}
use http_library.Memory.{Run, ok, fault, out_of_bounds, overlapping_copy}
use http_library.Session.Inflate.{overlaps}
use http_library.Zlib.{ZCode, z_ok, z_stream_end, z_error, Inflated, Zlib}
use http_library.Session.{Session, zlib_decompress_chunk_size}

-- How the calls for one input end: at the end of the stream, by an error, or with a rest of the
-- input that is kept for the next call.
pub data Outcome : Type 0 where
  ended failed : Outcome
  kept : List ℕ → Outcome

pub ZCode-cases : (c : ZCode) → (c ≡ z_ok) ⊎ (c ≡ z_stream_end) ⊎ ((n : ℕ) × (c ≡ z_error n))
ZCode-cases z_ok = inl refl
ZCode-cases z_stream_end = inr (inl refl)
ZCode-cases (z_error n) = inr (inr (n, refl))

module _ {Z : Type 0} ⦃zlib : Zlib Z⦄ where
  abbrev pub step : Z → List ℕ → Inflated Z
  step z input = zlib.inflate z input zlib_decompress_chunk_size

  abbrev pub rest_of : Z → List ℕ → List ℕ
  rest_of z input = drop (step z input).consumed input

  -- Some input is left, and some was read.
  abbrev pub goes_on : Z → List ℕ → Bool
  goes_on z input =
      ltb 0 (length (rest_of z input)) && not (length input == length (rest_of z input))

  -- The calls of `inflate` on an input, with what they write and how they end.
  pub data Inflates : Z → List ℕ → List (List ℕ) → Outcome → Type 0 where
    at_end :
        {z : Z} {input : List ℕ}
        → (step z input).code ≡ z_stream_end
        → Inflates z input ((step z input).output ∷ []) ended
    at_error :
        {z : Z} {input : List ℕ} (n : ℕ)
        → (step z input).code ≡ z_error n
        → Inflates z input [] failed
    stalled :
        {z : Z} {input : List ℕ}
        → (step z input).code ≡ z_ok
        → goes_on z input ≡ false
        → Inflates z input ((step z input).output ∷ []) (kept (rest_of z input))
    again :
        {z : Z} {input : List ℕ} {outputs : List (List ℕ)} {o : Outcome}
        → (step z input).code ≡ z_ok
        → goes_on z input ≡ true
        → Inflates (step z input).stream (rest_of z input) outputs o
        → Inflates z input ((step z input).output ∷ outputs) o

-- The user's callback on each output that is not empty, in order.
abbrev pub deliver_all :
    {World : Type 0} → (ℕ → List ℕ → World → World) → ℕ → List (List ℕ) → World → World
deliver_all body_data id [] w = w
deliver_all body_data id (o ∷ os) w =
    deliver_all body_data id os (if length o == 0 then w else body_data id o w)

module _ {P Z World : Type 0} where
  -- What the loop returns for an outcome, with the user's world `w` behind it. A rest that is longer
  -- than the input buffer is written past its end, and one that overlaps with the place where it goes
  -- is undefined behaviour too.
  abbrev pub Ends : Option ℕ → World → Outcome → Run (ℕ × Session P Z World) → Type 0
  Ends within w ended r =
      (t : Session P Z World) × (r ≡ ok (0, t)) × (t.world ≡ w) × (t.decode_out_buffer ≡ none)
  Ends within w failed r =
      (t : Session P Z World) × (r ≡ ok (1, t)) × (t.world ≡ w) × (t.decode_out_buffer ≡ none)
  Ends within w (kept []) r =
      (t : Session P Z World) × (r ≡ ok (0, t)) × (t.world ≡ w) × (t.avail_in ≡ 0)
  Ends within w (kept (b ∷ rest)) r =
      ((zlib_decompress_chunk_size < length (b ∷ rest)) × (r ≡ fault out_of_bounds))
      ⊎ ((overlaps within (length (b ∷ rest)) ≡ true) × (r ≡ fault overlapping_copy))
      ⊎ ((t : Session P Z World) × (r ≡ ok (0, t))
          × (length (b ∷ rest) ≤ zlib_decompress_chunk_size)
          × (overlaps within (length (b ∷ rest)) ≡ false)
          × (t.world ≡ w)
          × (t.avail_in ≡ length (b ∷ rest))
          × (t.decode_in_buffer ≡ some (b ∷ rest)))

  -- The state in which a round of the loop finds the session.
  pub record IsReading (s : Session P Z World) (input : List ℕ) : Type 0 where
    pub available : s.avail_in ≡ length input
    pub buffer : List ℕ
    pub allocated : s.decode_in_buffer ≡ some buffer
