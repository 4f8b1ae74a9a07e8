-- ===== src/Session/Stream.antt =====
-- The decompression loop of `message_inflate` (http-parser/src/parser.c) against the calls of
-- `inflate` that it makes.
use http_library.Prelude.{
  ℕ, zero, suc, ◌+◌, ◌<◌, ◌≡◌, refl, ◌∙◌, ◌⊎◌, inl, inr, true, some, List, [], ◌∷◌, arith, ◌==◌,
  leb, Option, none, if◌then◌else◌, Bool-cases, length, drop, length-drop-le,
}
use http_library.Memory.{Run, ok}
use http_library.Zlib.{z_ok, z_stream_end, z_error, Inflated, Zlib}
use http_library.Session.{Session, with_context, zlib_decompress_chunk_size}
use http_library.Session.Inflate.{inflate_loop, overlaps, deliver, move_tail, message_inflate_end}
use http_library.Session.Inflates.{
  Outcome, ended, failed, kept, ZCode-cases, step, rest_of, goes_on, Inflates, at_end, at_error,
  stalled, again, deliver_all, Ends, IsReading,
}

module _ {P Z World : Type 0} ⦃zlib : Zlib Z⦄ (within : Option ℕ)
    (body_data : ℕ → List ℕ → World → World) where
  move_tail-Ends :
      (rest : List ℕ) (t : Session P Z World)
      → IsReading t rest
      → Ends within t.world (kept rest) (move_tail within rest t)
  unfolding move_tail
  move_tail-Ends [] t reading = (t, refl, refl, reading.available)
  move_tail-Ends (b ∷ rest) t reading =
      elim (Bool-cases (leb (length (b ∷ rest)) zlib_decompress_chunk_size)) [
        | inl fits ↦ elim (Bool-cases (overlaps within (length (b ∷ rest)))) [
          | inl over ↦ inr (inl (over, ground arith))
          | inr apart ↦ inr (
              inr (
                with_context t (record (t.context) { decode_in_buffer = some (b ∷ rest) }),
                ground arith,
                ground arith,
                apart,
                refl,
                reading.available,
                refl,
              ))
        ]
        | inr long ↦ inl (ground arith, ground arith)
      ]

  -- What a call leaves in the session.
  pub record Delivered (r : Inflated Z) (input : List ℕ) (s t : Session P Z World) : Type 0 where
    pub available : t.avail_in ≡ length (drop r.consumed input)
    pub stream : t.zlib_stream ≡ r.stream
    pub same_id : t.id ≡ s.id
    pub buffer : t.decode_in_buffer ≡ s.decode_in_buffer

  pub deliver-Delivered :
      (r : Inflated Z) (input : List ℕ) (s : Session P Z World)
      → Delivered r input s (deliver body_data input r s)
  unfolding deliver
  deliver-Delivered r input s = ground arith

  pub deliver-world :
      (r : Inflated Z) (input : List ℕ) (s : Session P Z World)
      → (r.code ≡ z_ok) ⊎ (r.code ≡ z_stream_end)
      → (deliver body_data input r s).world
        ≡ (if length r.output == 0 then s.world else body_data s.id r.output s.world)
  unfolding deliver
  deliver-world r input s e = ground arith

  -- One round of the loop for each code.
  pub round_end :
      (fuel : ℕ) (input : List ℕ) (s : Session P Z World)
      → (step s.zlib_stream input).code ≡ z_stream_end
      → inflate_loop (suc fuel) within body_data input s
        ≡ ok (0, message_inflate_end (deliver body_data input (step s.zlib_stream input) s))
  unfolding inflate_loop
  round_end fuel input s e = ground arith

  pub round_error :
      (fuel : ℕ) (input : List ℕ) (s : Session P Z World) (n : ℕ)
      → (step s.zlib_stream input).code ≡ z_error n
      → (inflate_loop (suc fuel) within body_data input s
          ≡ ok (1, message_inflate_end (deliver body_data input (step s.zlib_stream input) s)))
        × ((deliver body_data input (step s.zlib_stream input) s).world ≡ s.world)
  unfolding inflate_loop deliver
  round_error fuel input s n e = (ground arith, ground arith)

  pub round_ok :
      (fuel : ℕ) (input : List ℕ) (s : Session P Z World)
      → s.avail_in ≡ length input
      → (step s.zlib_stream input).code ≡ z_ok
      → let t = deliver body_data input (step s.zlib_stream input) s in
        inflate_loop (suc fuel) within body_data input s ≡ (
          if goes_on s.zlib_stream input
          then inflate_loop fuel within body_data (rest_of s.zlib_stream input) t
          else move_tail within (rest_of s.zlib_stream input) t)
  unfolding inflate_loop
  round_ok fuel input s a e =
      ground (arith, (deliver-Delivered (step s.zlib_stream input) input s).available)

  -- A result of the loop that the calls of `inflate` account for.
  pub record Accounted (s : Session P Z World) (input : List ℕ) (r : Run (ℕ × Session P Z World))
      : Type 0 where
    pub outputs : List (List ℕ)
    pub outcome : Outcome
    pub calls : Inflates s.zlib_stream input outputs outcome
    pub ends : Ends within (deliver_all body_data s.id outputs s.world) outcome r

  continue :
      (input : List ℕ) (s t : Session P Z World) (r : Run (ℕ × Session P Z World))
      → (step s.zlib_stream input).code ≡ z_ok
      → goes_on s.zlib_stream input ≡ true
      → Delivered (step s.zlib_stream input) input s t
      → t.world ≡ (
          if length (step s.zlib_stream input).output == 0
          then s.world
          else body_data s.id (step s.zlib_stream input).output s.world)
      → Accounted t (rest_of s.zlib_stream input) r
      → Accounted s input r
  continue input s t r code more d w later = record {
    outputs = (step s.zlib_stream input).output ∷ later.outputs;
    outcome = later.outcome;
    calls = again code more (rw d.stream at later.calls);
    ends = rw (w, d.same_id) at later.ends;
  }

  -- With more fuel than input the loop ends, and its result is accounted for.
  pub inflate_loop-Accounted :
      (fuel : ℕ) (input : List ℕ) (s : Session P Z World)
      → IsReading s input
      → length input < fuel
      → Accounted s input (inflate_loop fuel within body_data input s)
  unfolding message_inflate_end
  inflate_loop-Accounted zero input s reading enough = absurd (omega arith)
  inflate_loop-Accounted (suc fuel) input s reading enough =
      let z = s.zlib_stream in
      let r = step z input in
      let t = deliver body_data input r s in
      let d = deliver-Delivered r input s in
      let next : IsReading t (rest_of z input) = record {
        available = d.available;
        buffer = reading.buffer;
        allocated = d.buffer ∙ reading.allocated;
      } in
      elim (ZCode-cases r.code) [
        | inr (inl e) ↦ record {
          outputs = r.output ∷ [];
          outcome = ended;
          calls = at_end e;
          ends = (
            message_inflate_end t,
            round_end fuel input s e,
            deliver-world r input s (inr e),
            refl,
          );
        }
        | inr (inr (n, e)) ↦ record {
          outputs = [];
          outcome = failed;
          calls = at_error n e;
          ends = (
            message_inflate_end t,
            (round_error fuel input s n e).0,
            (round_error fuel input s n e).1,
            refl,
          );
        }
        | inl e ↦ elim (Bool-cases (goes_on z input)) [
          | inl more ↦
              rw (round_ok fuel input s reading.available e, more)
                (continue input s t _ e more d (deliver-world r input s (inl e)) (
                  inflate_loop-Accounted fuel (rest_of z input) t next
                    (ground (arith, length-drop-le r.consumed input))))
          | inr stop ↦
              rw (round_ok fuel input s reading.available e, stop)
                (record {
                  outputs = r.output ∷ [];
                  outcome = kept (rest_of z input);
                  calls = stalled e stop;
                  ends =
                      rw (← deliver-world r input s (inl e))
                        (move_tail-Ends (rest_of z input) t next);
                })
        ]
      ]

-- Where the input ends in the input buffer, if there is kept input in front of the new bytes.
abbrev pub input_end : ℕ → List ℕ → Option ℕ
input_end zero bytes = none
input_end (suc n) bytes = some (suc n + length bytes)
