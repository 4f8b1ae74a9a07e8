-- ===== src/Session/Outcome.antt =====
-- What `parser_input` answers (http-parser/src/parser.c): the bytes that are done, and the error.
use http_library.Prelude.{
  ℕ, zero, suc, ◌+◌, ◌<◌, ◌≤◌, ◌≡◌, refl, inl, inr, false, List, [], ◌∷◌, ◌==◌, arith, Bool-cases,
  length, drop, take,
}
use http_library.Memory.{Fault, Run, ok, fault, ◌>>=◌}
use http_library.HttpParser.{HttpParser}
use http_library.Zlib.{Zlib}
use http_library.Session.{Direction, Session, set_error, parser_ok, parser_http_parse_error}
use http_library.Session.Input.{prepare, input_error, run_exec, input_loop, parser_input, with_done}
use http_library.Session.Kept.{Kept, Frame}
use http_library.Session.Frame.{run_exec-Kept}

drop-covers : (n : ℕ) (bytes : List ℕ) → length bytes ≤ n + length (drop n bytes)
drop-covers zero bytes = omega arith
drop-covers (suc n) [] = omega arith
drop-covers (suc n) (b ∷ bytes) = omega (arith, drop-covers n bytes)

drop-within :
    (n : ℕ) (bytes : List ℕ)
    → n < n + length (drop n bytes)
    → n + length (drop n bytes) ≤ length bytes
drop-within zero bytes l = omega arith
drop-within (suc n) [] l = omega arith
drop-within (suc n) (b ∷ bytes) l = omega (arith, drop-within n bytes (omega arith))

module _ {P Z World : Type 0} ⦃http : HttpParser P⦄ where
  -- An answer for an error of the parser: where it is that of the body's callback, the one that the
  -- callback left, and else a parse error, whose description is stored.
  pub data IsError (r : ℕ) (t : Session P Z World) : Type 0 where
    callback_error :
        http.http_errno t.parser ≡ http.hpe_cb_body → r ≡ t.body_callback_error → IsError r t
    parse_error :
        (http.http_errno t.parser == http.hpe_cb_body) ≡ false
        → r ≡ parser_http_parse_error
        → t.error_message ≡ take 255 (http.errno_description (http.http_errno t.parser))
        → IsError r t

  -- An answer for bytes that reach up to `total`, from `start` on.
  pub data IsAnswer (start total : ℕ) : Run (ℕ × Session P Z World) → Type 0 where
    whole : {t : Session P Z World} → total ≤ t.done → IsAnswer start total (ok (parser_ok, t))
    stopped :
        {r : ℕ} {t : Session P Z World}
        → start ≤ t.done
        → t.done < total
        → (http.http_errno t.parser == 0) ≡ false
        → IsError r t
        → IsAnswer start total (ok (r, t))
    faulted : {e : Fault} → IsAnswer start total (fault e)

  input_error-IsAnswer :
      (total : ℕ) (s : Session P Z World)
      → s.done < total
      → (http.http_errno s.parser == 0) ≡ false
      → IsAnswer s.done total (ok (input_error s))
  unfolding input_error set_error
  input_error-IsAnswer total s less e =
      elim (Bool-cases (http.http_errno s.parser == http.hpe_cb_body)) [
        | inl b ↦ rw (b) (stopped (omega arith) less e (callback_error (ground arith) refl))
        | inr b ↦ rw (b) (stopped (omega arith) less e (parse_error b refl refl))
      ]

module _ {P Z World : Type 0} ⦃http : HttpParser P⦄ ⦃zlib : Zlib Z⦄ where
  IsAnswer-bind :
      (start total : ℕ) (s : Session P Z World) (r : Run (ℕ × Session P Z World))
      (k : ℕ × Session P Z World → Run (ℕ × Session P Z World))
      → Kept s r
      → ((a : ℕ) (t : Session P Z World) → Frame s t → IsAnswer start total (k (a, t)))
      → IsAnswer start total (r >>= k)
  IsAnswer-bind start total s (ok (a, t)) k f next = next a t f
  IsAnswer-bind start total s (fault e) k f next = faulted

  -- An answer from a later start, or for a total that is the same.
  IsAnswer-from :
      (start later total total' : ℕ) (r : Run (ℕ × Session P Z World))
      → start ≤ later
      → total' ≤ total
      → (later < total → total ≤ total')
      → IsAnswer later total r
      → IsAnswer start total' r
  IsAnswer-from start later total total' r l m n (whole w) = whole (omega arith)
  IsAnswer-from start later total total' r l m n (stopped lo hi e x) =
      stopped (omega arith) (omega (arith, n (omega arith))) e x
  IsAnswer-from start later total total' r l m n faulted = faulted

  input_loop-IsAnswer :
      (bytes : List ℕ) (s : Session P Z World)
      → IsAnswer s.done (s.done + length bytes) (input_loop bytes s)
  unfolding input_loop
  input_loop-IsAnswer [] s = whole (omega arith)
  input_loop-IsAnswer (b ∷ rest) s = elim (Bool-cases (http.http_errno s.parser == 0)) [
    | inl e ↦ rw (e) (
        IsAnswer-bind _ _ s (run_exec (http.execute s.parser (b ∷ [])) s) _
          (run_exec-Kept (http.execute s.parser (b ∷ [])) s)
          (λ a t f.
            IsAnswer-from s.done (t.done + 1) (t.done + 1 + length rest)
              (s.done + length (b ∷ rest)) _ (omega (arith, f.done)) (omega (arith, f.done))
              (λ _. omega (arith, f.done)) (input_loop-IsAnswer rest (with_done t (t.done + 1)))))
    | inr e ↦ rw (e) (input_error-IsAnswer (s.done + length (b ∷ rest)) s (omega arith) e)
  ]

  -- What `parser_input` answers when nothing faults: 0 with every byte done, or, with an error of the
  -- parser and bytes left that are not done: where it is the error of the body's callback, the number
  -- that the callback left, and where it is any other, 102 with the parser's description of it stored
  -- in front of its 256th byte.
  pub parser_input-IsAnswer :
      (direction : Direction) (bytes : List ℕ) (s : Session P Z World)
      → IsAnswer 0 (length bytes) (parser_input direction bytes s)
  unfolding parser_input
  parser_input-IsAnswer direction bytes s =
      let t = prepare direction (with_done s 0) in
      IsAnswer-bind _ _ t (run_exec (http.execute t.parser bytes) t) _
        (run_exec-Kept (http.execute t.parser bytes) t)
        (λ n u f.
          IsAnswer-from 0 n (n + length (drop n bytes)) (length bytes) _ (omega arith)
            (drop-covers n bytes) (λ l. drop-within n bytes l)
            (input_loop-IsAnswer (drop n bytes) (with_done u n)))
