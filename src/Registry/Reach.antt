-- ===== src/Registry/Reach.antt =====
-- The parser contexts that calls of the interface lead to (http-parser/src/parser.c).
use mathlib.Core.Path.{subst}
use http_library.Prelude.{
  ℕ, ◌≡◌, refl, sym, ap, ◌∙◌, Bool, true, Option, none, some, Option-cases, inl, inr,
}
use http_library.Memory.{Run, ok, fault}
use http_library.HttpParser.{HttpParser}
use http_library.Zlib.{Zlib}
use http_library.Session.{Callbacks}
use http_library.Registry.{
  ParserContext, empty_context, parser_create, parser_connect, parser_connection_close,
}
use http_library.Registry.Lookup.{lookup, IsWellFormed}
use http_library.Registry.Connect.{parser_connect-IsConnected, parser_connect-lookup}
use http_library.Registry.Close.{parser_connection_close-lookup}

module _ {P Z World : Type 0} ⦃http : HttpParser P⦄ ⦃zlib : Zlib Z⦄ where
  -- The contexts behind `parser_create`, any connects, and closes of connections that an id finds.
  pub data IsReachable : ParserContext P Z World → Type 0 where
    created :
        {s : ParserContext P Z World} {code : ℕ}
        → parser_create true ≡ (code, some s)
        → IsReachable s
    connected :
        {s t : ParserContext P Z World} {code : ℕ} {pointer : Option ℕ} (parser : P) (world : World)
        (id : ℕ) (callbacks : Callbacks World) (wanted : Bool)
        → IsReachable s
        → parser_connect parser world s id callbacks wanted ≡ ok (code, pointer, t)
        → IsReachable t
    closed :
        {s t : ParserContext P Z World} {code : ℕ} (id a : ℕ)
        → IsReachable s
        → lookup s id ≡ some a
        → parser_connection_close s a ≡ ok (code, t)
        → IsReachable t

  pub empty_context-IsWellFormed : IsWellFormed {P = P} {Z = Z} {World = World} empty_context
  empty_context-IsWellFormed = record {
    buckets = λ i. tt;
    unused = λ a l. refl;
    unopened = λ e i. refl;
  }

  abbrev state_or :
      {A : Type 0}
      → ParserContext P Z World
      → Run (A × ParserContext P Z World)
      → ParserContext P Z World
  state_or s (ok (a, t)) = t
  state_or s (fault e) = s

  abbrev state_or2 :
      ParserContext P Z World
      → Run (ℕ × Option ℕ × ParserContext P Z World)
      → ParserContext P Z World
  state_or2 s (ok (a, b, t)) = t
  state_or2 s (fault e) = s

  abbrev option_or :
      ParserContext P Z World → Option (ParserContext P Z World) → ParserContext P Z World
  option_or s none = s
  option_or s (some t) = t

  -- Every parser context that `parser_create`, connects, and closes of connections that an id finds
  -- lead to is well-formed: its buckets hold live connections of different ids, each in the bucket of
  -- its id.
  pub IsReachable-IsWellFormed : (s : ParserContext P Z World) → IsReachable s → IsWellFormed s
  unfolding parser_create
  IsReachable-IsWellFormed s (created e) =
      let same : empty_context ≡ s = ap (λ r. option_or s r.1) e in
      subst IsWellFormed same empty_context-IsWellFormed
  IsReachable-IsWellFormed t (connected {s = s} parser world id callbacks wanted r e) =
      let h = IsReachable-IsWellFormed s r in
      elim (Option-cases (lookup s id)) [
        | inl absent ↦
            let (a, u, run, _, c) =
              parser_connect-IsConnected parser world id callbacks s wanted h absent in
            subst IsWellFormed (ap (state_or2 s) (sym run ∙ e)) c.formed
        | inr (a, there) ↦
            let (u, run, _, formed) =
              parser_connect-lookup parser world id callbacks s wanted a h there in
            subst IsWellFormed (ap (state_or2 s) (sym run ∙ e)) formed
      ]
  IsReachable-IsWellFormed t (closed {s = s} id a r there e) =
      let h = IsReachable-IsWellFormed s r in
      let (u, run, _, _, formed) = parser_connection_close-lookup s id a h there in
      subst IsWellFormed (ap (state_or s) (sym run ∙ e)) formed
