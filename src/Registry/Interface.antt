-- ===== src/Registry/Interface.antt =====
-- The parser's interface of http-parser/src/parser.h, over a type of parser contexts: the operations,
-- what they promise of the connections that ids find, and the implementation of
-- http-parser/src/parser.c. A pointer to a connection is its address. The world is what the user's
-- callbacks act on; `Block` is what the memory of a new Node.js parser holds.
use http_library.Prelude.{ℕ, ◌≡◌, refl, Bool, true, Option, none, some, List, ◌==◌, if◌then◌else◌}
use http_library.Memory.{Run, ok, fault}
use http_library.HttpParser.{HttpParser}
use http_library.Zlib.{Zlib}
use http_library.Session.{Callbacks, Direction, parser_already_connected_error}
use http_library.Registry.{
  ParserContext, empty_context, parser_create, parser_destroy, parser_connect,
  parser_connection_close, connection_get_id, connection_get_error_message,
}
use http_library.Registry.Buckets.{find}
use http_library.Registry.Lookup.{lookup, IsWellFormed}
use http_library.Registry.Connect.{parser_connect-IsConnected, parser_connect-lookup}
use http_library.Registry.Close.{parser_connection_close-lookup}
use http_library.Registry.Reach.{empty_context-IsWellFormed}
use http_library.Registry.Calls.{
  input_at, disconnect_at, Stays, input_at-Stays, disconnect_at-IsSame,
}

pub record ParserApi (C Block World : Type 0) : Type 0 where
  -- whether `p_parser_ctx` is not `NULL`, and what is written there
  pub create : Bool → ℕ × Option C
  pub destroy : C → Run C
  -- with whether `p_context` is not `NULL`, and what is written there
  pub connect : Block → World → C → ℕ → Callbacks World → Bool → Run (ℕ × Option ℕ × C)
  pub disconnect : C → ℕ → Direction → World → Run (ℕ × C × World)
  pub input : C → ℕ → Direction → List ℕ → World → Run (ℕ × C × World)
  pub connection_close : C → ℕ → Run (ℕ × C)

-- The access to a connection's structure.
pub record ConnectionApi (C : Type 0) : Type 0 where
  pub get_id : C → ℕ → Run ℕ
  pub get_error_message : C → ℕ → Run (List ℕ)

module _ {C : Type 0} (IsOpen : C → Type 0) (found : C → ℕ → Option ℕ) where
  -- An open parser context with the connections of another.
  pub record IsLike (c d : C) : Type 0 where
    pub is_open : IsOpen d
    pub same : (n : ℕ) → found d n ≡ found c n

  abbrev pub IsLikeRun : {World : Type 0} → C → Run (ℕ × C × World) → Type 0
  IsLikeRun c (ok (r, d, w)) = IsLike c d
  IsLikeRun c (fault e) = Unit

module _ {C Block World : Type 0} (IsOpen : C → Type 0) (found : C → ℕ → Option ℕ) where
  -- What the operations promise, for open contexts and the connections that are found in them.
  pub record IsParserApi (api : ParserApi C Block World) : Type 0 where
    pub create : (c : C) × (api.create true ≡ (0, some c)) × IsOpen c × ((n : ℕ) → found c n ≡ none)
    pub connect_new :
        (block : Block) (world : World) (c : C) (id : ℕ) (callbacks : Callbacks World)
        → IsOpen c
        → found c id ≡ none
        → (a : ℕ) × (d : C) × (api.connect block world c id callbacks true ≡ ok (0, some a, d))
          × IsOpen d
          × ((n : ℕ) → found d n ≡ (if n == id then some a else found c n))
    pub connect_again :
        (block : Block) (world : World) (c : C) (id a : ℕ) (callbacks : Callbacks World)
        → IsOpen c
        → found c id ≡ some a
        → (d : C) × (api.connect block world c id callbacks true
            ≡ ok (parser_already_connected_error, none, d))
          × IsLike IsOpen found c d
    pub disconnect :
        (c : C) (id a : ℕ) (direction : Direction) (world : World)
        → IsOpen c
        → found c id ≡ some a
        → (r : ℕ) × (d : C) × (w : World) × (api.disconnect c a direction world ≡ ok (r, d, w))
          × IsLike IsOpen found c d
    pub input :
        (c : C) (id a : ℕ) (direction : Direction) (bytes : List ℕ) (world : World)
        → IsOpen c
        → found c id ≡ some a
        → IsLikeRun IsOpen found c (api.input c a direction bytes world)
    pub connection_close :
        (c : C) (id a : ℕ)
        → IsOpen c
        → found c id ≡ some a
        → (d : C) × (api.connection_close c a ≡ ok (0, d))
          × IsOpen d
          × ((n : ℕ) → found d n ≡ (if n == id then none else found c n))

module _ {P Z World : Type 0} ⦃http : HttpParser P⦄ ⦃zlib : Zlib Z⦄ where
  -- The functions of http-parser/src/parser.c.
  abbrev pub parser_api : ParserApi (ParserContext P Z World) P World
  parser_api = record {
    create = parser_create;
    destroy = parser_destroy;
    connect = parser_connect;
    disconnect = disconnect_at;
    input = input_at;
    connection_close = parser_connection_close;
  }

  abbrev pub connection_api : ConnectionApi (ParserContext P Z World)
  connection_api = record {
    get_id = connection_get_id;
    get_error_message = connection_get_error_message;
  }

  input-IsLikeRun :
      (c : ParserContext P Z World) (r : Run (ℕ × ParserContext P Z World × World))
      → Stays c r
      → IsLikeRun IsWellFormed lookup c r
  input-IsLikeRun c (ok (r, d, w)) s = record { is_open = s.formed; same = s.found }
  input-IsLikeRun c (fault e) s = tt

  -- The functions of the library keep what the interface promises, for well-formed parser contexts and
  -- the connections that the hash map finds.
  pub parser_api-IsParserApi :
      IsParserApi {C = ParserContext P Z World} {Block = P} {World = World} IsWellFormed lookup
        parser_api
  unfolding parser_create find
  parser_api-IsParserApi = record {
    create = (empty_context, refl, empty_context-IsWellFormed, λ n. refl);
    connect_new = λ block world c id callbacks h absent.
        let (a, d, e, _, k) = parser_connect-IsConnected block world id callbacks c true h absent in
        (a, d, e, k.formed, k.found);
    connect_again = λ block world c id a callbacks h there.
        let (d, e, same, formed) =
          parser_connect-lookup block world id callbacks c true a h there in
        (d, e, record { is_open = formed; same = same });
    disconnect = λ c id a direction world h there.
        let (r, d, w, e, s) = disconnect_at-IsSame c id a direction world h there in
        (r, d, w, e, record { is_open = s.formed; same = s.found });
    input = λ c id a direction bytes world h there.
        input-IsLikeRun c _ (input_at-Stays c id a direction bytes world h there);
    connection_close = λ c id a h there.
        let (d, e, _, found, formed) = parser_connection_close-lookup c id a h there in
        (d, e, formed, found);
  }
