-- ===== src/Registry/Clients.antt =====
-- A client of the parser's interface (http-parser/src/parser.h), which keeps the pointers that its
-- connects returned, by their ids.
use http_library.Prelude.{
  ℕ, ◌≡◌, refl, sym, ap, ◌∙◌, Bool, true, false, ◌++◌, Option, none, some, List, [], ◌∷◌, ◌==◌,
  if◌then◌else◌, Option-cases, inl, inr,
}
use http_library.Memory.{Fault, Run, ok, fault, ◌>>=◌}
use http_library.HttpParser.{HttpParser}
use http_library.Zlib.{Zlib}
use http_library.Session.{Callbacks, Direction}
use http_library.Registry.{ParserContext, empty_context, update, parser_create}
use http_library.Registry.Buckets.{find}
use http_library.Registry.Lookup.{lookup, IsWellFormed}
use http_library.Registry.Reach.{empty_context-IsWellFormed}
use http_library.Registry.Interface.{
  ParserApi, IsLike, IsLikeRun, IsParserApi, parser_api, parser_api-IsParserApi,
}

-- What a client asks for a connection, by its id.
pub data Request (Block World : Type 0) : Type 0 where
  connection_made : Block → ℕ → Callbacks World → Request Block World
  input_given : ℕ → Direction → List ℕ → Request Block World
  side_left : ℕ → Direction → Request Block World
  connection_closed : ℕ → Request Block World

pub record Client (C World : Type 0) : Type 0 where
  pub parser : C
  pub world : World
  pub pointers : ℕ → Option ℕ

abbrev pub is_input : {Block World : Type 0} → Request Block World → Bool
is_input (input_given id side bytes) = true
is_input _ = false

module _ {C World : Type 0} where
  abbrev pub moved : Client C World → Run (ℕ × C × World) → Run (Client C World)
  moved client (ok (r, c, w)) = ok (record client { parser = c; world = w })
  moved client (fault e) = fault e

  -- A request for an id that has no connection is dropped.
  abbrev pub with_pointer :
      Option ℕ → Client C World → (ℕ → Run (Client C World)) → Run (Client C World)
  with_pointer none client k = ok client
  with_pointer (some a) client k = k a

module _ {C Block World : Type 0} (api : ParserApi C Block World) where
  unfoldable pub ask : Request Block World → Client C World → Run (Client C World)
  ask (connection_made block id callbacks) client = do
    (r, pointer, c) ← api.connect block client.world client.parser id callbacks true
    ok (record client {
      parser = c;
      pointers = if r == 0 then update client.pointers id pointer else client.pointers;
    })
  ask (input_given id direction bytes) client =
      with_pointer (client.pointers id) client
        (λ a. moved client (api.input client.parser a direction bytes client.world))
  ask (side_left id direction) client =
      with_pointer (client.pointers id) client
        (λ a. moved client (api.disconnect client.parser a direction client.world))
  ask (connection_closed id) client = with_pointer (client.pointers id) client (λ a. do
    (_, c) ← api.connection_close client.parser a
    ok (record client { parser = c; pointers = update client.pointers id none }))

  unfoldable pub ask_all : List (Request Block World) → Client C World → Run (Client C World)
  ask_all [] client = ok client
  ask_all (request ∷ requests) client = do next ← ask request client; ask_all requests next

module _ {C World : Type 0} (IsOpen : C → Type 0) (found : C → ℕ → Option ℕ) where
  -- The client's pointers are those of the connections that are found.
  pub record IsClient (client : Client C World) : Type 0 where
    pub is_open : IsOpen client.parser
    pub agree : (n : ℕ) → client.pointers n ≡ found client.parser n

  -- A step that leads to such a client, or that breaks off, where it is an input.
  pub data IsAsked (input : Bool) : Run (Client C World) → Type 0 where
    answered : {client : Client C World} → IsClient client → IsAsked input (ok client)
    broken : {e : Fault} → input ≡ true → IsAsked input (fault e)

  -- A run of `requests` from `client` that leads to such a client; or that breaks off, in an input
  -- which such a client gives behind all the requests in front of it.
  pub data IsClientRun {Block : Type 0} (api : ParserApi C Block World)
      (requests : List (Request Block World)) (client : Client C World)
      : Run (Client C World) → Type 0 where
    running : {last : Client C World} → IsClient last → IsClientRun api requests client (ok last)
    input_faulted :
        {e : Fault} (before after : List (Request Block World)) (request : Request Block World)
        (middle : Client C World)
        → requests ≡ before ++ (request ∷ after)
        → is_input request ≡ true
        → ask_all api before client ≡ ok middle
        → IsClient middle
        → ask api request middle ≡ fault e
        → IsClientRun api requests client (fault e)

  with_pointer-IsAsked :
      (input : Bool) (pointer : Option ℕ) (client : Client C World) (k : ℕ → Run (Client C World))
      → IsClient client
      → ((a : ℕ) → pointer ≡ some a → IsAsked input (k a))
      → IsAsked input (with_pointer pointer client k)
  with_pointer-IsAsked input none client k h next = answered h
  with_pointer-IsAsked input (some a) client k h next = next a refl

  like-IsClient :
      (client : Client C World) (d : C) (w : World)
      → IsClient client
      → IsLike IsOpen found client.parser d
      → IsClient (record client { parser = d; world = w })
  like-IsClient client d w h like = record {
    is_open = like.is_open;
    agree = λ n. h.agree n ∙ sym (like.same n);
  }

  moved-IsAsked :
      (client : Client C World) (r : Run (ℕ × C × World))
      → IsClient client
      → IsLikeRun IsOpen found client.parser r
      → IsAsked true (moved client r)
  moved-IsAsked client (ok (r, c, w)) h like = answered (like-IsClient client c w h like)
  moved-IsAsked client (fault e) h like = broken refl

  -- A client whose pointer for an id is the one that is found there.
  pointed-IsClient :
      (client : Client C World) (d : C) (id : ℕ) (pointer : Option ℕ)
      → IsClient client
      → IsOpen d
      → ((n : ℕ) → found d n ≡ (if n == id then pointer else found client.parser n))
      → IsClient (record client { parser = d; pointers = update client.pointers id pointer })
  pointed-IsClient client d id pointer h opened same = record {
    is_open = opened;
    agree = λ n. ap (λ p. if n == id then pointer else p) (h.agree n) ∙ sym (same n);
  }

  module _ {Block : Type 0} (api : ParserApi C Block World)
      (laws : IsParserApi IsOpen found api) where
    connect-IsAsked :
        (block : Block) (id : ℕ) (callbacks : Callbacks World) (client : Client C World)
        → IsClient client
        → IsAsked false (ask api (connection_made block id callbacks) client)
    unfolding ask
    connect-IsAsked block id callbacks client h = elim (Option-cases (found client.parser id)) [
      | inl absent ↦
          let (a, d, e, opened, same) =
            laws.connect_new block client.world client.parser id callbacks h.is_open absent in
          rw e (answered (pointed-IsClient client d id (some a) h opened same))
      | inr (a, there) ↦
          let (d, e, like) =
            laws.connect_again block client.world client.parser id a callbacks h.is_open there in
          rw e (answered (like-IsClient client d client.world h like))
    ]

    ask-IsAsked :
        (request : Request Block World) (client : Client C World)
        → IsClient client
        → IsAsked (is_input request) (ask api request client)
    unfolding ask
    ask-IsAsked (connection_made block id callbacks) client h =
        connect-IsAsked block id callbacks client h
    ask-IsAsked (input_given id d bytes) client h =
        with_pointer-IsAsked true (client.pointers id) client _ h (λ a e.
          moved-IsAsked client (api.input client.parser a d bytes client.world) h
            (laws.input client.parser id a d bytes client.world h.is_open (sym (h.agree id) ∙ e)))
    ask-IsAsked (side_left id d) client h =
        with_pointer-IsAsked false (client.pointers id) client _ h (λ a e.
          let (r, c, w, done, like) =
            laws.disconnect client.parser id a d client.world h.is_open (sym (h.agree id) ∙ e) in
          rw done (answered (like-IsClient client c w h like)))
    ask-IsAsked (connection_closed id) client h =
        with_pointer-IsAsked false (client.pointers id) client _ h (λ a e.
          let (d, done, opened, same) =
            laws.connection_close client.parser id a h.is_open (sym (h.agree id) ∙ e) in
          rw done (answered (pointed-IsClient client d id none h opened same)))

    -- A step in front of a run.
    before-IsClientRun :
        (request : Request Block World) (requests : List (Request Block World))
        (client next : Client C World) (r : Run (Client C World))
        → ask api request client ≡ ok next
        → IsClientRun api requests next r
        → IsClientRun api (request ∷ requests) client r
    unfolding ask_all
    before-IsClientRun request requests client next r e (running h) = running h
    before-IsClientRun request requests client next r e
          (input_faulted before after input middle split is ran h broke) =
        input_faulted (request ∷ before) after input middle (ap (λ rs. request ∷ rs) split) is
          (rw e ran) h broke

    asked-IsClientRun :
        (request : Request Block World) (requests : List (Request Block World))
        (client : Client C World) (r : Run (Client C World))
        → IsClient client
        → ask api request client ≡ r
        → IsAsked (is_input request) r
        → ((next : Client C World)
            → IsClient next
            → IsClientRun api requests next (ask_all api requests next))
        → IsClientRun api (request ∷ requests) client (r >>= ask_all api requests)
    unfolding ask_all
    asked-IsClientRun request requests client (ok next) h e (answered g) rest =
        before-IsClientRun request requests client next _ e (rest next g)
    asked-IsClientRun request requests client (fault x) h e (broken is) rest =
        input_faulted [] requests request client refl is refl h e

    -- With any implementation of the interface.
    pub ask_all-IsClientRun :
        (requests : List (Request Block World)) (client : Client C World)
        → IsClient client
        → IsClientRun api requests client (ask_all api requests client)
    unfolding ask_all
    ask_all-IsClientRun [] client h = running h
    ask_all-IsClientRun (request ∷ requests) client h =
        asked-IsClientRun request requests client (ask api request client) h refl
          (ask-IsAsked request client h) (λ next g. ask_all-IsClientRun requests next g)

module _ {P Z World : Type 0} ⦃http : HttpParser P⦄ ⦃zlib : Zlib Z⦄ where
  -- A client of a new parser context that has no pointers.
  abbrev pub new_client : World → Client (ParserContext P Z World) World
  new_client world = record { parser = empty_context; world = world; pointers = λ n. none }

  -- Any sequence of connects, inputs, disconnects and closes, by a client that keeps the pointers of
  -- its connects by their ids, starts on what `parser_create` makes and asks only for ids that have a
  -- pointer: either it runs to its end, where the parser context is well-formed, and finds for every id
  -- the client's pointer, or nothing where the client has none; or it breaks off with the fault of one
  -- of its inputs, and all that came before that input ran to such a context and such a client.
  pub parser_api-IsClientRun :
      (requests : List (Request P World)) (world : World)
      → (parser_create {P = P} {Z = Z} {World = World} true ≡ (0, some empty_context))
        × IsClientRun IsWellFormed lookup
            (parser_api {P = P} {Z = Z})
            requests
            (new_client world)
            (ask_all (parser_api {P = P} {Z = Z}) requests (new_client world))
  unfolding parser_create find
  parser_api-IsClientRun requests world = (
    refl,
    ask_all-IsClientRun IsWellFormed lookup parser_api parser_api-IsParserApi requests
        (new_client world) (record { is_open = empty_context-IsWellFormed; agree = λ n. refl }),
  )
