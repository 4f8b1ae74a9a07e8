-- ===== src/Registry.antt =====
-- The parser context and its connections by id: `parser_create`, `parser_connect`,
-- `parser_connection_close`, `parser_destroy`, the `context_by_id_…` hash map, and the two calls
-- that read a connection (http-parser/src/parser.c). Connections live at addresses, and a bucket is
-- the list of the addresses of its queue. There is one parser context, to which every connection's
-- `parser_ctx` points. Addresses are not used again. `malloc` and `calloc` succeed.
pub mod Buckets
pub mod Lookup
pub mod Attach
pub mod Connect
pub mod Close
pub mod Reach
pub mod Calls
pub mod Interface
pub mod Clients
pub mod Feeds
mod Tests
use http_library.Prelude.{
  ℕ, zero, suc, ◌+◌, ◌%◌, Bool, true, false, Option, none, some, List, [], ◌∷◌, ◌==◌, if◌then◌else◌,
  codes,
}
use http_library.Memory.{use_after_free, Run, ok, fault, ◌>>=◌, ◌>>◌}
use http_library.HttpParser.{HttpParser}
use http_library.Zlib.{Zlib}
use http_library.Session.{
  Callbacks, identity, ConnectionContext, error_text, parser_ok, parser_already_connected_error,
  parser_null_pointer_error,
}
use http_library.Session.Handlers.{parser_reset}

abbrev pub hash_size : ℕ
hash_size = 63

-- `parser_context`, with the blocks of the connections and the next address to be given out
pub record ParserContext (P Z World : Type 0) : Type 0 where
  pub cells : ℕ → Option (ConnectionContext P Z World)
  pub next : ℕ
  pub buckets : ℕ → List ℕ
  pub initialized : Bool

-- a function with one value changed
abbrev pub update {ℓ} : {A : Type ℓ} → (ℕ → A) → ℕ → A → ℕ → A
update f i x j = if j == i then x else f j

abbrev pub remove_address : ℕ → List ℕ → List ℕ
remove_address a [] = []
remove_address a (b ∷ bs) = if b == a then bs else b ∷ remove_address a bs

module _ {P Z World : Type 0} where
  abbrev pub contents : Option (ConnectionContext P Z World) → Run (ConnectionContext P Z World)
  contents none = fault use_after_free
  contents (some c) = ok c

  -- The walk over a bucket for an id.
  unfoldable pub walk : (ℕ → Option (ConnectionContext P Z World)) → ℕ → List ℕ → Run (Option ℕ)
  walk cells id [] = ok none
  walk cells id (a ∷ rest) = do
    c ← contents (cells a)
    if c.id == id then ok (some a) else walk cells id rest

  unfoldable pub context_by_id_init : ParserContext P Z World → ParserContext P Z World
  context_by_id_init s = record s { buckets = λ i. [] }

  unfoldable pub context_by_id_get :
      ParserContext P Z World → ℕ → Run (Option ℕ × ParserContext P Z World)
  unfolding context_by_id_init
  context_by_id_get s id = do
    let t = if s.initialized then s else record (context_by_id_init s) { initialized = true }
    found ← walk t.cells id (t.buckets (id % hash_size))
    ok (found, t)

  unfoldable pub context_by_id_add : ParserContext P Z World → ℕ → Run (ParserContext P Z World)
  context_by_id_add s a = do
    c ← contents (s.cells a)
    let i = c.id % hash_size
    ok (record s { buckets = update s.buckets i (a ∷ s.buckets i) })

  unfoldable pub context_by_id_remove :
      ParserContext P Z World → ℕ → Run (Option ℕ × ParserContext P Z World)
  context_by_id_remove s id = do
    let i = id % hash_size
    found ← walk s.cells id (s.buckets i)
    elim found [
      | none ↦ ok (none, s)
      | some a ↦
          ok (some a, record s { buckets = update s.buckets i (remove_address a (s.buckets i)) })
    ]

  -- `calloc` of the parser context
  abbrev pub empty_context : ParserContext P Z World
  empty_context = record { cells = λ a. none; next = 0; buckets = λ i. []; initialized = false }

  -- with what is written to `*p_parser_ctx`, where that pointer is not `NULL`
  unfoldable pub parser_create : Bool → ℕ × Option (ParserContext P Z World)
  parser_create false = (parser_null_pointer_error, none)
  parser_create true = (0, some empty_context)

  -- A change of the block at an address.
  unfoldable pub store :
      ParserContext P Z World → ℕ → Option (ConnectionContext P Z World) → ParserContext P Z World
  store s a c = record s { cells = update s.cells a c }

  unfoldable pub parser_connection_close :
      ParserContext P Z World → ℕ → Run (ℕ × ParserContext P Z World)
  parser_connection_close s a = do
    c ← contents (s.cells a)
    (_, t) ← context_by_id_remove s c.id
    ok (0, store t a none)

  -- `TAILQ_FOREACH` over a bucket, which reads the next address from the block that was closed
  unfoldable pub close_all : List ℕ → ParserContext P Z World → Run (ParserContext P Z World)
  close_all [] s = ok s
  close_all (a ∷ rest) s = do
    (_, t) ← parser_connection_close s a
    contents (t.cells a)
    close_all rest t

  -- the buckets from `i` on, `n` of them
  unfoldable pub close_buckets : ℕ → ℕ → ParserContext P Z World → Run (ParserContext P Z World)
  close_buckets zero i s = ok s
  close_buckets (suc n) i s = do t ← close_all (s.buckets i) s; close_buckets n (suc i) t

  unfoldable pub parser_destroy : ParserContext P Z World → Run (ParserContext P Z World)
  parser_destroy s = if s.initialized then close_buckets hash_size 0 s else ok s

  unfoldable pub connection_get_id : ParserContext P Z World → ℕ → Run ℕ
  connection_get_id s a = do c ← contents (s.cells a); ok c.id

  unfoldable pub connection_get_error_message : ParserContext P Z World → ℕ → Run (List ℕ)
  connection_get_error_message s a = do c ← contents (s.cells a); ok c.error_message

  -- `set_error` on the connection at an address
  abbrev pub set_error_at :
      ParserContext P Z World → ℕ → Option (List ℕ) → Run (ParserContext P Z World)
  set_error_at s a msg = do
    c ← contents (s.cells a)
    ok (store s a (some (record c { error_message = error_text msg })))

  -- `p_context` at the end of `parser_connect`, with what is written to it
  abbrev pub connect_result :
      Bool → ℕ → ParserContext P Z World → Run (ℕ × Option ℕ × ParserContext P Z World)
  connect_result true a s = ok (parser_ok, some a, s)
  connect_result false a s = do
    t ← set_error_at s a (some (codes "p_context is NULL"))
    ok (parser_null_pointer_error, none, t)

module _ {P Z World : Type 0} ⦃http : HttpParser P⦄ ⦃zlib : Zlib Z⦄ where
  -- `malloc` and `memset` of the connection, with the fields that are set before `parser_reset`;
  -- `parser` is what the new block of the parser holds
  abbrev pub new_context : P → ℕ → Callbacks World → ConnectionContext P Z World
  new_context parser id callbacks = record {
    id = id;
    error_message = [];
    body_callback_error = 0;
    callbacks = callbacks;
    parser = parser;
    message = none;
    done = 0;
    in_field = false;
    have_body = false;
    body_started = false;
    need_decode = 0;
    content_encoding = identity;
    decode_in_buffer = none;
    decode_out_buffer = none;
    avail_in = 0;
    zlib_stream = zlib.zeroed;
  }

  -- `parser_reset` on the connection at an address
  abbrev pub reset_at : World → ParserContext P Z World → ℕ → Run (ParserContext P Z World)
  reset_at world s a = do
    c ← contents (s.cells a)
    t ← parser_reset (record { context = c; world = world })
    ok (store s a (some t.context))

  -- the connection for a new id; the last result is what is written to `*p_context`
  unfoldable pub connect_new :
      P
      → World
      → ParserContext P Z World
      → ℕ
      → Callbacks World
      → Bool
      → Run (ℕ × Option ℕ × ParserContext P Z World)
  connect_new parser world s id callbacks wanted = do
    let a = s.next
    let t = store (record s { next = suc a }) a (some (new_context parser id callbacks))
    added ← context_by_id_add t a
    u ← reset_at world added a
    connect_result wanted a u

  -- `wanted` tells that `p_context` is not `NULL`. The user's world is what `parser_reset` runs in.
  unfoldable pub parser_connect :
      P
      → World
      → ParserContext P Z World
      → ℕ
      → Callbacks World
      → Bool
      → Run (ℕ × Option ℕ × ParserContext P Z World)
  unfolding connect_new
  parser_connect parser world s id callbacks wanted = do
    (found, t) ← context_by_id_get s id
    elim found [
      | some a ↦ do
        u ← set_error_at t a (some (codes "Already connected"))
        ok (parser_already_connected_error, none, u)
      | none ↦ connect_new parser world t id callbacks wanted
    ]
