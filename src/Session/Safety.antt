-- ===== src/Session/Safety.antt =====
-- Runs of a connection without undefined behaviour (http-parser/src/parser.c): what is asked of the
-- user, and the invariant of a connection.
pub mod Heads
pub mod Lines
pub mod Runs
use http_library.Prelude.{
  ℕ, suc, ◌+◌, ◌<◌, ◌≤◌, ◌≡◌, ◌⊎◌, Bool, true, false, Option, none, some, List, [], ◌∷◌, length,
}
use http_library.Memory.{Run, ok, null}
use http_library.Memory.Strings.{IsText, c_string}
use http_library.Message.{HttpMessage, u32, exact}
use http_library.Message.View.{MessageView, IsCleanView, represent, lookup_first}
use http_library.Zlib.{z_ok, Zlib}
use http_library.Session.{Callbacks, identity, Session}
use http_library.Session.Inflate.{content_encoding_name}
use http_library.Session.Inflates.{step}
use http_library.Session.Fields.{building}
use http_library.Session.Protocol.{Phase, idle, first_line, in_name, in_value, in_body}

module _ {World : Type 0} where
  -- What the callback for a head leaves of the message of `v`: a message whose texts stand in blocks
  -- of their own, with at most `extra` header fields more.
  abbrev pub Given :
      (MessageView → World → Type 0) → ℕ → MessageView → ℕ × Option HttpMessage × World → Type 0
  Given knows extra v (skip, message, world) =
      (u : MessageView) × (message ≡ some (represent u))
      × IsCleanView u
      × (length u.headers ≤ length v.headers + extra)
      × knows u world

  -- A callback for the start of a body does not ask for decoding.
  abbrev pub Starts : (MessageView → World → Type 0) → (ℕ → World → ℕ × World) → Type 0
  Starts knows started =
      (id : ℕ) (v : MessageView) (w : World)
      → knows v w
      → ((started id w).0 ≡ 0) × knows v (started id w).1

  abbrev pub Receives : (MessageView → World → Type 0) → (ℕ → List ℕ → World → World) → Type 0
  Receives knows body_data =
      (id : ℕ) (bytes : List ℕ) (v : MessageView) (w : World)
      → knows v w
      → knows v (body_data id bytes w)

  -- A user that leaves messages of clean texts, with at most `extra` header fields more, and takes
  -- bodies as they are. `knows v w` is what its world knows of the message of `v` while its body is
  -- read.
  pub record IsGentle (c : Callbacks World) (knows : MessageView → World → Type 0) (extra : ℕ)
      : Type 0 where
    pub request :
        (id : ℕ) (v : MessageView) (w : World)
        → IsCleanView v
        → Given knows extra v (c.http_request_received id (some (represent v)) w)
    pub response :
        (id : ℕ) (v : MessageView) (w : World)
        → IsCleanView v
        → Given knows extra v (c.http_response_received id (some (represent v)) w)
    pub request_started : Starts knows c.http_request_body_started
    pub response_started : Starts knows c.http_response_body_started
    pub request_data : Receives knows c.http_request_body_data
    pub response_data : Receives knows c.http_response_body_data

-- The message of `v`, with at most `n` header fields and no name open.
pub record Stands (n : ℕ) (v : MessageView) (message : Option HttpMessage) (in_field : Bool)
    : Type 0 where
  pub here : message ≡ some (represent v)
  pub clean : IsCleanView v
  pub within : length v.headers ≤ n
  pub closed : in_field ≡ false

-- One more header field than those of `v`, at most `n` in all: with a name and no value yet, and with
-- both.
pub record Names (n : ℕ) (v : MessageView) (name : List ℕ) (message : Option HttpMessage)
    (in_field : Bool) : Type 0 where
  pub here : message ≡ some (building v (c_string name) null)
  pub clean : IsCleanView v
  pub text : IsText name
  pub room : suc (length v.headers) < u32
  pub within : suc (length v.headers) ≤ n
  pub unfinished : in_field ≡ true

pub record Values (n : ℕ) (v : MessageView) (name value : List ℕ) (message : Option HttpMessage)
    (in_field : Bool) : Type 0 where
  pub here : message ≡ some (building v (c_string name) (c_string value))
  pub clean : IsCleanView v
  pub text : IsText name
  pub value_text : IsText value
  pub room : suc (length v.headers) < u32
  pub within : suc (length v.headers) ≤ n
  pub closed : in_field ≡ false

module _ {World : Type 0} (knows : MessageView → World → Type 0) where
  -- The message and the flag `in_field` in each phase.
  abbrev pub Shape : Phase → Option HttpMessage → Bool → World → Type 0
  Shape idle m b w = b ≡ false
  Shape (first_line n) m b w = (v : MessageView) × Stands n v m b
  Shape (in_name n) m b w = (v : MessageView) × (name : List ℕ) × Names n v name m b
  Shape (in_value n) m b w =
      (v : MessageView) × (name : List ℕ) × (value : List ℕ) × Values n v name value m b
  Shape (in_body n) m b w = (v : MessageView) × Stands n v m b × knows v w

module _ {P Z World : Type 0} (c : Callbacks World) (knows : MessageView → World → Type 0) where
  -- The invariant of a connection whose parser stands in `phase`.
  pub record IsSound (phase : Phase) (s : Session P Z World) : Type 0 where
    pub shape : Shape knows phase s.message s.in_field s.world
    pub plain : s.content_encoding ≡ identity
    pub own : s.callbacks ≡ c

  -- A callback that returns, and leaves the invariant of a phase and the parser `p`.
  pub record Steps (phase : Phase) (p : P) (r : Run (ℕ × Session P Z World)) : Type 0 where
    pub answer : ℕ
    pub after : Session P Z World
    pub returns : r ≡ ok (answer, after)
    pub sound : IsSound phase after
    pub parser : after.parser ≡ p
