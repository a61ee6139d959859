-- ===== src/Buffer/Header.antt =====
-- pop_message_header (lib/core/buffer.cc, include/core/pop_buffer.h) and the five words that stand
-- for it at the head of a message (Send, Recv and get_load of both buffer classes).
use pop_cpp.Base.{
  ℕ, ◌-◌, ◌^◌, ◌<◌, ◌≡◌, ◌⊎◌, inl, inr, List, [], ◌∷◌, Option, none, some, All, arith, ◌==◌,
  if◌then◌else◌,
}
use pop_cpp.Base.Bytes.{IsWord}
use pop_cpp.Buffer.Types.{MessageHeader}

abbrev pub type_request : ℕ
type_request = 0

abbrev pub type_response : ℕ
type_response = 1

abbrev pub type_exception : ℕ
type_exception = 2

-- The constructors. Each gets the storage that it is made in, since it leaves members unset.
unfoldable pub request_header : MessageHeader → ℕ → ℕ → ℕ → Option (List ℕ) → MessageHeader
request_header storage classid methodid semantics metname = record storage {
  type = type_request;
  class_id = classid;
  method_id = methodid;
  semantics = semantics;
  method_name = metname;
}

unfoldable pub response_header : MessageHeader → Option (List ℕ) → MessageHeader
response_header storage metname = record storage { type = type_response; method_name = metname }

unfoldable pub exception_header : MessageHeader → ℕ → Option (List ℕ) → MessageHeader
exception_header storage code metname = record storage {
  type = type_exception;
  method_name = metname;
  exception = code;
}

-- `type = -1`
unfoldable pub default_header : MessageHeader → MessageHeader
default_header storage = record storage { type = 2 ^ 32 - 1; method_name = none }

-- operator=, for two objects that are not one: what is copied depends on the type.
unfoldable pub assign : MessageHeader → MessageHeader → MessageHeader
assign this dat =
    let base : MessageHeader = record this { type = dat.type; method_name = dat.method_name } in
    if dat.type == type_request
    then record base {
      class_id = dat.class_id;
      method_id = dat.method_id;
      semantics = dat.semantics;
    }
    else if dat.type == type_exception
    then record base { exception = dat.exception }
    else base

-- The words `h[0]` to `h[4]` for a message of `n` bytes, or none for an unknown type.
unfoldable pub header_words : MessageHeader → ℕ → Option (List ℕ)
header_words h n =
    if h.type == type_request
    then some (n ∷ h.type ∷ h.class_id ∷ h.method_id ∷ h.semantics ∷ [])
    else if h.type == type_exception
    then some (n ∷ h.type ∷ h.exception ∷ 0 ∷ 0 ∷ [])
    else if h.type == type_response
    then some (n ∷ h.type ∷ h.class_id ∷ h.method_id ∷ 0 ∷ [])
    else none

-- What the receiver sets from the words behind the size.
unfoldable pub set_words : ℕ → ℕ → ℕ → ℕ → MessageHeader → Option MessageHeader
set_words type h2 h3 h4 this =
    if type == type_request
    then some (record this { type = type; class_id = h2; method_id = h3; semantics = h4 })
    else if type == type_exception
    then some (record this { type = type; exception = h2 })
    else if type == type_response
    then some (record this { type = type; class_id = h2; method_id = h3 })
    else none

-- Two headers that a receiver cannot tell apart: their words are the same.
abbrev pub SameMessage : MessageHeader → MessageHeader → Type 0
SameMessage g h = header_words g 20 ≡ header_words h 20

-- The members are `int`s.
pub record IsHeader (h : MessageHeader) : Type 0 where
  pub type_word : IsWord 4 h.type
  pub class_word : IsWord 4 h.class_id
  pub method_word : IsWord 4 h.method_id
  pub semantics_word : IsWord 4 h.semantics
  pub exception_word : IsWord 4 h.exception

three_types : (t : ℕ) → t < 3 → (t ≡ 0) ⊎ ((t ≡ 1) ⊎ (t ≡ 2))
three_types t h = omega arith

-- A header with one of the three types has five words, the size and the type first, and the
-- receiver gets the same message from them.
pub header_words-cases :
    (h g : MessageHeader) (n : ℕ)
    → IsHeader h
    → IsWord 4 n
    → h.type < 3
    → (a b c : ℕ) × (header_words h n ≡ some (n ∷ h.type ∷ a ∷ b ∷ c ∷ []))
      × All (IsWord 4) (n ∷ h.type ∷ a ∷ b ∷ c ∷ [])
      × (g' : MessageHeader) × (set_words h.type a b c g ≡ some g')
      × SameMessage g' h
unfolding header_words set_words
header_words-cases h g n v w k = elim (three_types h.type k) [
  | inl e ↦ (
    h.class_id,
    h.method_id,
    h.semantics,
    ground arith,
    omega arith,
    record g {
      type = h.type;
      class_id = h.class_id;
      method_id = h.method_id;
      semantics = h.semantics;
    },
    ground arith,
    ground arith,
  )
  | inr (inl e) ↦ (
    h.class_id,
    h.method_id,
    0,
    ground arith,
    omega arith,
    record g { type = h.type; class_id = h.class_id; method_id = h.method_id },
    ground arith,
    ground arith,
  )
  | inr (inr e) ↦ (
    h.exception,
    0,
    0,
    ground arith,
    omega arith,
    record g { type = h.type; exception = h.exception },
    ground arith,
    ground arith,
  )
]

-- An unknown type is not sent.
pub header_words-none : (h : MessageHeader) (n : ℕ) → 2 < h.type → header_words h n ≡ none
unfolding header_words
header_words-none h n k = ground arith

-- A header that stands for the same message as that of an exception announces the same exception.
pub SameMessage-exception :
    (g h : MessageHeader)
    → SameMessage g h
    → h.type ≡ type_exception
    → (g.type ≡ type_exception) × (g.exception ≡ h.exception)
unfolding header_words
SameMessage-exception g h same e = (ground arith, ground arith)
