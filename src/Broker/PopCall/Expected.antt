-- ===== src/Broker/PopCall/Expected.antt =====
-- What a caller is to be answered by PopCall (lib/dynamic/broker_receive.cc), without the bytes and
-- without the code of PopCall.
use pop_cpp.Base.{
  ℕ, zero, suc, ◌+◌, ◌%◌, ◌^◌, ◌-◌, ◌≡◌, Bool, true, false, List, [], ◌∷◌, ◌++◌, length, All,
  Option, none, some, if◌then◌else◌,
}
use pop_cpp.Buffer.Types.{MessageHeader, Item, Scalar}
use pop_cpp.Buffer.Text.Laws.{IsText}
use pop_cpp.Exception.Codes.{codes}
use pop_cpp.Broker.{Request, is_sync}
use pop_cpp.Broker.PopCall.{Object, Site}

-- The answer as a value: refused, done with the object, the encoding and the header and the items
-- that are sent back, or the end of the process.
pub data Answer : Type 0 where
  refused : Answer
  done : Option Object → ℕ → Option (MessageHeader × List Item) → Answer
  ended : Answer

-- The names behind the first, each with a blank before it.
abbrev pub preceded : List (List ℕ) → List ℕ
preceded [] = []
preceded (s ∷ ss) = 32 ∷ (s ++ preceded ss)

abbrev pub joined : List (List ℕ) → List ℕ
joined [] = []
joined (s ∷ ss) = s ++ preceded ss

-- The encoding that is chosen for a name: the first of the name, or none if there is none.
abbrev pub IsChosen : List ℕ → List (List ℕ) → Option ℕ → Type 0
IsChosen name ss none = All (λ s. ¬ (s ≡ name)) ss
IsChosen name ss (some i) =
    (before : List (List ℕ)) × (after : List (List ℕ)) × (ss ≡ before ++ name ∷ after)
    × (length before ≡ i)
    × All (λ s. ¬ (s ≡ name)) before

-- An invocation or a request is there.
abbrev pub is_active : ℕ → ℕ → Bool
is_active zero zero = false
is_active zero (suc n) = true
is_active (suc m) n = true

module _ (site : Site) (r : Request) where
  -- Only a synchronous call is answered.
  abbrev pub answered : Option Object → ℕ → MessageHeader → List Item → Answer
  answered o f h items = done o f (if is_sync r then some (h, items) else none)

  -- The header of a response with this name, in the buffer of the request.
  abbrev pub named_response : List ℕ → MessageHeader
  named_response name = record r.buf.header { type = 1; method_name = some name }

  -- The answer to BindStatus is a request in form.
  abbrev pub bind_header : MessageHeader
  bind_header = record r.buf.header {
    type = 0;
    class_id = 0;
    method_id = 0;
    semantics = 1;
    method_name = some (codes "BindStatus");
  }

  abbrev pub one_int : ℕ → List Item
  one_int x = Item.scalars Scalar.int (x ∷ []) ∷ []

  abbrev pub one_bool : Bool → List Item
  one_bool b = Item.bools (b ∷ []) ∷ []

  abbrev pub counted : List ℕ → (ℕ → ℕ) → Option Object → Answer
  counted name count none = refused
  counted name count (some o) =
      answered (some (record o { refcount = count (Object.refcount o) })) site.factory
        (named_response name) (one_int (count (Object.refcount o)))

  abbrev pub chosen : Option ℕ → Answer
  chosen none = answered site.obj site.factory (named_response (codes "Encoding")) (one_bool false)
  chosen (some i) = answered site.obj i (named_response (codes "Encoding")) (one_bool true)

  abbrev pub killed_if : Bool → Answer
  killed_if true = ended
  killed_if false = done site.obj site.factory none

  abbrev pub killed : Option Object → Answer
  killed none = done site.obj site.factory none
  killed (some o) = killed_if (Object.can_kill o)

  abbrev pub alive : Option Object → Answer
  alive none = refused
  alive (some o) =
      answered (some o) site.factory (named_response (codes "ObjectActive"))
        (one_bool (is_active site.instance_count site.queue_size))

  -- The six calls by their number, where `found` is the encoding for the name that the call 3 asks
  -- for, and `binding` are the items of the answer to the call 0.
  abbrev pub expected : ℕ → Option ℕ → List Item → Answer
  expected zero found binding = answered site.obj site.factory bind_header binding
  expected (suc zero) found binding = counted (codes "AddRef") (λ n. (n + 1) % 2 ^ 32) site.obj
  expected (suc (suc zero)) found binding =
      counted (codes "DecRef") (λ n. (n + (2 ^ 32 - 1)) % 2 ^ 32) site.obj
  expected (suc (suc (suc zero))) found binding = chosen found
  expected (suc (suc (suc (suc zero)))) found binding = killed site.obj
  expected (suc (suc (suc (suc (suc zero))))) found binding = alive site.obj
  expected _ found binding = refused

-- The texts of the site can be sent.
pub record IsSite (site : Site) : Type 0 where
  pub platform_text : IsText site.platform
  pub encodings_text : IsText (joined site.factories)
