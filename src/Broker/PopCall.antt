-- ===== src/Broker/PopCall.antt =====
-- PopCall: the calls of every parallel object that the receiving thread serves itself
-- (lib/dynamic/broker_receive.cc), with the counter of references (lib/dynamic/object.cc) and the
-- table of encodings (lib/core/buffer_factory_finder.cc).
pub mod Expected
pub mod Answers
use pop_cpp.Base.{
  ℕ, zero, suc, ◌+◌, ◌^◌, ◌<◌, Bool, true, false, List, [], ◌∷◌, ◌++◌, length, Option, none, some,
  Result, ok, err, ◌>>=◌, ◌==◌, leb, ltb, not, ◌||◌, ◌&&◌, if◌then◌else◌,
}
use pop_cpp.Buffer.Types.{Buffer, MessageHeader, Item, Shape}
use pop_cpp.Buffer.Header.{request_header, response_header, assign}
use pop_cpp.Buffer.Queue.{BufferClass}
use pop_cpp.Buffer.Text.{pack_int, pack_strings, unpack_strings}
use pop_cpp.AccessPoint.{equal_text}
use pop_cpp.Exception.Codes.{codes}
use pop_cpp.Broker.{Request, is_sync, invoke_sync}
use pop_cpp.Broker.Threads.{increment, decrement}

-- The object of the broker: its counter of references, an `int`, and whether its CanKill allows a
-- remote kill.
pub record Object : Type 0 where
  pub refcount : ℕ
  pub can_kill : Bool

unfoldable pub add_ref : Object → Object
add_ref o = record o { refcount = increment o.refcount }

unfoldable pub dec_ref : Object → Object
dec_ref o = record o { refcount = decrement o.refcount }

-- FindFactory: the index of the first encoding of this name.
unfoldable pub find_factory : List ℕ → List (List ℕ) → Option ℕ
find_factory name [] = none
find_factory name (s ∷ ss) =
    let later = find_factory name ss in
    if equal_text s name then some 0 else elim later [ none ↦ none | some i ↦ some (suc i) ]

-- `enclist`: the names with a blank between two of them.
unfoldable pub encoding_list : List (List ℕ) → List ℕ
encoding_list [] = []
encoding_list (s ∷ []) = s
encoding_list (s ∷ t ∷ ss) = s ++ 32 ∷ encoding_list (t ∷ ss)

-- What PopCall reads of its surroundings.
pub record Site : Type 0 where
  pub obj : Option Object
  pub factory : ℕ
  pub factories : List (List ℕ)
  pub platform : List ℕ
  pub instance_count : ℕ
  pub queue_size : ℕ

-- It returns false; or true, with the object, the encoding of the connection and what has been
-- sent; or the process ends.
pub data Outcome : Type 0 where
  refuses : Outcome
  accepts : Option Object → ℕ → Option Buffer → Outcome
  exits : Outcome

-- instanceCount || request_fifo.size()
abbrev pub active : Site → Bool
active site = not (site.instance_count == 0) || not (site.queue_size == 0)

module _ (c : BufferClass) (storage : MessageHeader) (site : Site) where
  -- buf->Reset(); buf->SetHeader(h)
  abbrev pub blank : MessageHeader → Buffer → Buffer
  blank h b = let b' = c.reset b in record b' { header = assign b'.header h }

  abbrev pub response : List ℕ → MessageHeader
  response name = response_header storage (some name)

  abbrev pub send : Option Object → ℕ → Result Buffer → Result Outcome
  send o f r = r >>= λ b. ok (accepts o f (some b))

  unfoldable pub bind_status : Request → Result Outcome
  bind_status r =
      if is_sync r
      then (send site.obj site.factory (
          pack_int c 0
            (blank (request_header storage 0 0 invoke_sync (some (codes "BindStatus"))) r.buf)
          >>= λ b. pack_strings c (site.platform ∷ []) b >>= λ b'.
              pack_strings c (encoding_list site.factories ∷ []) b'))
      else ok (accepts site.obj site.factory none)

  -- AddRef and DecRef, for what `count` makes of the object.
  unfoldable pub ref_call : (Object → Object) → List ℕ → Request → Result Outcome
  ref_call count name r = elim site.obj [
    | none ↦ ok refuses
    | some o ↦
        if is_sync r
        then send (some (count o)) site.factory
            (pack_int c (Object.refcount (count o)) (blank (response name) r.buf))
        else ok (accepts (some (count o)) site.factory none)
  ]

  abbrev pub first_text : List (List ℕ) → List ℕ
  first_text [] = []
  first_text (s ∷ ss) = s

  -- The answer to the negotiation of an encoding: the header is set before the buffer is reset.
  abbrev pub encoding_answer : ℕ → Bool → Request → Buffer → Result Outcome
  encoding_answer f ret r b =
      if is_sync r
      then send site.obj f (
          c.pack (Item.bools (ret ∷ []))
            (c.reset (record b { header = assign b.header (response (codes "Encoding")) })))
      else ok (accepts site.obj f none)

  abbrev pub negotiated : Option ℕ → Request → Buffer → Result Outcome
  negotiated none r b = encoding_answer site.factory false r b
  negotiated (some i) r b = encoding_answer i true r b

  unfoldable pub negotiate : Request → Result Outcome
  negotiate r = unpack_strings c 1 r.buf >>= λ enc.
      negotiated (find_factory (first_text enc.0) site.factories) r enc.1

  unfoldable pub kill : Result Outcome
  kill = elim site.obj [
    | none ↦ ok (accepts site.obj site.factory none)
    | some o ↦ if Object.can_kill o then ok exits else ok (accepts site.obj site.factory none)
  ]

  unfoldable pub object_alive : Request → Result Outcome
  object_alive r = elim site.obj [
    | none ↦ ok refuses
    | some o ↦
        if is_sync r
        then send (some o) site.factory
            (c.pack (Item.bools (active site ∷ [])) (blank (response (codes "ObjectActive")) r.buf))
        else ok (accepts (some o) site.factory none)
  ]

  unfoldable pub pop_call : Request → Result Outcome
  pop_call r =
      if leb 10 r.method_id
      then ok refuses
      else if r.method_id == 0
      then bind_status r
      else if r.method_id == 1
      then ref_call add_ref (codes "AddRef") r
      else if r.method_id == 2
      then ref_call dec_ref (codes "DecRef") r
      else if r.method_id == 3
      then negotiate r
      else if r.method_id == 4
      then kill
      else if r.method_id == 5
      then object_alive r
      else ok refuses
