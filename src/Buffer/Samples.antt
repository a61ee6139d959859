-- ===== src/Buffer/Samples.antt =====
-- Concrete connections, libraries and messages.
use pop_cpp.Base.{
  ℕ, ◌≤◌, ◌<◌, ◌≡◌, refl, sym, ap, ◌∙◌, List, [], ◌∷◌, ◌++◌, length, take, drop, take-append-drop,
  length-take, Option, none, some, arith, true, false,
}
use Prim.Native.Nat.{min}
use pop_cpp.Buffer.Types.{MessageHeader, Buffer, Item, Scalar}
use pop_cpp.Buffer.Connection.{ComboxReader, ComboxLaws}

-- A connection that delivers three bytes at a time.
unfoldable pub slow_recv : ℕ → List ℕ → Option (List ℕ × List ℕ)
slow_recv n [] = none
slow_recv n (c ∷ cs) = some (take (min n 3) (c ∷ cs), drop (min n 3) (c ∷ cs))

abbrev pub slow : ComboxReader
slow = record { State = List ℕ; recv = slow_recv }

pub slow_progress :
    (n : ℕ) (st bytes : List ℕ)
    → 0 < n
    → 0 < length bytes
    → st ≡ bytes
    → (got rest st' : List ℕ) × (slow_recv n st ≡ some (got, st'))
      × (bytes ≡ got ++ rest)
      × (0 < length got)
      × (length got ≤ n)
      × (st' ≡ rest)
unfolding slow_recv
slow_progress n [] bytes h k e = absurd (omega (arith, ap length e))
slow_progress n (c ∷ cs) bytes h k e = (
  take (min n 3) (c ∷ cs),
  drop (min n 3) (c ∷ cs),
  drop (min n 3) (c ∷ cs),
  refl,
  sym e ∙ sym (take-append-drop (min n 3) (c ∷ cs)),
  omega (arith, length-take (min n 3) (c ∷ cs)),
  omega (arith, length-take (min n 3) (c ∷ cs)),
  refl,
)

abbrev pub slow_laws : ComboxLaws slow
slow_laws = record { Delivers = λ st bytes. st ≡ bytes; progress = slow_progress }

abbrev pub request : MessageHeader
request = record {
  type = 0;
  class_id = 1500;
  method_id = 11;
  semantics = 1;
  method_name = none;
  exception = 0;
}

abbrev pub fresh : Buffer
fresh = record { header = request; unpackpos = 0; packeddata = [] }

abbrev pub arguments : List Item
arguments =
    Item.scalars Scalar.int (300 ∷ 7 ∷ [])
    ∷ Item.bools (true ∷ false ∷ [])
    ∷ Item.chars (104 ∷ 105 ∷ 0 ∷ [])
    ∷ []
