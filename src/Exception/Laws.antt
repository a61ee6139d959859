-- ===== src/Exception/Laws.antt =====
-- An exception that crosses the network is thrown again with the same type and value.
use pop_cpp.Base.{
  ℕ, ◌<◌, ◌≤◌, ◌≡◌, refl, sym, ◌∙◌, List, [], ◌∷◌, ◌++◌, length, append-nil, append_assoc, Option,
  none, some, ok, arith, ◌>>=◌, if◌then◌else◌, ◌==◌,
}
use mathlib.Core.Path.{subst}
use pop_cpp.Base.Bytes.{IsByte, IsWord}
use pop_cpp.Buffer.Types.{Buffer, MessageHeader, Item, Scalar}
use pop_cpp.Buffer.Store.{IsSmall}
use pop_cpp.Buffer.Header.{IsHeader, assign, exception_header, type_exception}
use pop_cpp.Buffer.Queue.{BufferClass, BufferLaws, Grows-trans}
use pop_cpp.Buffer.Text.Laws.{
  IsText, string_items, Adds, Takes, pack_int-Adds, unpack_int-Takes, pack_string-Adds,
  unpack_string-Takes, pack_counted-Adds, unpack_counted, text_positive, c_string_text,
}
use pop_cpp.Exception.Codes.{PopException}
use pop_cpp.Exception.{
  Thrown, number, bool, char, uchar, string, exception, object, exception_code, ObjectCodec,
  pack_exception, unpack_exception, pack_thrown, unpack_thrown, unpack_number, exception_message,
  check_and_throw,
}

-- The message header says that an exception follows, and which.
abbrev pub Announces : ℕ → MessageHeader → Type 0
Announces code h = (h.type ≡ type_exception) × (h.exception ≡ code)

assign-Announces :
    (this storage : MessageHeader) (code : ℕ) (metname : Option (List ℕ))
    → IsHeader this
    → code < 15
    → Announces code (assign this (exception_header storage code metname))
      × IsHeader (assign this (exception_header storage code metname))
unfolding assign exception_header
assign-Announces this storage code metname w k = (
  (refl, refl),
  record {
    type_word = omega arith;
    class_word = w.class_word;
    method_word = w.method_word;
    semantics_word = w.semantics_word;
    exception_word = omega arith;
  },
)

exception_code-lt : {Obj : Type 0} → (v : Thrown Obj) → exception_code v < 15
exception_code-lt (number Scalar.int x) = omega arith
exception_code-lt (number Scalar.uint x) = omega arith
exception_code-lt (number Scalar.long x) = omega arith
exception_code-lt (number Scalar.ulong x) = omega arith
exception_code-lt (number Scalar.short x) = omega arith
exception_code-lt (number Scalar.ushort x) = omega arith
exception_code-lt (number Scalar.float x) = omega arith
exception_code-lt (number Scalar.double x) = omega arith
exception_code-lt (bool b) = omega arith
exception_code-lt (char x) = omega arith
exception_code-lt (uchar x) = omega arith
exception_code-lt (string s) = omega arith
exception_code-lt (exception e) = omega arith
exception_code-lt (object o) = omega arith

module _ (c : BufferClass) (laws : BufferLaws c) where
  abbrev pub exception_items : PopException → List Item
  exception_items e = Item.scalars Scalar.int (e.errcode ∷ []) ∷ string_items e.info

  pub pack_exception-Adds :
      (xs : List Item) (e : PopException) (b : Buffer)
      → IsWord 4 e.errcode
      → IsText e.info
      → laws.Holds b xs
      → Adds c laws xs (exception_items e) b (pack_exception c e b)
  unfolding pack_exception
  pack_exception-Adds xs e b w t h =
      let (b', p, h', g) = pack_int-Adds c laws xs e.errcode b w h in
      let (b'', p', h'', g') = pack_string-Adds c laws _ e.info b' t h' in
      (b'', rw p p', rw append_assoc at h'', Grows-trans g g')

  pub unpack_exception-Takes :
      (e : PopException) (rest : List Item) (b : Buffer)
      → IsText e.info
      → IsSmall b
      → laws.Holds b (exception_items e ++ rest)
      → Takes c laws e rest b (unpack_exception c b)
  unfolding unpack_exception
  unpack_exception-Takes e rest b t small h =
      let (b', p, h', same, k) = unpack_int-Takes c laws e.errcode _ b small h in
      let (b'', p', h'', same', k') =
        unpack_string-Takes c laws e.info rest b' t (rw same small) h' in
      (b'', rw (p, p'), h'', same' ∙ same, k' ∙ k)

  module _ {Obj : Type 0} (objects : ObjectCodec Obj) where
    -- The values that the buffer carries. (Objects are the matter of their own class.)
    abbrev pub IsCarried : Thrown Obj → Type 0
    IsCarried (number s x) = laws.Fits (Item.scalars s (x ∷ []))
    IsCarried (bool b) = Unit
    IsCarried (char x) = IsByte x
    IsCarried (uchar x) = IsByte x
    IsCarried (string none) = Unit
    IsCarried (string (some s)) = IsText s
    IsCarried (exception e) = IsWord 4 e.errcode × IsText e.info
    IsCarried (object o) = ⊥

    abbrev pub thrown_items : Thrown Obj → List Item
    thrown_items (number s x) = Item.scalars s (x ∷ []) ∷ []
    thrown_items (bool b) = Item.bools (b ∷ []) ∷ []
    thrown_items (char x) = Item.chars (x ∷ []) ∷ []
    thrown_items (uchar x) = Item.chars (x ∷ []) ∷ []
    thrown_items (string none) = Item.scalars Scalar.int (0 ∷ []) ∷ Item.chars [] ∷ []
    thrown_items (string (some s)) = string_items s
    thrown_items (exception e) = exception_items e
    thrown_items (object o) = []

    pack_thrown-Adds :
        (v : Thrown Obj) (b : Buffer)
        → IsCarried v
        → laws.Holds b []
        → Adds c laws [] (thrown_items v) b (pack_thrown c objects v b)
    unfolding pack_thrown
    pack_thrown-Adds (number s x) b k h = laws.pack-Holds _ b [] k h
    pack_thrown-Adds (bool v) b k h = laws.pack-Holds _ b [] (laws.Fits-bool v) h
    pack_thrown-Adds (char x) b k h =
        laws.pack-Holds _ b [] (laws.Fits-chars (x ∷ []) (k, tt) (omega arith)) h
    pack_thrown-Adds (uchar x) b k h =
        laws.pack-Holds _ b [] (laws.Fits-chars (x ∷ []) (k, tt) (omega arith)) h
    pack_thrown-Adds (string none) b k h =
        let (b', p, h', g) = pack_int-Adds c laws [] 0 b (omega arith) h in
        let (b'', p', h'', g') =
          laws.pack-Holds (Item.chars []) b' _ (laws.Fits-chars [] tt (omega arith)) h' in
        (b'', rw p p', h'', Grows-trans g g')
    pack_thrown-Adds (string (some s)) b k h = pack_counted-Adds c laws s k [] b h
    pack_thrown-Adds (exception e) b k h = pack_exception-Adds [] e b k.0 k.1 h
    pack_thrown-Adds (object o) b k h = elim k [ ]

    unpack_number_lem :
        (s : Scalar) (x : ℕ) (b : Buffer)
        → IsSmall b
        → laws.Holds b (Item.scalars s (x ∷ []) ∷ [])
        → unpack_number c objects s b ≡ ok (number s x)
    unfolding unpack_number
    unpack_number_lem s x b small h =
        let (b', p, _, _, _) = laws.unpack-Holds (Item.scalars s (x ∷ [])) b [] small h in rw p

    unpack_thrown_lem :
        (v : Thrown Obj) (b : Buffer)
        → IsCarried v
        → IsSmall b
        → laws.Holds b (thrown_items v)
        → unpack_thrown c objects (exception_code v) b ≡ ok v
    unfolding unpack_thrown
    unpack_thrown_lem (number Scalar.int x) b k small h = unpack_number_lem _ x b small h
    unpack_thrown_lem (number Scalar.uint x) b k small h = unpack_number_lem _ x b small h
    unpack_thrown_lem (number Scalar.long x) b k small h = unpack_number_lem _ x b small h
    unpack_thrown_lem (number Scalar.ulong x) b k small h = unpack_number_lem _ x b small h
    unpack_thrown_lem (number Scalar.short x) b k small h = unpack_number_lem _ x b small h
    unpack_thrown_lem (number Scalar.ushort x) b k small h = unpack_number_lem _ x b small h
    unpack_thrown_lem (number Scalar.float x) b k small h = unpack_number_lem _ x b small h
    unpack_thrown_lem (number Scalar.double x) b k small h = unpack_number_lem _ x b small h
    unpack_thrown_lem (bool v) b k small h =
        let (b', p, _, _, _) = laws.unpack-Holds (Item.bools (v ∷ [])) b [] small h in rw p
    unpack_thrown_lem (char x) b k small h =
        let (b', p, _, _, _) = laws.unpack-Holds (Item.chars (x ∷ [])) b [] small h in rw p
    unpack_thrown_lem (uchar x) b k small h =
        let (b', p, _, _, _) = laws.unpack-Holds (Item.chars (x ∷ [])) b [] small h in rw p
    unpack_thrown_lem (string none) b k small h =
        let (b', p, _, _, _) = unpack_int-Takes c laws 0 _ b small h in rw p
    unpack_thrown_lem (string (some s)) b k small h =
        let (b', b'', e, e', _, _, _) = unpack_counted c laws s k [] b small (rw append-nil h) in
        rw (e, text_positive c laws s k, e', c_string_text c laws s k)
    unpack_thrown_lem (exception e) b k small h =
        let (b', p, _, _, _) = unpack_exception-Takes e [] b k.1 small (rw append-nil h) in rw p
    unpack_thrown_lem (object o) b k small h = elim k [ ]

    -- SendException makes a message for every value that the buffer carries.
    pub exception_message-Adds :
        (storage : MessageHeader) (except : Buffer) (v : Thrown Obj)
        → IsCarried v
        → IsHeader except.header
        → (b : Buffer) × (exception_message c objects storage except v ≡ ok b)
          × Announces (exception_code v) b.header
          × IsHeader b.header
          × laws.Holds b (thrown_items v)
          × (b.unpackpos ≡ 20)
          × (20 ≤ length b.packeddata)
    unfolding exception_message
    exception_message-Adds storage except v k w =
        let tmp = exception_header storage (exception_code v) except.header.method_name in
        let b = c.reset except in
        let b₀ : Buffer = record b { header = assign b.header tmp } in
        let held : laws.Holds b₀ [] =
          laws.Holds-moved b b₀ [] (laws.reset-Holds except) (laws.reset_position except)
            (laws.reset_position except) (omega (arith, laws.reset_size except)) refl in
        let (b', e, h, g) = pack_thrown-Adds v b₀ k held in
        let (a, w') =
          assign-Announces b.header storage (exception_code v) except.header.method_name
            (rw (laws.reset_header except) w) (exception_code-lt v) in
        (
          b',
          e,
          subst (Announces (exception_code v)) (sym g.same_header) a,
          subst IsHeader (sym g.same_header) w',
          h,
          g.same_position ∙ laws.reset_position except,
          omega (arith, g.longer, laws.reset_size except),
        )

    rethrown :
        (v : Thrown Obj) (t code : ℕ) (b : Buffer)
        → t ≡ type_exception
        → code ≡ exception_code v
        → unpack_thrown c objects (exception_code v) b ≡ ok v
        → (if t == type_exception
            then (unpack_thrown c objects code b >>= λ w. ok (some w))
            else ok none)
          ≡ ok (some v)
    rethrown v t code b e e' h = rw (e, e', h)

    -- CheckAndThrow throws the value that such a message holds.
    pub check_and_throw_lem :
        (v : Thrown Obj) (b : Buffer)
        → IsCarried v
        → IsSmall b
        → Announces (exception_code v) b.header
        → laws.Holds b (thrown_items v)
        → check_and_throw c objects b ≡ ok (some v)
    unfolding check_and_throw
    check_and_throw_lem v b k small a h =
        rethrown v b.header.type b.header.exception b a.0 a.1 (unpack_thrown_lem v b k small h)
