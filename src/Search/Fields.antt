-- ===== src/Search/Fields.antt =====
-- Optional members in a message: a mark, and the member if the mark is set (Request::Serialize of
-- lib/dynamic/request.cc).
pub mod Laws
use pop_cpp.Base.{ℕ, zero, suc, Bool, true, false, List, [], ◌∷◌, Result, ok, ◌>>=◌, if◌then◌else◌}
use pop_cpp.Buffer.Types.{Buffer, Item, Shape, Scalar}
use pop_cpp.Buffer.Queue.{BufferClass}
use pop_cpp.Buffer.Text.{numbers, first, pack_string, unpack_string}

-- A member: a text, a number, or one in whose place the mark is packed once more.
pub data Member : Type 0 where
  text : List ℕ → Member
  number : Scalar → ℕ → Member
  mark : ℕ → Member

pub record Field : Type 0 where
  pub is_set : Bool
  pub member : Member

abbrev pub bool_of : Item → Bool
bool_of (Item.bools (b ∷ bs)) = b
bool_of _ = false

module _ (c : BufferClass) where
  -- Pack(&b, 1) and UnPack(&b, 1) for a `bool`.
  unfoldable pub pack_bool : Bool → Buffer → Result Buffer
  pack_bool x b = c.pack (Item.bools (x ∷ [])) b

  unfoldable pub unpack_bool : Buffer → Result (Bool × Buffer)
  unpack_bool b = c.unpack (Shape.bools 1) b >>= λ r. ok (bool_of r.0, r.1)

  abbrev pub pack_member : Member → Buffer → Result Buffer
  pack_member (text s) b = pack_string c s b
  pack_member (number t x) b = c.pack (Item.scalars t (x ∷ [])) b
  pack_member (mark x) b = pack_bool true b

  -- What is read into a field whose mark has been read as set.
  abbrev pub unpack_member : Member → Buffer → Result (Field × Buffer)
  unpack_member (text s) b =
      unpack_string c b >>= λ r. ok (record { is_set = true; member = text r.0 }, r.1)
  unpack_member (number t x) b = c.unpack (Shape.scalars t 1) b >>= λ r.
      ok (record { is_set = true; member = number t (first (numbers r.0)) }, r.1)
  unpack_member (mark x) b =
      unpack_bool b >>= λ r. ok (record { is_set = r.0; member = mark x }, r.1)

  unfoldable pub pack_field : Field → Buffer → Result Buffer
  pack_field t b = pack_bool t.is_set b >>= λ b. if t.is_set then pack_member t.member b else ok b

  -- The field keeps its member when the mark is not set.
  unfoldable pub unpack_field : Field → Buffer → Result (Field × Buffer)
  unpack_field old b = unpack_bool b >>= λ r.
      if r.0 then unpack_member old.member r.1 else ok (record old { is_set = false }, r.1)

  unfoldable pub pack_fields : List Field → Buffer → Result Buffer
  pack_fields [] b = ok b
  pack_fields (t ∷ ts) b = pack_field t b >>= λ b. pack_fields ts b

  unfoldable pub unpack_fields : List Field → Buffer → Result (List Field × Buffer)
  unpack_fields [] b = ok ([], b)
  unpack_fields (t ∷ ts) b =
      unpack_field t b >>= λ r. unpack_fields ts r.1 >>= λ rs. ok (r.0 ∷ rs.0, rs.1)

  -- Members without marks, one after the other.
  unfoldable pub pack_members : List Member → Buffer → Result Buffer
  pack_members [] b = ok b
  pack_members (m ∷ ms) b = pack_member m b >>= λ b. pack_members ms b

  unfoldable pub unpack_members : List Member → Buffer → Result (List Member × Buffer)
  unpack_members [] b = ok ([], b)
  unpack_members (m ∷ ms) b =
      unpack_member m b >>= λ r. unpack_members ms r.1 >>= λ rs. ok (r.0.member ∷ rs.0, rs.1)
