-- ===== src/Search/Fields/Laws.antt =====
-- Optional members come back as they were packed.
use pop_cpp.Base.{
  ◌≡◌, refl, Bool, true, false, List, [], ◌∷◌, ◌++◌, append-nil, append_assoc, ok, ◌>>=◌,
  if◌then◌else◌, arith, All,
}
use pop_cpp.Base.Bytes.{IsWord}
use pop_cpp.Buffer.Types.{Buffer, Item, width}
use pop_cpp.Buffer.Store.{IsSmall}
use pop_cpp.Buffer.Queue.{BufferClass, BufferLaws, IsNarrow, Grows-refl}
use pop_cpp.Buffer.Text.Chain.{chain-Adds, chain-Takes}
use pop_cpp.Buffer.Text.Laws.{
  IsText, string_items, Adds, Takes, pack_string-Adds, unpack_string-Takes,
}
use pop_cpp.Search.Fields.{
  Member, text, number, mark, Field, pack_bool, unpack_bool, pack_member, unpack_member, pack_field,
  unpack_field, pack_fields, unpack_fields, pack_members, unpack_members,
}

-- A member that a message can carry, if the field is set.
abbrev pub IsMember : Member → Type 0
IsMember (text s) = IsText s
IsMember (number t x) = IsNarrow t × IsWord (width t) x
IsMember (mark x) = Unit

-- The old field has a member of the same kind.
abbrev pub Alike : Member → Member → Type 0
Alike (text s) (text s') = Unit
Alike (number t x) (number t' x') = t ≡ t'
Alike (mark x) (mark x') = Unit
Alike _ _ = ⊥

-- What the old field is after the new one has been read into it.
abbrev pub member_read : Member → Member → Member
member_read (mark old) m = mark old
member_read old m = m

abbrev pub field_read : Field → Field → Field
field_read old t = record {
  is_set = t.is_set;
  member = if t.is_set then member_read old.member t.member else old.member;
}

-- Every member can be carried.
abbrev pub AreFields : List Field → Type 0
AreFields ts = All (λ t. IsMember t.member) ts

abbrev pub AreAlike : List Field → List Field → Type 0
AreAlike [] [] = Unit
AreAlike (t ∷ ts) (u ∷ us) = Alike t.member u.member × AreAlike ts us
AreAlike _ _ = ⊥

abbrev pub fields_read : List Field → List Field → List Field
fields_read (t ∷ ts) (u ∷ us) = field_read t u ∷ fields_read ts us
fields_read _ _ = []

abbrev pub AllAlike : List Member → List Member → Type 0
AllAlike [] [] = Unit
AllAlike (m ∷ ms) (n ∷ ns) = Alike m n × AllAlike ms ns
AllAlike _ _ = ⊥

abbrev pub members_read : List Member → List Member → List Member
members_read (m ∷ ms) (n ∷ ns) = member_read m n ∷ members_read ms ns
members_read _ _ = []

module _ (c : BufferClass) (laws : BufferLaws c) where
  abbrev pub member_items : Member → List Item
  member_items (text s) = string_items s
  member_items (number t x) = Item.scalars t (x ∷ []) ∷ []
  member_items (mark x) = Item.bools (true ∷ []) ∷ []

  abbrev pub field_items : Field → List Item
  field_items t = Item.bools (t.is_set ∷ []) ∷ (if t.is_set then member_items t.member else [])

  unfoldable pub fields_items : List Field → List Item
  fields_items [] = []
  fields_items (t ∷ ts) = field_items t ++ fields_items ts

  pub pack_bool-Adds :
      (xs : List Item) (x : Bool) (b : Buffer)
      → laws.Holds b xs
      → Adds c laws xs (Item.bools (x ∷ []) ∷ []) b (pack_bool c x b)
  unfolding pack_bool
  pack_bool-Adds xs x b h = laws.pack-Holds _ b xs (laws.Fits-bool x) h

  pub unpack_bool-Takes :
      (x : Bool) (rest : List Item) (b : Buffer)
      → IsSmall b
      → laws.Holds b (Item.bools (x ∷ []) ∷ rest)
      → Takes c laws x rest b (unpack_bool c b)
  unfolding unpack_bool
  unpack_bool-Takes x rest b small h =
      let (b', e, h', same, k) = laws.unpack-Holds _ b rest small h in (b', rw e, h', same, k)

  pack_member-Adds :
      (xs : List Item) (m : Member) (b : Buffer)
      → IsMember m
      → laws.Holds b xs
      → Adds c laws xs (member_items m) b (pack_member c m b)
  pack_member-Adds xs (text s) b i h = pack_string-Adds c laws xs s b i h
  pack_member-Adds xs (number t x) b (n, w) h =
      laws.pack-Holds _ b xs (laws.Fits-scalars t (x ∷ []) n (w, tt) (omega arith)) h
  pack_member-Adds xs (mark x) b i h = pack_bool-Adds xs true b h

  unpack_member-Takes :
      (old m : Member) (rest : List Item) (b : Buffer)
      → IsMember m
      → Alike old m
      → IsSmall b
      → laws.Holds b (member_items m ++ rest)
      → Takes c laws
          (record { is_set = true; member = member_read old m })
          rest
          b
          (unpack_member c old b)
  unpack_member-Takes (text s) (text s') rest b i a small h =
      let (b', e, h', same, k) = unpack_string-Takes c laws s' rest b i small h in
      (b', rw e refl, h', same, k)
  unpack_member-Takes (number t x) (number t' x') rest b i a small h =
      let (b', e, h', same, k) = laws.unpack-Holds _ b rest small h in
      (b', rw (a, e) refl, h', same, k)
  unpack_member-Takes (text s) (number t' x') rest b i a small h = elim a [ ]
  unpack_member-Takes (text s) (mark x') rest b i a small h = elim a [ ]
  unpack_member-Takes (number t x) (text s') rest b i a small h = elim a [ ]
  unpack_member-Takes (number t x) (mark x') rest b i a small h = elim a [ ]
  unpack_member-Takes (mark x) (text s') rest b i a small h = elim a [ ]
  unpack_member-Takes (mark x) (number t' x') rest b i a small h = elim a [ ]
  unpack_member-Takes (mark x) (mark x') rest b i a small h =
      let (b', e, h', same, k) = unpack_bool-Takes true rest b small h in
      (b', rw e refl, h', same, k)

  abbrev pub items_if : Bool → List Item → List Item
  items_if set is = if set then is else []

  pack_marked-Adds :
      (xs : List Item) (set : Bool) (m : Member) (b : Buffer)
      → IsMember m
      → laws.Holds b xs
      → Adds c laws xs
          ((Item.bools (set ∷ []) ∷ []) ++ items_if set (member_items m))
          b
          (pack_bool c set b >>= λ b. if set then pack_member c m b else ok b)
  pack_marked-Adds xs true m b i h =
      chain-Adds c laws xs (Item.bools (true ∷ []) ∷ []) (member_items m)
        (pack_bool-Adds xs true b h)
        (λ b h. pack_member-Adds (xs ++ Item.bools (true ∷ []) ∷ []) m b i h)
  pack_marked-Adds xs false m b i h =
      chain-Adds c laws xs (Item.bools (false ∷ []) ∷ []) [] (pack_bool-Adds xs false b h)
        (λ b h. (b, refl, rw (append-nil (xs ++ Item.bools (false ∷ []) ∷ [])) h, Grows-refl b))

  pack_field-Adds :
      (xs : List Item) (t : Field) (b : Buffer)
      → IsMember t.member
      → laws.Holds b xs
      → Adds c laws xs (field_items t) b (pack_field c t b)
  unfolding pack_field
  pack_field-Adds xs t b i h = pack_marked-Adds xs t.is_set t.member b i h

  unpack_marked-Takes :
      (old : Field) (set : Bool) (m : Member) (rest : List Item) (b : Buffer)
      → IsMember m
      → Alike old.member m
      → IsSmall b
      → laws.Holds b (Item.bools (set ∷ []) ∷ (items_if set (member_items m) ++ rest))
      → Takes c laws
          (field_read old (record { is_set = set; member = m }))
          rest
          b
          (unpack_field c old b)
  unfolding unpack_field
  unpack_marked-Takes old true m rest b i a small h =
      chain-Takes c laws b _ small (unpack_bool-Takes true _ b small h)
        (λ b small h. unpack_member-Takes old.member m rest b i a small h)
  unpack_marked-Takes old false m rest b i a small h =
      chain-Takes c laws b _ small (unpack_bool-Takes false _ b small h)
        (λ b small h. (b, refl, h, refl, refl))

  pub pack_fields-Adds :
      (xs : List Item) (ts : List Field) (b : Buffer)
      → AreFields ts
      → laws.Holds b xs
      → Adds c laws xs (fields_items ts) b (pack_fields c ts b)
  unfolding pack_fields fields_items
  pack_fields-Adds xs [] b i h = (b, refl, rw (append-nil xs) h, Grows-refl b)
  pack_fields-Adds xs (t ∷ ts) b (i, is) h =
      chain-Adds c laws xs (field_items t) (fields_items ts) (pack_field-Adds xs t b i h)
        (λ b h. pack_fields-Adds (xs ++ field_items t) ts b is h)

  pub unpack_fields-Takes :
      (old ts : List Field) (rest : List Item) (b : Buffer)
      → AreFields ts
      → AreAlike old ts
      → IsSmall b
      → laws.Holds b (fields_items ts ++ rest)
      → Takes c laws (fields_read old ts) rest b (unpack_fields c old b)
  unfolding unpack_fields fields_items
  unpack_fields-Takes [] [] rest b i a small h = (b, refl, h, refl, refl)
  unpack_fields-Takes [] (u ∷ us) rest b i a small h = elim a [ ]
  unpack_fields-Takes (t ∷ ts) [] rest b i a small h = elim a [ ]
  unpack_fields-Takes (t ∷ ts) (u ∷ us) rest b (i, is) (a, ls) small h =
      chain-Takes c laws b _ small
        (unpack_marked-Takes t u.is_set u.member (fields_items us ++ rest) b i a small
          (rw append_assoc at h))
        (λ b small h.
          chain-Takes c laws b _ small (unpack_fields-Takes ts us rest b is ls small h)
            (λ b small h. (b, refl, h, refl, refl)))

  unfoldable pub members_items : List Member → List Item
  members_items [] = []
  members_items (m ∷ ms) = member_items m ++ members_items ms

  pub pack_members-Adds :
      (ms : List Member) (xs : List Item) (b : Buffer)
      → All IsMember ms
      → laws.Holds b xs
      → Adds c laws xs (members_items ms) b (pack_members c ms b)
  unfolding pack_members members_items
  pack_members-Adds [] xs b i h = (b, refl, rw (append-nil xs) h, Grows-refl b)
  pack_members-Adds (m ∷ ms) xs b (i, is) h =
      chain-Adds c laws xs (member_items m) (members_items ms) (pack_member-Adds xs m b i h)
        (λ b h. pack_members-Adds ms (xs ++ member_items m) b is h)

  pub unpack_members-Takes :
      (old ms : List Member) (rest : List Item) (b : Buffer)
      → All IsMember ms
      → AllAlike old ms
      → IsSmall b
      → laws.Holds b (members_items ms ++ rest)
      → Takes c laws (members_read old ms) rest b (unpack_members c old b)
  unfolding unpack_members members_items
  unpack_members-Takes [] [] rest b i a small h = (b, refl, h, refl, refl)
  unpack_members-Takes [] (n ∷ ns) rest b i a small h = elim a [ ]
  unpack_members-Takes (m ∷ ms) [] rest b i a small h = elim a [ ]
  unpack_members-Takes (m ∷ ms) (n ∷ ns) rest b (i, is) (a, ls) small h =
      chain-Takes c laws b _ small
        (unpack_member-Takes m n (members_items ns ++ rest) b i a small (rw append_assoc at h))
        (λ b small h.
          chain-Takes c laws b _ small (unpack_members-Takes ms ns rest b is ls small h)
            (λ b small h. (b, refl, h, refl, refl)))
