-- ===== src/AccessPoint/Laws.antt =====
-- Copies of access points, and access points in a message.
use pop_cpp.Base.{
  ℕ, ◌<◌, ◌≡◌, refl, ◌∙◌, Bool, true, false, List, [], ◌∷◌, ◌++◌, append-nil, append_assoc, ok,
  arith, ◌==◌, ◌⊎◌, inl, inr, if◌then◌else◌, ◌||◌, ap,
}
use pop_cpp.Buffer.Types.{Buffer, Item, Scalar}
use pop_cpp.Buffer.Store.{IsSmall}
use pop_cpp.Buffer.Queue.{BufferClass, BufferLaws, Grows-trans}
use pop_cpp.Buffer.Text.Laws.{
  IsText, strings_items, Adds, Takes, pack_int-Adds, unpack_int-Takes, pack_strings-Adds,
  unpack_strings-Takes,
}
use pop_cpp.AccessPoint.{
  AccessPoint, nonsecure, secure, new_accesspoint, set_access_string, is_secure, set_secure,
  set_as_service, set_no_add_ref, when, same_endpoint, copy, assign, pack_accesspoint,
  unpack_accesspoint,
}
use pop_cpp.AccessPoint.Texts.{equal_text_refl}

-- The security level is one of the enumeration.
pub record IsAccessPoint (a : AccessPoint) : Type 0 where
  pub text : IsText a.endpoint
  pub level : a.security < 2

-- What Serialize makes of an access point that is read into.
abbrev pub read_into : AccessPoint → AccessPoint → AccessPoint
read_into old p = when p.noaddref set_no_add_ref (
    when p.service set_as_service
      (when (p.security == secure) set_secure (set_access_string p.endpoint old)))

-- The text is the sender's, and a flag is set where it was set on one of the two sides.
abbrev pub Merges : AccessPoint → AccessPoint → AccessPoint → Type 0
Merges old p new =
    (new.endpoint ≡ p.endpoint)
    × (is_secure new ≡ (is_secure p || is_secure old))
    × (new.service ≡ (p.service || old.service))
    × (new.noaddref ≡ (p.noaddref || old.noaddref))

merge_flags :
    (sec serv noadd : Bool) (a : AccessPoint)
    → let new = when noadd set_no_add_ref (when serv set_as_service (when sec set_secure a)) in
      (new.endpoint ≡ a.endpoint)
      × (is_secure new ≡ (sec || is_secure a))
      × (new.service ≡ (serv || a.service))
      × (new.noaddref ≡ (noadd || a.noaddref))
unfolding is_secure set_secure set_as_service set_no_add_ref
merge_flags true true true a = (refl, refl, refl, refl)
merge_flags true true false a = (refl, refl, refl, refl)
merge_flags true false true a = (refl, refl, refl, refl)
merge_flags true false false a = (refl, refl, refl, refl)
merge_flags false true true a = (refl, refl, refl, refl)
merge_flags false true false a = (refl, refl, refl, refl)
merge_flags false false true a = (refl, refl, refl, refl)
merge_flags false false false a = (refl, refl, refl, refl)

pub read_into-Merges : (old p : AccessPoint) → Merges old p (read_into old p)
unfolding is_secure set_access_string
read_into-Merges old p =
    merge_flags (p.security == secure) p.service p.noaddref (set_access_string p.endpoint old)

two_levels : (n : ℕ) → n < 2 → (n ≡ 0) ⊎ (n ≡ 1)
two_levels n h = omega arith

same_flags :
    (p : AccessPoint) (serv noadd : Bool)
    → (p.security ≡ nonsecure) ⊎ (p.security ≡ secure)
    → p.service ≡ serv
    → p.noaddref ≡ noadd
    → read_into new_accesspoint p ≡ p
unfolding new_accesspoint set_secure set_as_service set_no_add_ref set_access_string
same_flags p true true (inl e) f g = rw (e, f, g) refl
same_flags p true true (inr e) f g = rw (e, f, g) refl
same_flags p true false (inl e) f g = rw (e, f, g) refl
same_flags p true false (inr e) f g = rw (e, f, g) refl
same_flags p false true (inl e) f g = rw (e, f, g) refl
same_flags p false true (inr e) f g = rw (e, f, g) refl
same_flags p false false (inl e) f g = rw (e, f, g) refl
same_flags p false false (inr e) f g = rw (e, f, g) refl

pub read_into-new : (p : AccessPoint) → IsAccessPoint p → read_into new_accesspoint p ≡ p
read_into-new p v = same_flags p p.service p.noaddref (two_levels p.security v.level) refl refl

-- operator= gives the text of the right side and keeps every flag that was set on the left side:
-- afterwards the left side is secure, or a service, where one of the two was. The noaddref flag
-- is not copied.
pub assign_merges :
    (this p : AccessPoint)
    → ((assign this p).endpoint ≡ p.endpoint)
      × (is_secure (assign this p) ≡ (is_secure p || is_secure this))
      × ((assign this p).service ≡ (p.service || this.service))
      × ((assign this p).noaddref ≡ this.noaddref)
      × (same_endpoint (assign this p) p ≡ true)
unfolding assign set_access_string is_secure same_endpoint
assign_merges this p =
    let (e, s, v, n) =
      merge_flags (is_secure p) p.service false (set_access_string p.endpoint this) in
    (e, s, v, n, rw e (equal_text_refl p.endpoint))

copy_flags :
    (serv : Bool) (a : AccessPoint)
    → ((when serv set_as_service a).endpoint ≡ a.endpoint)
      × ((when serv set_as_service a).security ≡ a.security)
      × ((when serv set_as_service a).service ≡ (serv || a.service))
      × ((when serv set_as_service a).noaddref ≡ a.noaddref)
unfolding set_as_service
copy_flags true a = (refl, refl, refl, refl)
copy_flags false a = (refl, refl, refl, refl)

level-secure : (b : Bool) → ((if b then secure else nonsecure) == secure) ≡ b
level-secure true = refl
level-secure false = refl

-- A copy has the text and the security of the original. Whether it is a service, where the
-- original is none, and its noaddref flag are what the storage happened to hold.
pub copy_lem :
    (storage p : AccessPoint)
    → ((copy storage p).endpoint ≡ p.endpoint)
      × (is_secure (copy storage p) ≡ is_secure p)
      × ((copy storage p).service ≡ (p.service || storage.service))
      × ((copy storage p).noaddref ≡ storage.noaddref)
unfolding copy set_access_string is_secure
copy_lem storage p =
    let (e, s, v, n) = copy_flags p.service (record storage {
      endpoint = p.endpoint;
      security = if is_secure p then secure else nonsecure;
    }) in
    (e, rw s (level-secure (is_secure p)), v, n)

module _ (c : BufferClass) (laws : BufferLaws c) where
  abbrev pub accesspoint_items : AccessPoint → List Item
  accesspoint_items p =
      strings_items c laws (p.endpoint ∷ [])
      ++ Item.scalars Scalar.int (p.security ∷ [])
        ∷ Item.bools (p.service ∷ [])
        ∷ Item.bools (p.noaddref ∷ [])
        ∷ []

  pub pack_accesspoint-Adds :
      (xs : List Item) (p : AccessPoint) (b : Buffer)
      → IsAccessPoint p
      → laws.Holds b xs
      → Adds c laws xs (accesspoint_items p) b (pack_accesspoint c p b)
  unfolding pack_accesspoint
  pack_accesspoint-Adds xs p b v h =
      let (b₁, e₁, h₁, g₁) = pack_strings-Adds c laws xs (p.endpoint ∷ []) b (v.text, tt) h in
      let (b₂, e₂, h₂, g₂) = pack_int-Adds c laws _ p.security b₁ (omega (arith, v.level)) h₁ in
      let (b₃, e₃, h₃, g₃) = laws.pack-Holds _ b₂ _ (laws.Fits-bool p.service) h₂ in
      let (b₄, e₄, h₄, g₄) = laws.pack-Holds _ b₃ _ (laws.Fits-bool p.noaddref) h₃ in
      (
        b₄,
        rw (e₁, e₂, e₃) e₄,
        simp append_assoc at h₄,
        Grows-trans (Grows-trans g₁ g₂) (Grows-trans g₃ g₄),
      )

  pub unpack_accesspoint-Takes :
      (old p : AccessPoint) (rest : List Item) (b : Buffer)
      → IsAccessPoint p
      → IsSmall b
      → laws.Holds b (accesspoint_items p ++ rest)
      → Takes c laws (read_into old p) rest b (unpack_accesspoint c old b)
  unfolding unpack_accesspoint
  unpack_accesspoint-Takes old p rest b v small h =
      let (b₁, e₁, h₁, s₁, k₁) =
        unpack_strings-Takes c laws (p.endpoint ∷ []) _ b (v.text, tt) small
          (rw append_assoc at h) in
      let (b₂, e₂, h₂, s₂, k₂) = unpack_int-Takes c laws p.security _ b₁ (rw s₁ small) h₁ in
      let (b₃, e₃, h₃, s₃, k₃) =
        laws.unpack-Holds (Item.bools (p.service ∷ [])) b₂ _ (rw (s₂, s₁) small) h₂ in
      let (b₄, e₄, h₄, s₄, k₄) =
        laws.unpack-Holds (Item.bools (p.noaddref ∷ [])) b₃ _ (rw (s₃, s₂, s₁) small) h₃ in
      (b₄, rw (e₁, e₂, e₃, e₄), h₄, ((s₄ ∙ s₃) ∙ s₂) ∙ s₁, ((k₄ ∙ k₃) ∙ k₂) ∙ k₁)

  -- An access point that is packed into a reset buffer (less than 2 ^ 31 bytes in all) and read
  -- into another one gives that one the text, sets its flags where they were set on one of the two
  -- sides, and leaves the new access point of the default constructor equal to what was packed.
  pub unpack_accesspoint-pack_accesspoint :
      (old p : AccessPoint) (b : Buffer)
      → IsAccessPoint p
      → ((packed : Buffer) → pack_accesspoint c p (c.reset b) ≡ ok packed → IsSmall packed)
      → (packed b' b'' : Buffer) × (new : AccessPoint) × (pack_accesspoint c p (c.reset b)
          ≡ ok packed)
        × (unpack_accesspoint c old packed ≡ ok (new, b'))
        × Merges old p new
        × (unpack_accesspoint c new_accesspoint packed ≡ ok (p, b''))
  unpack_accesspoint-pack_accesspoint old p b v small =
      let (packed, e, h, g) = pack_accesspoint-Adds [] p (c.reset b) v (laws.reset-Holds b) in
      let h' : laws.Holds packed (accesspoint_items p ++ []) = rw append-nil h in
      let (b', e', _, _, _) = unpack_accesspoint-Takes old p [] packed v (small packed e) h' in
      let (b'', e'', _, _, _) =
        unpack_accesspoint-Takes new_accesspoint p [] packed v (small packed e) h' in
      (
        packed,
        b',
        b'',
        read_into old p,
        e,
        e',
        read_into-Merges old p,
        e'' ∙ ap (λ q. ok (q, b'')) (read_into-new p v),
      )
