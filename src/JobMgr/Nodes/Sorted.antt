-- ===== src/JobMgr/Nodes/Sorted.antt =====
-- GetContacts has the contacts in the order of their heuristics.
use pop_cpp.Base.{
  ℕ, ◌≡◌, refl, true, Bool-cases, inl, inr, List, [], ◌∷◌, ◌++◌, append-nil, map, All,
}
use mathlib.Core.Path.{subst}
use mathlib.Core.List.{Perm, perm_middle}
use mathlib.Core.List.Perm as Perm
use pop_cpp.Base.Floats.{Floats, IsOrdered}
use pop_cpp.JobMgr.Nodes.{Entry, Ranked, insert_contact, insert_contacts, get_contacts}

abbrev pub ranked : Entry → Ranked
ranked t = (t.info.heuristic, t.contact)

module _ (f : Floats) (order : IsOrdered f) where
  abbrev pub IsSorted : List Ranked → Type 0
  IsSorted [] = Unit
  IsSorted (x ∷ xs) = All (λ y. f.le x.0 y.0 ≡ true) xs × IsSorted xs

  insert_contact-Perm : (x : Ranked) (ys : List Ranked) → Perm (insert_contact f x ys) (x ∷ ys)
  unfolding insert_contact
  insert_contact-Perm x [] = Perm.rfl
  insert_contact-Perm x (y ∷ ys) = elim (Bool-cases (f.le x.0 y.0)) [
    | inl e ↦ rw e Perm.rfl
    | inr n ↦ rw n (Perm.trans (Perm.cons y (insert_contact-Perm x ys)) (Perm.swap x y ys))
  ]

  insert_contact-All :
      (z : ℕ) (x : Ranked) (ys : List Ranked)
      → f.le z x.0 ≡ true
      → All (λ y. f.le z y.0 ≡ true) ys
      → All (λ y. f.le z y.0 ≡ true) (insert_contact f x ys)
  unfolding insert_contact
  insert_contact-All z x [] h a = (h, tt)
  insert_contact-All z x (y ∷ ys) h (b, a) = elim (Bool-cases (f.le x.0 y.0)) [
    | inl e ↦ rw e (h, (b, a))
    | inr n ↦ rw n (b, insert_contact-All z x ys h a)
  ]

  All-le :
      (x z : ℕ) (ys : List Ranked)
      → f.le x z ≡ true
      → All (λ y. f.le z y.0 ≡ true) ys
      → All (λ y. f.le x y.0 ≡ true) ys
  All-le x z [] h a = tt
  All-le x z (y ∷ ys) h (b, a) = (order.le_trans x z y.0 h b, All-le x z ys h a)

  insert_contact-IsSorted :
      (x : Ranked) (ys : List Ranked) → IsSorted ys → IsSorted (insert_contact f x ys)
  unfolding insert_contact
  insert_contact-IsSorted x [] s = (tt, tt)
  insert_contact-IsSorted x (y ∷ ys) (a, s) = elim (Bool-cases (f.le x.0 y.0)) [
    | inl e ↦ rw e ((e, All-le x.0 y.0 ys e a), (a, s))
    | inr n ↦ rw n (
      insert_contact-All y.0 x ys (order.le_of_not_le x.0 y.0 n) a,
      insert_contact-IsSorted x ys s,
    )
  ]

  insert_contacts-Perm :
      (m : List Entry) (sofar : List Ranked)
      → Perm (insert_contacts f m sofar) (map ranked m ++ sofar)
  unfolding insert_contacts
  insert_contacts-Perm [] sofar = Perm.rfl
  insert_contacts-Perm (t ∷ ts) sofar =
      Perm.trans (insert_contacts-Perm ts (insert_contact f (ranked t) sofar)) (
        Perm.trans (Perm.append_left (map ranked ts) (insert_contact-Perm (ranked t) sofar))
          (perm_middle (map ranked ts) sofar))

  insert_contacts-IsSorted :
      (m : List Entry) (sofar : List Ranked) → IsSorted sofar → IsSorted (insert_contacts f m sofar)
  unfolding insert_contacts
  insert_contacts-IsSorted [] sofar s = s
  insert_contacts-IsSorted (t ∷ ts) sofar s =
      insert_contacts-IsSorted ts (insert_contact f (ranked t) sofar)
        (insert_contact-IsSorted (ranked t) sofar s)

  -- GetContacts gives the contacts of the map, each as often as it is there, in an order in which
  -- their heuristics do not fall.
  pub get_contacts-IsSorted :
      (m : List Entry)
      → (rs : List Ranked) × (get_contacts f m ≡ map (λ (p : Ranked). p.1) rs)
        × Perm rs (map ranked m)
        × IsSorted rs
  unfolding get_contacts
  get_contacts-IsSorted m = (
    insert_contacts f m [],
    refl,
    subst (λ us. Perm (insert_contacts f m []) us) (append-nil (map ranked m))
        (insert_contacts-Perm m []),
    insert_contacts-IsSorted m [] tt,
  )
