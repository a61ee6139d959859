-- ===== src/JobMgr/Nodes/Refines.antt =====
-- A NodeInfoMap is a finite map from contacts to infos.
use pop_cpp.Base.{
  ℕ, ◌≡◌, refl, ◌∙◌, Bool, true, false, Bool-cases, inl, inr, List, [], ◌∷◌, Option, none, some,
  if◌then◌else◌,
}
use mathlib.Core.Path.{subst}
use pop_cpp.AccessPoint.{equal_text}
use pop_cpp.AccessPoint.Texts.{equal_text-true, equal_text-differ}
use pop_cpp.JobMgr.Nodes.{
  NodeInfo, Entry, get_info, is_some, overwrite, erase, update_node, remove_node, add_node,
}

pub data Command : Type 0 where
  get : List ℕ → Command
  update : List ℕ → NodeInfo → Command
  remove : List ℕ → Command
  add : List ℕ → NodeInfo → Command

-- What the operations promise, on a function of the contact: the answer, and the function after.
abbrev pub View : Type 0
View = List ℕ → Option NodeInfo

abbrev pub set : List ℕ → Option NodeInfo → View → View
set contact o v k = if equal_text contact k then o else v k

abbrev pub promised : Command → View → Bool × View
promised (get contact) v = (is_some (v contact), v)
promised (update contact info) v =
    (is_some (v contact), if is_some (v contact) then set contact (some info) v else v)
promised (remove contact) v = (is_some (v contact), set contact none v)
promised (add contact info) v =
    if is_some (v contact) then (false, v) else (true, set contact (some info) v)

-- What the code does.
abbrev pub run : Command → List Entry → Bool × List Entry
run (get contact) m = (is_some (get_info contact m), m)
run (update contact info) m = update_node contact info m
run (remove contact) m = remove_node contact m
run (add contact info) m = add_node contact info m

-- No contact twice.
abbrev pub IsDistinct : List Entry → Type 0
IsDistinct [] = Unit
IsDistinct (t ∷ ts) = (get_info t.contact ts ≡ none) × IsDistinct ts

abbrev pub view : List Entry → View
view m k = get_info k m

overwrite-set :
    (contact : List ℕ) (info : NodeInfo) (k : List ℕ) (m : List Entry)
    → is_some (get_info contact m) ≡ true
    → view (overwrite contact info m) k ≡ set contact (some info) (view m) k
unfolding get_info overwrite
overwrite-set contact info k [] h = absurd (cc)
overwrite-set contact info k (t ∷ ts) h = elim (Bool-cases (equal_text t.contact contact)) [
  | inl e ↦
      rw (e, equal_text-true t.contact contact e)
        (elim (Bool-cases (equal_text contact k)) [ inl y ↦ rw y refl | inr n ↦ rw n refl ])
  | inr n ↦
      let step = overwrite-set contact info k ts (rw n at h) in
      rw n (elim (Bool-cases (equal_text t.contact k)) [
        | inl y ↦ rw (y, equal_text-differ t.contact k contact y n) refl
        | inr z ↦ rw (z, step) refl
      ])
]

-- A contact that is not among the entries is not the first one's, nor among the others.
get_info-none :
    (k : List ℕ) (t : Entry) (ts : List Entry)
    → get_info k (t ∷ ts) ≡ none
    → (equal_text t.contact k ≡ false) × (get_info k ts ≡ none)
unfolding get_info
get_info-none k t ts h = elim (Bool-cases (equal_text t.contact k)) [
  | inl y ↦ let h' = rw y at h in absurd (cc)
  | inr n ↦ (n, rw n at h)
]

overwrite-none :
    (contact k : List ℕ) (info : NodeInfo) (m : List Entry)
    → get_info k m ≡ none
    → get_info k (overwrite contact info m) ≡ none
unfolding get_info overwrite
overwrite-none contact k info [] h = refl
overwrite-none contact k info (t ∷ ts) h =
    let (n, later) = get_info-none k t ts h in
    elim (Bool-cases (equal_text t.contact contact)) [
      | inl y ↦ rw (y, n) later
      | inr z ↦ rw (z, n) (overwrite-none contact k info ts later)
    ]

erase-none :
    (contact k : List ℕ) (m : List Entry)
    → get_info k m ≡ none
    → get_info k (erase contact m) ≡ none
unfolding get_info erase
erase-none contact k [] h = refl
erase-none contact k (t ∷ ts) h =
    let (n, later) = get_info-none k t ts h in
    elim (Bool-cases (equal_text t.contact contact)) [
      | inl y ↦ rw y later
      | inr z ↦ rw (z, n) (erase-none contact k ts later)
    ]

erase-set :
    (contact k : List ℕ) (m : List Entry)
    → IsDistinct m
    → view (erase contact m) k ≡ set contact none (view m) k
unfolding get_info erase
erase-set contact k [] d = elim (Bool-cases (equal_text contact k)) [
  | inl y ↦ rw y refl
  | inr n ↦ rw n refl
]
erase-set contact k (t ∷ ts) (u, d) = elim (Bool-cases (equal_text t.contact contact)) [
  | inl e ↦
      let same = equal_text-true t.contact contact e in
      rw (e, same)
        (elim (Bool-cases (equal_text contact k)) [
          | inl y ↦ rw y (subst (λ c. get_info c ts ≡ none) (same ∙ equal_text-true contact k y) u)
          | inr n ↦ rw n refl
        ])
  | inr n ↦ rw n (elim (Bool-cases (equal_text t.contact k)) [
    | inl y ↦ rw (y, equal_text-differ t.contact k contact y n) refl
    | inr z ↦ rw (z, erase-set contact k ts d) refl
  ])
]

IsDistinct-overwrite :
    (contact : List ℕ) (info : NodeInfo) (m : List Entry)
    → IsDistinct m
    → IsDistinct (overwrite contact info m)
unfolding overwrite
IsDistinct-overwrite contact info [] d = tt
IsDistinct-overwrite contact info (t ∷ ts) (u, d) =
    elim (Bool-cases (equal_text t.contact contact)) [
      | inl y ↦ rw y (u, d)
      | inr n ↦
          rw n (overwrite-none contact t.contact info ts u, IsDistinct-overwrite contact info ts d)
    ]

IsDistinct-erase : (contact : List ℕ) (m : List Entry) → IsDistinct m → IsDistinct (erase contact m)
unfolding erase
IsDistinct-erase contact [] d = tt
IsDistinct-erase contact (t ∷ ts) (u, d) = elim (Bool-cases (equal_text t.contact contact)) [
  | inl y ↦ rw y d
  | inr n ↦ rw n (erase-none contact t.contact ts u, IsDistinct-erase contact ts d)
]

get_info-cons :
    (contact : List ℕ) (info : NodeInfo) (k : List ℕ) (m : List Entry)
    → view (record { contact = contact; info = info } ∷ m) k ≡ set contact (some info) (view m) k
unfolding get_info
get_info-cons contact info k m = refl

is_some-false {ℓ} : {A : Type ℓ} (o : Option A) → is_some o ≡ false → o ≡ none
is_some-false none e = refl
is_some-false (some a) e = absurd (cc)

-- Each operation of a NodeInfoMap in which no contact stands twice gives the answer that a finite
-- map from contacts to infos gives, leaves the map that this leaves, and no contact twice.
pub run-Implements :
    (c : Command) (m : List Entry) (k : List ℕ)
    → IsDistinct m
    → ((run c m).0 ≡ (promised c (view m)).0)
      × (view (run c m).1 k ≡ (promised c (view m)).1 k)
      × IsDistinct (run c m).1
unfolding update_node remove_node add_node
run-Implements (get contact) m k d = (refl, refl, d)
run-Implements (update contact info) m k d = elim (Bool-cases (is_some (get_info contact m))) [
  | inl e ↦ rw e (refl, overwrite-set contact info k m e, IsDistinct-overwrite contact info m d)
  | inr n ↦ rw n (refl, refl, d)
]
run-Implements (remove contact) m k d =
    (refl, erase-set contact k m d, IsDistinct-erase contact m d)
run-Implements (add contact info) m k d = elim (Bool-cases (is_some (get_info contact m))) [
  | inl e ↦ rw e (refl, refl, d)
  | inr n ↦ rw n (refl, get_info-cons contact info k m, (is_some-false (get_info contact m) n, d))
]
