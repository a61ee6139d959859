-- ===== src/JobMgr/Nodes.antt =====
-- NodeInfoMap: the neighbours of a JobMgr (services/lib/jobmgr.cc, services/lib/jobmgr.ph). A
-- std::unordered_map is the list of its entries, in the order in which a loop visits them.
pub mod Refines
pub mod Sorted
use pop_cpp.Base.{
  ℕ, Bool, true, false, List, [], ◌∷◌, Option, none, some, map, length, if◌then◌else◌,
}
use pop_cpp.Base.Floats.{Floats}
use pop_cpp.AccessPoint.{equal_text}

pub record NodeInfo : Type 0 where
  pub heuristic : ℕ
  pub id : ℕ
  pub stoptime : ℕ
  pub fixnode : Bool
  pub nodetype : ℕ

pub record Entry : Type 0 where
  pub contact : List ℕ
  pub info : NodeInfo

-- GetInfo: the info of a contact that the map has.
unfoldable pub get_info : List ℕ → List Entry → Option NodeInfo
get_info contact [] = none
get_info contact (t ∷ ts) =
    let later = get_info contact ts in if equal_text t.contact contact then some t.info else later

-- hashmap.count
abbrev pub is_some {ℓ} : {A : Type ℓ} → Option A → Bool
is_some none = false
is_some (some a) = true

-- `hashmap[contact] = info`, where the map has the contact.
unfoldable pub overwrite : List ℕ → NodeInfo → List Entry → List Entry
overwrite contact info [] = []
overwrite contact info (t ∷ ts) =
    let later = overwrite contact info ts in
    if equal_text t.contact contact then record t { info = info } ∷ ts else t ∷ later

-- hashmap.erase
unfoldable pub erase : List ℕ → List Entry → List Entry
erase contact [] = []
erase contact (t ∷ ts) =
    let later = erase contact ts in if equal_text t.contact contact then ts else t ∷ later

unfoldable pub get_count : List Entry → ℕ
get_count m = length m

unfoldable pub update_node : List ℕ → NodeInfo → List Entry → Bool × List Entry
update_node contact info m =
    if is_some (get_info contact m) then (true, overwrite contact info m) else (false, m)

unfoldable pub remove_node : List ℕ → List Entry → Bool × List Entry
remove_node contact m = (is_some (get_info contact m), erase contact m)

-- A new entry may come anywhere in the order of the map; here it is the first.
unfoldable pub add_node : List ℕ → NodeInfo → List Entry → Bool × List Entry
add_node contact info m =
    if is_some (get_info contact m)
    then (false, m)
    else (true, record { contact = contact; info = info } ∷ m)

-- The two vectors of GetContacts are one: of contacts with their heuristics.
abbrev pub Ranked : Type 0
Ranked = ℕ × List ℕ

module _ (f : Floats) where
  -- In front of the first whose heuristic is not less.
  unfoldable pub insert_contact : Ranked → List Ranked → List Ranked
  insert_contact x [] = x ∷ []
  insert_contact x (y ∷ ys) =
      let later = insert_contact x ys in if f.le x.0 y.0 then x ∷ y ∷ ys else y ∷ later

  unfoldable pub insert_contacts : List Entry → List Ranked → List Ranked
  insert_contacts [] sofar = sofar
  insert_contacts (t ∷ ts) sofar =
      insert_contacts ts (insert_contact (t.info.heuristic, t.contact) sofar)

  unfoldable pub get_contacts : List Entry → List (List ℕ)
  get_contacts m = map (λ (p : Ranked). p.1) (insert_contacts m [])
