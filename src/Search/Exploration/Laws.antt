-- ===== src/Search/Exploration/Laws.antt =====
-- What an exploration list keeps, and how it crosses a message.
use pop_cpp.Base.{
  ℕ, suc, ◌≤◌, ◌<◌, ◌≡◌, refl, ◌∙◌, Bool, true, false, Bool-cases, inl, inr, List, [], ◌∷◌, ◌++◌,
  All, ltb, ◌||◌, arith,
}
use pop_cpp.AccessPoint.{equal_text}
use pop_cpp.AccessPoint.Texts.{equal_text_refl, equal_text-true}
use pop_cpp.Search.Exploration.{
  less_text, Visit, insert_visit, is_path, paths, clear_first, trimmed, add_list_node, has_text,
  is_in,
}

paths-cons : (v : Visit) (l : List Visit) → paths (v ∷ l) ≤ suc (paths l)
unfolding paths
paths-cons v l = elim (Bool-cases (is_path v)) [
  | inl y ↦ rw y (omega arith)
  | inr n ↦ rw n (omega arith)
]

one_path :
    (t : Visit) (l l' : List Visit)
    → paths l ≤ suc (paths l')
    → paths (t ∷ l) ≤ suc (paths (t ∷ l'))
unfolding paths
one_path t l l' h = elim (Bool-cases (is_path t)) [
  | inl y ↦ rw y (omega arith)
  | inr n ↦ rw n (omega arith)
]

paths-insert_visit : (v : Visit) (l : List Visit) → paths (insert_visit v l) ≤ suc (paths l)
unfolding paths insert_visit
paths-insert_visit v [] = elim (Bool-cases (is_path v)) [
  | inl y ↦ rw y (omega arith)
  | inr n ↦ rw n (omega arith)
]
paths-insert_visit v (t ∷ ts) =
    let later = paths-insert_visit v ts in
    elim (Bool-cases (less_text t.node v.node)) [
      | inl y ↦ rw y (one_path t (insert_visit v ts) ts later)
      | inr n ↦ elim (Bool-cases (equal_text t.node v.node)) [
        | inl y ↦ rw (n, y) (omega arith)
        | inr z ↦ rw (n, z) (paths-cons v (t ∷ ts))
      ]
    ]

paths-clear_first : (l : List Visit) → 0 < paths l → suc (paths (clear_first l)) ≡ paths l
unfolding paths clear_first
paths-clear_first [] h = absurd (omega arith)
paths-clear_first (t ∷ ts) h = elim (Bool-cases (is_path t)) [
  | inl y ↦ rw y (omega arith)
  | inr n ↦
      let h' : 0 < paths ts = omega (arith, rw n at h) in
      rw (n, n) (omega (arith, paths-clear_first ts h'))
]

paths-add_list_node : (v : Visit) (l : List Visit) → paths l ≤ 5 → paths (add_list_node v l) ≤ 5
unfolding add_list_node
paths-add_list_node v l h =
    let i = paths-insert_visit v l in
    elim (Bool-cases (ltb 5 (paths (insert_visit v l)))) [
      | inl y ↦
          let many : 5 < paths (insert_visit v l) = ground (arith, y) in
          rw y (omega (arith, paths-clear_first (insert_visit v l) (omega arith)))
      | inr n ↦ rw n (ground (arith, n))
    ]

abbrev pub has_node : List ℕ → List Visit → Bool
has_node node [] = false
has_node node (t ∷ ts) = equal_text node t.node || has_node node ts

or_true : (b : Bool) → (b || true) ≡ true
or_true true = refl
or_true false = refl

has_node-insert_visit : (v : Visit) (l : List Visit) → has_node v.node (insert_visit v l) ≡ true
unfolding insert_visit
has_node-insert_visit v [] = rw (equal_text_refl v.node) refl
has_node-insert_visit v (t ∷ ts) = elim (Bool-cases (less_text t.node v.node)) [
  | inl y ↦ rw (y, has_node-insert_visit v ts) (or_true (equal_text v.node t.node))
  | inr n ↦ elim (Bool-cases (equal_text t.node v.node)) [
    | inl y ↦
        let same = equal_text-true t.node v.node y in rw (n, y, same, equal_text_refl v.node) refl
    | inr z ↦ rw (n, z, equal_text_refl v.node) refl
  ]
]

has_node-clear_first :
    (node : List ℕ) (l : List Visit) → has_node node (clear_first l) ≡ has_node node l
unfolding clear_first
has_node-clear_first node [] = refl
has_node-clear_first node (t ∷ ts) = elim (Bool-cases (is_path t)) [
  | inl y ↦ rw y refl
  | inr n ↦ rw (n, has_node-clear_first node ts) refl
]

is_in-has_node : (node : List ℕ) (l : List Visit) → has_node node l ≡ true → is_in node l ≡ true
unfolding is_in
is_in-has_node node [] h = absurd (cc)
is_in-has_node node (t ∷ ts) h = elim (Bool-cases (equal_text node t.node)) [
  | inl y ↦ rw y refl
  | inr n ↦ rw (n, is_in-has_node node ts (rw n at h)) (or_true (has_text node t.neighbors))
]

is_in-add_list_node : (v : Visit) (l : List Visit) → is_in v.node (add_list_node v l) ≡ true
unfolding add_list_node
is_in-add_list_node v l =
    is_in-has_node v.node (trimmed (insert_visit v l))
      (elim (Bool-cases (ltb 5 (paths (insert_visit v l)))) [
        | inl y ↦ rw y (has_node-clear_first v.node (insert_visit v l) ∙ has_node-insert_visit v l)
        | inr n ↦ rw n (has_node-insert_visit v l)
      ])

-- A node that is added to an exploration list in which at most five nodes have neighbours is in it
-- then, and still at most five have neighbours.
pub add_list_node_lem :
    (v : Visit) (l : List Visit)
    → paths l ≤ 5
    → (is_in v.node (add_list_node v l) ≡ true) × (paths (add_list_node v l) ≤ 5)
add_list_node_lem v l h = (is_in-add_list_node v l, paths-add_list_node v l h)

-- The nodes in the order of the map.
abbrev pub IsSorted : List Visit → Type 0
IsSorted [] = Unit
IsSorted (t ∷ ts) = All (λ u. less_text t.node u.node ≡ true) ts × IsSorted ts

insert_visit-last :
    (v : Visit) (l : List Visit)
    → All (λ t. less_text t.node v.node ≡ true) l
    → insert_visit v l ≡ l ++ v ∷ []
unfolding insert_visit
insert_visit-last v [] h = refl
insert_visit-last v (t ∷ ts) (h, hs) = rw (h, insert_visit-last v ts hs) refl

All-middle :
    (t : Visit) (ts r : List Visit) (v : Visit)
    → All (λ u. less_text t.node u.node ≡ true) (ts ++ v ∷ r)
    → less_text t.node v.node ≡ true
All-middle t [] r v (h, hs) = h
All-middle t (u ∷ ts) r v (h, hs) = All-middle t ts r v hs

IsSorted-before :
    (l r : List Visit) (v : Visit)
    → IsSorted (l ++ v ∷ r)
    → All (λ t. less_text t.node v.node ≡ true) l
IsSorted-before [] r v s = tt
IsSorted-before (t ∷ ts) r v (h, s) = (All-middle t ts r v h, IsSorted-before ts r v s)

paths-front :
    (l : List Visit) (v : Visit) (r : List Visit) → paths (l ++ v ∷ []) ≤ paths (l ++ v ∷ r)
unfolding paths
paths-front [] v r = omega arith
paths-front (t ∷ ts) v r = omega (arith, paths-front ts v r)

-- What is added in the order of the map, with few neighbours, is added at the end.
pub add_list_node-last :
    (v : Visit) (l r : List Visit)
    → IsSorted (l ++ v ∷ r)
    → paths (l ++ v ∷ r) ≤ 5
    → add_list_node v l ≡ l ++ v ∷ []
unfolding add_list_node
add_list_node-last v l r s h =
    let last = insert_visit-last v l (IsSorted-before l r v s) in
    let few : paths (l ++ v ∷ []) ≤ 5 = omega (arith, paths-front l v r) in
    let none : ltb 5 (paths (l ++ v ∷ [])) ≡ false = ground arith in rw (last, none) refl
