-- ===== src/Search/Route.antt =====
-- POPWayback: the way back to the node that has made a request (lib/core/popwayback.cc).
use pop_cpp.Base.{
  ℕ, ◌^◌, ◌<◌, ◌≡◌, refl, sym, ◌∙◌, Bool, Bool-cases, inl, inr, List, [], ◌∷◌, ◌++◌, length, All,
  Result, ok, err, undefined, ◌>>=◌, ltb, leb, if◌then◌else◌, arith,
}
use mathlib.Core.Path.{subst}
use pop_cpp.Base.Bytes.{wrap32}
use pop_cpp.Buffer.Types.{Buffer, Item, Scalar}
use pop_cpp.Buffer.Store.{IsSmall}
use pop_cpp.Buffer.Queue.{BufferClass, BufferLaws}
use pop_cpp.Buffer.Text.{pack_int, unpack_int, pack_strings, unpack_strings}
use pop_cpp.Buffer.Text.Laws.{IsText, strings_items, Takes, unpack_int-Takes, unpack_strings-Takes}
use pop_cpp.Buffer.Text.Chain.{chain-Takes}
use pop_cpp.AccessPoint.{equal_text}
use pop_cpp.AccessPoint.Texts.{equal_text-true}

-- The list of nodes; the next one is the last.
abbrev pub Wayback : Type 0
Wayback = List (List ℕ)

-- operator=
unfoldable pub assign_way : Wayback → Wayback → Wayback
assign_way [] old = old
assign_way (n ∷ ns) old = n ∷ ns

unfoldable pub get_as_string : Wayback → List ℕ
get_as_string [] = []
get_as_string (n ∷ ns) = n ++ 47 ∷ 47 ∷ get_as_string ns

-- list::back and list::pop_back of an empty list are undefined.
unfoldable pub get_next_node : Wayback → Result (List ℕ)
get_next_node [] = err undefined
get_next_node (n ∷ []) = ok n
get_next_node (n ∷ m ∷ ns) = get_next_node (m ∷ ns)

unfoldable pub delete_next_node : Wayback → Result Wayback
delete_next_node [] = err undefined
delete_next_node (n ∷ []) = ok []
delete_next_node (n ∷ m ∷ ns) = delete_next_node (m ∷ ns) >>= λ r. ok (n ∷ r)

abbrev pub inserted : List ℕ → Wayback → Result (List ℕ) → Wayback
inserted node wb (ok last) = if equal_text last node then wb ++ node ∷ [] else wb
inserted node wb (err e) = node ∷ []

-- insertNode: the first node, and then only what the list ends with already.
unfoldable pub insert_node : List ℕ → Wayback → Wayback
insert_node node wb = inserted node wb (get_next_node wb)

unfoldable pub is_last_node : Wayback → Bool
is_last_node wb = leb (length wb) 1

-- `for (int i = 0; i < size; i++)`
abbrev pub rounds : ℕ → ℕ
rounds size = if ltb size (2 ^ 31) then size else 0

module _ (c : BufferClass) where
  -- Serialize(buf, true): the list is empty afterwards.
  unfoldable pub pack_wayback : Wayback → Buffer → Result (Buffer × Wayback)
  pack_wayback wb b =
      pack_int c (wrap32 (length wb)) b >>= λ b. pack_strings c wb b >>= λ b. ok (b, [])

  unfoldable pub unpack_wayback : Buffer → Result (Wayback × Buffer)
  unpack_wayback b = unpack_int c b >>= λ r. unpack_strings c (rounds r.0) r.1

-- Every node of a way back that insertNode has made is the first.
abbrev pub IsSame : List ℕ → Wayback → Type 0
IsSame node wb = All (λ n. n ≡ node) wb

IsSame-get_next_node :
    (node : List ℕ) (wb : Wayback) (last : List ℕ)
    → IsSame node wb
    → get_next_node wb ≡ ok last
    → last ≡ node
unfolding get_next_node
IsSame-get_next_node node [] last i e = absurd (cc)
IsSame-get_next_node node (n ∷ []) last (h, i) e = cc
IsSame-get_next_node node (n ∷ m ∷ ns) last (h, i) e = IsSame-get_next_node node (m ∷ ns) last i e

IsSame-snoc : (node : List ℕ) (wb : Wayback) → IsSame node wb → IsSame node (wb ++ node ∷ [])
IsSame-snoc node [] i = (refl, tt)
IsSame-snoc node (n ∷ ns) (h, i) = (h, IsSame-snoc node ns i)

get_next_node-cons :
    (n : List ℕ) (ns : Wayback) → (last : List ℕ) × (get_next_node (n ∷ ns) ≡ ok last)
unfolding get_next_node
get_next_node-cons n [] = (n, refl)
get_next_node-cons n (m ∷ ns) = get_next_node-cons m ns

insert_node-IsSame :
    (node new n : List ℕ) (ns : Wayback)
    → IsSame node (n ∷ ns)
    → (m : List ℕ) × (ms : Wayback) × (insert_node new (n ∷ ns) ≡ m ∷ ms) × IsSame node (m ∷ ms)
unfolding insert_node
insert_node-IsSame node new n ns i =
    let (last, e) = get_next_node-cons n ns in
    rw e (elim (Bool-cases (equal_text last new)) [
      | inl y ↦
          let here = IsSame-get_next_node node (n ∷ ns) last i e in
          let same : new ≡ node = sym (equal_text-true last new y) ∙ here in
          rw y (
            n,
            ns ++ new ∷ [],
            refl,
            subst (λ k. IsSame node ((n ∷ ns) ++ k ∷ [])) (sym same) (IsSame-snoc node (n ∷ ns) i),
          )
      | inr z ↦ rw z (n, ns, refl, i)
    ])

unfoldable pub insert_nodes : List (List ℕ) → Wayback → Wayback
insert_nodes [] wb = wb
insert_nodes (n ∷ ns) wb = insert_nodes ns (insert_node n wb)

insert_nodes-cons :
    (node n : List ℕ) (ns : Wayback) (more : List (List ℕ))
    → IsSame node (n ∷ ns)
    → IsSame node (insert_nodes more (n ∷ ns))
unfolding insert_nodes
insert_nodes-cons node n ns [] i = i
insert_nodes-cons node n ns (k ∷ more) i =
    let (m, ms, e, i') = insert_node-IsSame node k n ns i in
    rw e (insert_nodes-cons node m ms more i')

-- Whatever nodes are inserted one after the other into an empty way back, it has only the first of
-- them, perhaps more than once.
pub insert_nodes-IsSame :
    (node : List ℕ) (more : List (List ℕ)) → IsSame node (insert_nodes (node ∷ more) [])
unfolding insert_nodes insert_node get_next_node
insert_nodes-IsSame node more = insert_nodes-cons node node [] more (refl, tt)

module _ (c : BufferClass) (laws : BufferLaws c) where
  abbrev pub wayback_items : Wayback → List Item
  wayback_items wb = Item.scalars Scalar.int (length wb ∷ []) ∷ strings_items c laws wb

  pub unpack_wayback-Takes :
      (wb : Wayback) (rest : List Item) (b : Buffer)
      → All IsText wb
      → length wb < 2 ^ 31
      → IsSmall b
      → laws.Holds b (wayback_items wb ++ rest)
      → Takes c laws wb rest b (unpack_wayback c b)
  unfolding unpack_wayback
  unpack_wayback-Takes wb rest b t few small h =
      let all : rounds (length wb) ≡ length wb = ground arith in
      chain-Takes c laws b _ small (unpack_int-Takes c laws (length wb) _ b small h)
        (λ b small h. rw all (unpack_strings-Takes c laws wb rest b t small h))
