-- ===== src/Search/Exploration/Message.antt =====
-- An exploration list in a message (lib/dynamic/explorationList.cc).
use pop_cpp.Base.{
  ℕ, ◌^◌, ◌≤◌, ◌<◌, ◌≡◌, refl, List, [], ◌∷◌, ◌++◌, length, append-nil, append_assoc, All, arith,
}
use pop_cpp.Base.Bytes.{wrap32}
use pop_cpp.Buffer.Types.{Buffer, Item, Scalar}
use pop_cpp.Buffer.Store.{IsSmall}
use pop_cpp.Buffer.Queue.{BufferClass, BufferLaws, Grows-refl}
use pop_cpp.Buffer.Raw.Chars.{wrap32-small}
use pop_cpp.Buffer.Text.{pack_int}
use pop_cpp.Buffer.Text.Laws.{
  IsText, string_items, strings_items, Adds, Takes, pack_int-Adds, unpack_int-Takes,
  pack_string-Adds, unpack_string-Takes, pack_strings-Adds, unpack_strings-Takes,
}
use pop_cpp.Buffer.Text.Chain.{chain-Adds, chain-Takes}
use pop_cpp.Search.Route.{rounds}
use pop_cpp.Search.Exploration.{
  Visit, paths, pack_visits, pack_exploration, unpack_visit, unpack_visits, unpack_exploration,
}
use pop_cpp.Search.Exploration.Laws.{IsSorted, add_list_node-last}

-- Texts that a C string can hold, and few of them.
pub record IsVisit (t : Visit) : Type 0 where
  pub node_text : IsText t.node
  pub neighbor_texts : All IsText t.neighbors
  pub few_neighbors : length t.neighbors < 2 ^ 31

pub rounds-small : (n : ℕ) → n < 2 ^ 31 → rounds n ≡ n
rounds-small n h = ground arith

module _ (c : BufferClass) (laws : BufferLaws c) where
  abbrev pub count_items : ℕ → List Item
  count_items n = Item.scalars Scalar.int (n ∷ []) ∷ []

  pub count-Adds :
      (n : ℕ) (xs : List Item) (b : Buffer)
      → n < 2 ^ 31
      → laws.Holds b xs
      → Adds c laws xs (count_items n) b (pack_int c (wrap32 n) b)
  count-Adds n xs b h k = rw (wrap32-small n h) (pack_int-Adds c laws xs n b (omega arith) k)

  abbrev pub visit_items : Visit → List Item
  visit_items t =
      string_items t.node ++ (count_items (length t.neighbors) ++ strings_items c laws t.neighbors)

  unfoldable pub visits_items : List Visit → List Item
  visits_items [] = []
  visits_items (t ∷ ts) = visit_items t ++ visits_items ts

  pack_visits-Adds :
      (ts : List Visit) (xs : List Item) (b : Buffer)
      → All IsVisit ts
      → laws.Holds b xs
      → Adds c laws xs (visits_items ts) b (pack_visits c ts b)
  unfolding pack_visits visits_items
  pack_visits-Adds [] xs b v h = (b, refl, rw (append-nil xs) h, Grows-refl b)
  pack_visits-Adds (t ∷ ts) xs b (v, vs) h =
      chain-Adds c laws _ (string_items t.node) _
        (pack_string-Adds c laws xs t.node b v.node_text h)
        (λ b h.
          chain-Adds c laws _ (count_items (length t.neighbors)) _
            (count-Adds (length t.neighbors) _ b v.few_neighbors h)
            (λ b h.
              chain-Adds c laws _ (strings_items c laws t.neighbors) _
                (pack_strings-Adds c laws _ t.neighbors b v.neighbor_texts h)
                (λ b h. pack_visits-Adds ts _ b vs h)))

  abbrev pub exploration_items : List Visit → List Item
  exploration_items l = count_items (length l) ++ visits_items l

  pub pack_exploration-Adds :
      (xs : List Item) (l : List Visit) (b : Buffer)
      → All IsVisit l
      → length l < 2 ^ 31
      → laws.Holds b xs
      → Adds c laws xs (exploration_items l) b (pack_exploration c l b)
  unfolding pack_exploration
  pack_exploration-Adds xs l b v few h =
      chain-Adds c laws _ (count_items (length l)) _ (count-Adds (length l) xs b few h)
        (λ b h. pack_visits-Adds l _ b v h)

  unpack_visit-Takes :
      (t : Visit) (rest : List Item) (b : Buffer)
      → IsVisit t
      → IsSmall b
      → laws.Holds b (visit_items t ++ rest)
      → Takes c laws t rest b (unpack_visit c b)
  unfolding unpack_visit
  unpack_visit-Takes t rest b v small h =
      chain-Takes c laws b _ small (unpack_string-Takes c laws t.node _ b v.node_text small h)
        (λ b small h.
          chain-Takes c laws b _ small (unpack_int-Takes c laws (length t.neighbors) _ b small h)
            (λ b small h. rw (rounds-small (length t.neighbors) v.few_neighbors) (
              chain-Takes c laws b _ small
                (unpack_strings-Takes c laws t.neighbors rest b v.neighbor_texts small h)
                (λ b small h. (b, refl, h, refl, refl)))))

  unpack_visits-Takes :
      (r l : List Visit) (rest : List Item) (b : Buffer)
      → All IsVisit r
      → IsSorted (l ++ r)
      → paths (l ++ r) ≤ 5
      → IsSmall b
      → laws.Holds b (visits_items r ++ rest)
      → Takes c laws (l ++ r) rest b (unpack_visits c (length r) l b)
  unfolding unpack_visits visits_items
  unpack_visits-Takes [] l rest b v s p small h = (b, rw (append-nil l) refl, h, refl, refl)
  unpack_visits-Takes (t ∷ r) l rest b (v, vs) s p small h =
      let same : (l ++ t ∷ []) ++ r ≡ l ++ t ∷ r = append_assoc l (t ∷ []) r in
      chain-Takes c laws b _ small
        (unpack_visit-Takes t (visits_items r ++ rest) b v small (rw append_assoc at h))
        (λ b small h.
          rw (add_list_node-last t l r s p, ← same)
            (unpack_visits-Takes r (l ++ t ∷ []) rest b vs (rw (← same) at s) (rw (← same) at p)
              small h))

  pub unpack_exploration-Takes :
      (l : List Visit) (rest : List Item) (b : Buffer)
      → All IsVisit l
      → length l < 2 ^ 31
      → IsSorted l
      → paths l ≤ 5
      → IsSmall b
      → laws.Holds b (exploration_items l ++ rest)
      → Takes c laws l rest b (unpack_exploration c [] b)
  unfolding unpack_exploration
  unpack_exploration-Takes l rest b v few s p small h =
      chain-Takes c laws b _ small (unpack_int-Takes c laws (length l) _ b small h) (λ b small h.
        rw (rounds-small (length l) few) (unpack_visits-Takes l [] rest b v s p small h))
