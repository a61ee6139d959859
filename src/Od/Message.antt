-- ===== src/Od/Message.antt =====
-- What an object description is after it has crossed a message.
use pop_cpp.Base.{
  ℕ, ◌*◌, ◌^◌, ◌<◌, ◌≡◌, refl, Bool, true, false, List, [], ◌∷◌, ◌++◌, append-nil, length, All, ok,
  arith, if◌then◌else◌,
}
use pop_cpp.Base.Bytes.{IsWord, wrap32, to_size}
use pop_cpp.Buffer.Types.{Buffer, Item, Scalar}
use pop_cpp.Buffer.Store.{IsSmall}
use pop_cpp.Buffer.Queue.{BufferClass, BufferLaws}
use pop_cpp.Buffer.Text.{pack_int, unpack_strings}
use pop_cpp.Buffer.Text.Laws.{
  IsText, strings_items, Adds, Takes, pack_int-Adds, unpack_int-Takes, pack_strings-Adds,
  unpack_strings-Takes,
}
use pop_cpp.Buffer.Text.Chain.{chain-Adds, chain-Takes}
use pop_cpp.Buffer.Raw.Chars.{wrap32-small}
use pop_cpp.Od.{
  Od, power, memory, bandwidth, walltime, search, texts, set_texts, flat, pack_od, unpack_od,
  unpack_list,
}
use pop_cpp.Od.Laws.{IsOd, IsOrdered, read_into, pairs-flat, length-flat, ordered-same}

module _ (c : BufferClass) (laws : BufferLaws c) where
  abbrev pub list_items : Scalar → List ℕ → List Item
  list_items s xs = Item.scalars s xs ∷ []

  abbrev pub od_items : Od → List Item
  od_items od =
      Item.scalars Scalar.float (od.mflops ∷ od.min_mflops ∷ [])
      ∷ Item.scalars Scalar.float (od.ram ∷ od.min_ram ∷ [])
      ∷ Item.scalars Scalar.float (od.net ∷ od.min_net ∷ [])
      ∷ Item.scalars Scalar.float (od.time ∷ [])
      ∷ Item.scalars Scalar.int ((if od.is_manual then 1 else 0) ∷ [])
      ∷ (strings_items c laws (od.cwd ∷ [])
          ++ (Item.scalars Scalar.int (od.max_depth ∷ od.max_size ∷ od.wait_time ∷ [])
              ∷ (strings_items c laws (texts od)
                  ++ (Item.scalars Scalar.int (length od.attributes ∷ [])
                      ∷ strings_items c laws (flat od.attributes)))))

  pack_list-Adds :
      (s : Scalar) (xs : List ℕ) (b : Buffer) (before : List Item)
      → laws.Fits (Item.scalars s xs)
      → laws.Holds b before
      → Adds c laws before (list_items s xs) b (c.pack (Item.scalars s xs) b)
  pack_list-Adds s xs b before k h = laws.pack-Holds _ b before k h

  unpack_list-Takes :
      (s : Scalar) (xs : List ℕ) (rest : List Item) (b : Buffer)
      → IsSmall b
      → laws.Holds b (list_items s xs ++ rest)
      → Takes c laws xs rest b (unpack_list c s (length xs) b)
  unpack_list-Takes s xs rest b small h =
      let (b', e, h', same, k) = laws.unpack-Holds (Item.scalars s xs) b rest small h in
      (b', rw e refl, h', same, k)

  float_Fits :
      (xs : List ℕ) → All (IsWord 4) xs → length xs < 4 → laws.Fits (Item.scalars Scalar.float xs)
  float_Fits xs h k = laws.Fits-scalars Scalar.float xs tt h (omega arith)

  manual-IsWord : (b : Bool) → IsWord 4 (if b then 1 else 0)
  manual-IsWord true = omega arith
  manual-IsWord false = omega arith

  count-Adds :
      (n : ℕ) (xs : List Item) (b : Buffer)
      → n < 2 ^ 31
      → laws.Holds b xs
      → Adds c laws xs (list_items Scalar.int (n ∷ [])) b (pack_int c (wrap32 n) b)
  count-Adds n xs b h k = rw (wrap32-small n h) (pack_int-Adds c laws xs n b (omega arith) k)

  pub pack_od-Adds :
      (xs : List Item) (od : Od) (b : Buffer)
      → IsOd od
      → laws.Holds b xs
      → Adds c laws xs (od_items od) b (pack_od c od b)
  unfolding pack_od
  pack_od-Adds xs od b v h =
      chain-Adds c laws _ (list_items Scalar.float (od.mflops ∷ od.min_mflops ∷ [])) _
        (pack_list-Adds _ _ b xs (float_Fits _ v.power_words (omega arith)) h)
        (λ b h.
          chain-Adds c laws _ (list_items Scalar.float (od.ram ∷ od.min_ram ∷ [])) _
            (pack_list-Adds _ _ b _ (float_Fits _ v.memory_words (omega arith)) h)
            (λ b h.
              chain-Adds c laws _ (list_items Scalar.float (od.net ∷ od.min_net ∷ [])) _
                (pack_list-Adds _ _ b _ (float_Fits _ v.net_words (omega arith)) h)
                (λ b h.
                  chain-Adds c laws _ (list_items Scalar.float (od.time ∷ [])) _
                    (pack_list-Adds _ _ b _ (float_Fits _ v.time_words (omega arith)) h)
                    (λ b h.
                      chain-Adds c laws _
                        (list_items Scalar.int ((if od.is_manual then 1 else 0) ∷ [])) _
                        (pack_int-Adds c laws _ _ b (manual-IsWord od.is_manual) h)
                        (λ b h.
                          chain-Adds c laws _ (strings_items c laws (od.cwd ∷ [])) _
                            (pack_strings-Adds c laws _ _ b v.cwd_text h)
                            (λ b h.
                              chain-Adds c laws _
                                (list_items Scalar.int
                                  (od.max_depth ∷ od.max_size ∷ od.wait_time ∷ []))
                                _
                                (pack_list-Adds _ _ b _
                                  (laws.Fits-scalars Scalar.int _ tt v.search_words (omega arith))
                                  h)
                                (λ b h.
                                  chain-Adds c laws _ (strings_items c laws (texts od)) _
                                    (pack_strings-Adds c laws _ _ b v.host_texts h)
                                    (λ b h.
                                      chain-Adds c laws _
                                        (list_items Scalar.int (length od.attributes ∷ [])) _
                                        (count-Adds _ _ b v.few_attributes h)
                                        (λ b h.
                                          pack_strings-Adds c laws _ (flat od.attributes) b
                                            v.attribute_texts h)))))))))

  to_size-small : (n : ℕ) → n < 2 ^ 31 → to_size n ≡ n
  to_size-small n h = ground arith

  All-attributes :
      (ps : List (List ℕ × List ℕ)) (b : Buffer)
      → All IsText (flat ps)
      → length ps < 2 ^ 31
      → IsSmall b
      → laws.Holds b (strings_items c laws (flat ps))
      → Takes c laws (flat ps) [] b (unpack_strings c (2 * to_size (length ps)) b)
  All-attributes ps b t few small h =
      rw (to_size-small (length ps) few, ← length-flat ps)
        (unpack_strings-Takes c laws (flat ps) [] b t small (rw append-nil h))

  pub unpack_od-Takes :
      (greater : ℕ → ℕ → Bool) (old od : Od) (b : Buffer)
      → IsOd od
      → IsOrdered greater od
      → IsSmall b
      → laws.Holds b (od_items od)
      → Takes c laws (read_into old od) [] b (unpack_od c greater old b)
  unfolding unpack_od power memory bandwidth walltime search set_texts texts
  unpack_od-Takes greater old od b v o small h =
      chain-Takes c laws b _ small
        (unpack_list-Takes Scalar.float (od.mflops ∷ od.min_mflops ∷ []) _ b small h)
        (λ b small h.
          chain-Takes c laws b _ small
            (unpack_list-Takes Scalar.float (od.ram ∷ od.min_ram ∷ []) _ b small h)
            (λ b small h.
              chain-Takes c laws b _ small
                (unpack_list-Takes Scalar.float (od.net ∷ od.min_net ∷ []) _ b small h)
                (λ b small h.
                  chain-Takes c laws b _ small
                    (unpack_list-Takes Scalar.float (od.time ∷ []) _ b small h)
                    (λ b small h.
                      chain-Takes c laws b _ small
                        (unpack_int-Takes c laws (if od.is_manual then 1 else 0) _ b small h)
                        (λ b small h.
                          chain-Takes c laws b _ small
                            (unpack_strings-Takes c laws (od.cwd ∷ []) _ b v.cwd_text small h)
                            (λ b small h.
                              chain-Takes c laws b _ small
                                (unpack_list-Takes Scalar.int
                                  (od.max_depth ∷ od.max_size ∷ od.wait_time ∷ []) _ b small h)
                                (λ b small h.
                                  chain-Takes c laws b _ small
                                    (unpack_strings-Takes c laws (texts od) _ b v.host_texts small
                                      h)
                                    (λ b small h.
                                      chain-Takes c laws b _ small
                                        (unpack_int-Takes c laws (length od.attributes) _ b small h)
                                        (λ b small h.
                                          let (b', e, h', same, k) =
                                            All-attributes od.attributes b v.attribute_texts
                                              v.few_attributes small h in
                                          (
                                            b',
                                            rw
                                                (
                                                  e,
                                                  ordered-same greater _ _ o.power_order,
                                                  ordered-same greater _ _ o.memory_order,
                                                  ordered-same greater _ _ o.net_order,
                                                  pairs-flat od.attributes,
                                                )
                                                refl,
                                            h',
                                            same,
                                            k,
                                          ))))))))))

  -- A description with demands in order, whose texts are C strings, is packed into a reset buffer
  -- (less than 2 ^ 31 bytes in all) and read into another description: this one has every member
  -- of the first, attributes and their order included, but for these: it keeps its own manual
  -- flag, node and core values, choice of the local machine, and marks of a secure object and of a
  -- service; and its search parameters count as set.
  pub unpack_od-pack_od :
      (greater : ℕ → ℕ → Bool) (old od : Od) (b : Buffer)
      → IsOd od
      → IsOrdered greater od
      → ((packed : Buffer) → pack_od c od (c.reset b) ≡ ok packed → IsSmall packed)
      → (packed b' : Buffer) × (pack_od c od (c.reset b) ≡ ok packed)
        × (unpack_od c greater old packed
            ≡ ok (
              record od {
                is_manual = old.is_manual;
                node_value = old.node_value;
                core_value = old.core_value;
                search_set = true;
                secure_set = old.secure_set;
                service_set = old.service_set;
                is_local = old.is_local;
              },
              b',
            ))
  unpack_od-pack_od greater old od b v o small =
      let (packed, e, h, g) = pack_od-Adds [] od (c.reset b) v (laws.reset-Holds b) in
      let (b', e', _, _, _) = unpack_od-Takes greater old od packed v o (small packed e) h in
      (packed, b', e, e')
