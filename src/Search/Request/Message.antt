-- ===== src/Search/Request/Message.antt =====
-- What a request is after it has crossed a message.
use pop_cpp.Base.{
  ◌^◌, ◌≤◌, ◌<◌, ◌≡◌, refl, List, [], ◌∷◌, ◌++◌, append-nil, append_assoc, length, All, Result, ok,
  ◌>>=◌,
}
use mathlib.Core.Path.{subst}
use pop_cpp.Base.Bytes.{IsWord}
use pop_cpp.Buffer.Types.{Buffer, Item}
use pop_cpp.Buffer.Store.{IsSmall}
use pop_cpp.Buffer.Queue.{BufferClass, BufferLaws, Grows, Grows-trans}
use pop_cpp.Buffer.Text.Laws.{
  IsText, string_items, strings_items, Adds, Takes, pack_int-Adds, unpack_int-Takes,
  pack_string-Adds, unpack_string-Takes, pack_strings-Adds,
}
use pop_cpp.Buffer.Text.Chain.{chain-Takes}
use pop_cpp.Search.Fields.Laws.{
  AreFields, AreAlike, fields_read, fields_items, pack_bool-Adds, unpack_bool-Takes,
  pack_fields-Adds, unpack_fields-Takes,
}
use pop_cpp.Search.Route.{pack_wayback, wayback_items, unpack_wayback-Takes}
use pop_cpp.Search.Exploration.{Visit, paths, pack_exploration, unpack_exploration}
use pop_cpp.Search.Exploration.Laws.{IsSorted}
use pop_cpp.Search.Exploration.Message.{
  IsVisit, count_items, count-Adds, exploration_items, pack_exploration-Adds,
  unpack_exploration-Takes,
}
use pop_cpp.Search.Request.{Request, options, set_options, pack_request, unpack_request}

-- A request whose texts C strings can hold, with an exploration list as addListNode makes it.
pub record IsRequest (r : Request) : Type 0 where
  pub id_text : IsText r.unique_id
  pub hops_word : IsWord 4 r.max_hops
  pub option_members : AreFields (options r)
  pub pki_text : IsText r.pki
  pub main_pki_text : IsText r.main_pki
  pub app_text : IsText r.popappid
  pub way_texts : All IsText r.wb
  pub short_way : length r.wb < 2 ^ 31
  pub visit_texts : All IsVisit r.exploration_list
  pub few_visits : length r.exploration_list < 2 ^ 31
  pub sorted_visits : IsSorted r.exploration_list
  pub few_paths : paths r.exploration_list ≤ 5

-- What a request is after another has been read into it.
abbrev pub read_into : Request → Request → Request
read_into old r = record (set_options (fields_read (options old) (options r)) old) {
  unique_id = r.unique_id;
  max_hops = r.max_hops;
  pki = r.pki;
  main_pki = r.main_pki;
  popappid = r.popappid;
  ending_signal = r.ending_signal;
  wb = r.wb;
  exploration_list = r.exploration_list;
}

append_three : (xs ys zs ws : List Item) → ((xs ++ ys) ++ zs) ++ ws ≡ xs ++ ((ys ++ zs) ++ ws)
append_three xs ys zs ws = rw (append_assoc, append_assoc, append_assoc) refl

module _ (c : BufferClass) (laws : BufferLaws c) where
  abbrev pub tail_items : Request → List Item
  tail_items r =
      string_items r.pki
      ++ (string_items r.main_pki
          ++ (string_items r.popappid
              ++ (Item.bools (r.ending_signal ∷ [])
                  ∷ (wayback_items c laws r.wb ++ exploration_items c laws r.exploration_list))))

  abbrev pub request_items : Request → List Item
  request_items r =
      string_items r.unique_id
      ++ (count_items c laws r.max_hops ++ (fields_items c laws (options r) ++ tail_items r))

  unpack_onto-Takes :
      (old : List Visit) (r : Request) (b : Buffer)
      → old ≡ []
      → IsRequest r
      → IsSmall b
      → laws.Holds b (exploration_items c laws r.exploration_list)
      → Takes c laws r.exploration_list [] b (unpack_exploration c old b)
  unpack_onto-Takes old r b fresh v small h = rw fresh (
      unpack_exploration-Takes c laws r.exploration_list [] b v.visit_texts v.few_visits
        v.sorted_visits v.few_paths small (rw append-nil h))

  pub unpack_request-Takes :
      (old r : Request) (b : Buffer)
      → IsRequest r
      → AreAlike (options old) (options r)
      → old.exploration_list ≡ []
      → IsSmall b
      → laws.Holds b (request_items r)
      → Takes c laws (read_into old r) [] b (unpack_request c old b)
  unfolding unpack_request
  unpack_request-Takes old r b v a fresh small h =
      chain-Takes c laws b _ small (unpack_string-Takes c laws r.unique_id _ b v.id_text small h)
        (λ b small h.
          chain-Takes c laws b _ small (unpack_int-Takes c laws r.max_hops _ b small h)
            (λ b small h.
              chain-Takes c laws b _ small
                (unpack_fields-Takes c laws (options old) (options r) (tail_items r) b
                  v.option_members a small h)
                (λ b small h.
                  chain-Takes c laws b _ small
                    (unpack_string-Takes c laws r.pki _ b v.pki_text small h)
                    (λ b small h.
                      chain-Takes c laws b _ small
                        (unpack_string-Takes c laws r.main_pki _ b v.main_pki_text small h)
                        (λ b small h.
                          chain-Takes c laws b _ small
                            (unpack_string-Takes c laws r.popappid _ b v.app_text small h)
                            (λ b small h.
                              chain-Takes c laws b _ small
                                (unpack_bool-Takes c laws r.ending_signal _ b small h)
                                (λ b small h.
                                  chain-Takes c laws b _ small
                                    (unpack_wayback-Takes c laws r.wb
                                      (exploration_items c laws r.exploration_list) b v.way_texts
                                      v.short_way small h)
                                    (λ b small h.
                                      chain-Takes c laws b _ small
                                        (unpack_onto-Takes old.exploration_list r b fresh v small h)
                                        (λ b small h. (b, refl, h, refl, refl))))))))))

  -- What a writer that also returns a value has done.
  abbrev Ends : List Item → List Item → Buffer → Result (Buffer × Request) → Request → Type 0
  Ends xs items b x r = (b' : Buffer) × (x ≡ ok (b', r)) × laws.Holds b' (xs ++ items) × Grows b b'

  chain-Ends :
      (xs is js : List Item) {b : Buffer} {x : Result Buffer} {r : Request}
      {f : Buffer → Result (Buffer × Request)}
      → Adds c laws xs is b x
      → ((b' : Buffer) → laws.Holds b' (xs ++ is) → Ends (xs ++ is) js b' (f b') r)
      → Ends xs (is ++ js) b (x >>= f) r
  chain-Ends xs is js (b', e, h, g) next =
      let (b'', e', h', g') = next b' h in (b'', rw e e', rw append_assoc at h', Grows-trans g g')

  pack_rest-Ends :
      (xs : List Item) (r : Request) (b : Buffer)
      → IsRequest r
      → laws.Holds b xs
      → Ends xs
          (wayback_items c laws r.wb ++ exploration_items c laws r.exploration_list)
          b
          (pack_wayback c r.wb b >>= λ w.
            pack_exploration c r.exploration_list w.0 >>= λ b. ok (b, record r { wb = w.1 }))
          (record r { wb = [] })
  unfolding pack_wayback
  pack_rest-Ends xs r b v h =
      let (b1, e1, h1, g1) = count-Adds c laws (length r.wb) xs b v.short_way h in
      let (b2, e2, h2, g2) = pack_strings-Adds c laws _ r.wb b1 v.way_texts h1 in
      let (b3, e3, h3, g3) =
        pack_exploration-Adds c laws _ r.exploration_list b2 v.visit_texts v.few_visits h2 in
      (
        b3,
        rw (e1, e2, e3) refl,
        subst (laws.Holds b3)
            (append_three xs (count_items c laws (length r.wb)) (strings_items c laws r.wb)
              (exploration_items c laws r.exploration_list))
            h3,
        Grows-trans g1 (Grows-trans g2 g3),
      )

  pub pack_request-Ends :
      (xs : List Item) (r : Request) (b : Buffer)
      → IsRequest r
      → laws.Holds b xs
      → Ends xs (request_items r) b (pack_request c r b) (record r { wb = [] })
  unfolding pack_request
  pack_request-Ends xs r b v h =
      chain-Ends _ (string_items r.unique_id) _
        (pack_string-Adds c laws xs r.unique_id b v.id_text h)
        (λ b h.
          chain-Ends _ (count_items c laws r.max_hops) _
            (pack_int-Adds c laws _ r.max_hops b v.hops_word h)
            (λ b h.
              chain-Ends _ (fields_items c laws (options r)) _
                (pack_fields-Adds c laws _ (options r) b v.option_members h)
                (λ b h.
                  chain-Ends _ (string_items r.pki) _
                    (pack_string-Adds c laws _ r.pki b v.pki_text h)
                    (λ b h.
                      chain-Ends _ (string_items r.main_pki) _
                        (pack_string-Adds c laws _ r.main_pki b v.main_pki_text h)
                        (λ b h.
                          chain-Ends _ (string_items r.popappid) _
                            (pack_string-Adds c laws _ r.popappid b v.app_text h)
                            (λ b h.
                              chain-Ends _ (Item.bools (r.ending_signal ∷ []) ∷ []) _
                                (pack_bool-Adds c laws _ r.ending_signal b h)
                                (λ b h. pack_rest-Ends _ r b v h)))))))
