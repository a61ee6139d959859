-- ===== src/Search/Response/Message.antt =====
-- Responses and lists of infos after they have crossed a message.
use pop_cpp.Base.{◌^◌, ◌≤◌, ◌<◌, ◌≡◌, refl, List, [], ◌++◌, append-nil, length, All, ok}
use pop_cpp.Buffer.Types.{Buffer, Item}
use pop_cpp.Buffer.Store.{IsSmall}
use pop_cpp.Buffer.Queue.{BufferClass, BufferLaws}
use pop_cpp.Buffer.Text.Laws.{
  IsText, string_items, Adds, Takes, pack_string-Adds, unpack_string-Takes,
}
use pop_cpp.Buffer.Text.Chain.{chain-Adds, chain-Takes}
use pop_cpp.Search.Fields.Laws.{
  IsMember, AllAlike, members_items, pack_members-Adds, unpack_members-Takes,
}
use pop_cpp.Search.Exploration.{Visit, paths, unpack_exploration}
use pop_cpp.Search.Exploration.Laws.{IsSorted}
use pop_cpp.Search.Exploration.Message.{
  IsVisit, exploration_items, pack_exploration-Adds, unpack_exploration-Takes,
}
use pop_cpp.Search.Node.{Info}
use pop_cpp.Search.Response.{
  info_members, set_info, Response, pack_info, unpack_info, pack_response, unpack_response,
}

-- Texts that C strings can hold, and numbers of 32 bits.
abbrev pub IsInfo : Info → Type 0
IsInfo n = All IsMember (info_members n)

pub record IsResponse (r : Response) : Type 0 where
  pub id_text : IsText r.req_unique_id
  pub app_text : IsText r.appid
  pub found_info : IsInfo r.found_node_info
  pub visit_texts : All IsVisit r.final_exploration_list
  pub few_visits : length r.final_exploration_list < 2 ^ 31
  pub sorted_visits : IsSorted r.final_exploration_list
  pub few_paths : paths r.final_exploration_list ≤ 5

module _ (c : BufferClass) (laws : BufferLaws c) where
  abbrev pub info_items : Info → List Item
  info_items n = members_items c laws (info_members n)

  info-AllAlike : (old n : Info) → AllAlike (info_members old) (info_members n)
  unfolding info_members
  info-AllAlike old n = (tt, (tt, (refl, (refl, (refl, (refl, (refl, (tt, (tt, (tt, tt))))))))))

  pack_info-Adds :
      (n : Info) (xs : List Item) (b : Buffer)
      → IsInfo n
      → laws.Holds b xs
      → Adds c laws xs (info_items n) b (pack_info c n b)
  unfolding pack_info
  pack_info-Adds n xs b i h = pack_members-Adds c laws (info_members n) xs b i h

  -- What an info is that has been read into an old one: Serialize leaves `jobmgr` out.
  abbrev pub read_info : Info → Info → Info
  read_info old n = record n { jobmgr = old.jobmgr }

  abbrev pub read_response : Response → Response → Response
  read_response old r = record r {
    found_node_info = read_info old.found_node_info r.found_node_info;
  }

  unpack_info-Takes :
      (old n : Info) (rest : List Item) (b : Buffer)
      → IsInfo n
      → IsSmall b
      → laws.Holds b (info_items n ++ rest)
      → Takes c laws (read_info old n) rest b (unpack_info c old b)
  unfolding unpack_info info_members set_info
  unpack_info-Takes old n rest b i small h =
      chain-Takes c laws b _ small
        (unpack_members-Takes c laws (info_members old) (info_members n) rest b i
          (info-AllAlike old n) small h)
        (λ b small h. (b, refl, h, refl, refl))

  abbrev pub response_items : Response → List Item
  response_items r =
      string_items r.req_unique_id
      ++ (string_items r.appid
          ++ (info_items r.found_node_info ++ exploration_items c laws r.final_exploration_list))

  pack_response-Adds :
      (xs : List Item) (r : Response) (b : Buffer)
      → IsResponse r
      → laws.Holds b xs
      → Adds c laws xs (response_items r) b (pack_response c r b)
  unfolding pack_response
  pack_response-Adds xs r b v h =
      chain-Adds c laws _ (string_items r.req_unique_id) _
        (pack_string-Adds c laws xs r.req_unique_id b v.id_text h)
        (λ b h.
          chain-Adds c laws _ (string_items r.appid) _
            (pack_string-Adds c laws _ r.appid b v.app_text h)
            (λ b h.
              chain-Adds c laws _ (info_items r.found_node_info) _
                (pack_info-Adds r.found_node_info _ b v.found_info h)
                (λ b h.
                  pack_exploration-Adds c laws _ r.final_exploration_list b v.visit_texts
                    v.few_visits h)))

  unpack_found-Takes :
      (old : List Visit) (r : Response) (b : Buffer)
      → old ≡ []
      → IsResponse r
      → IsSmall b
      → laws.Holds b (exploration_items c laws r.final_exploration_list)
      → Takes c laws r.final_exploration_list [] b (unpack_exploration c old b)
  unpack_found-Takes old r b fresh v small h = rw fresh (
      unpack_exploration-Takes c laws r.final_exploration_list [] b v.visit_texts v.few_visits
        v.sorted_visits v.few_paths small (rw append-nil h))

  unpack_response-Takes :
      (old r : Response) (b : Buffer)
      → old.final_exploration_list ≡ []
      → IsResponse r
      → IsSmall b
      → laws.Holds b (response_items r)
      → Takes c laws (read_response old r) [] b (unpack_response c old b)
  unfolding unpack_response
  unpack_response-Takes old r b fresh v small h =
      chain-Takes c laws b _ small
        (unpack_string-Takes c laws r.req_unique_id _ b v.id_text small h)
        (λ b small h.
          chain-Takes c laws b _ small (unpack_string-Takes c laws r.appid _ b v.app_text small h)
            (λ b small h.
              chain-Takes c laws b _ small
                (unpack_info-Takes old.found_node_info r.found_node_info
                  (exploration_items c laws r.final_exploration_list) b v.found_info small h)
                (λ b small h.
                  chain-Takes c laws b _ small
                    (unpack_found-Takes old.final_exploration_list r b fresh v small h)
                    (λ b small h. (b, refl, h, refl, refl)))))

  -- A response is packed into a reset buffer (less than 2 ^ 31 bytes in all) and read into one with
  -- an empty exploration list: this one has every member of the first, but it keeps its own access
  -- point of the node's job manager, which is not sent.
  pub unpack_response-pack_response :
      (old r : Response) (b : Buffer)
      → old.final_exploration_list ≡ []
      → IsResponse r
      → ((packed : Buffer) → pack_response c r (c.reset b) ≡ ok packed → IsSmall packed)
      → (packed b' : Buffer) × (pack_response c r (c.reset b) ≡ ok packed)
        × (unpack_response c old packed
            ≡ ok (
              record r {
                found_node_info = record r.found_node_info { jobmgr = old.found_node_info.jobmgr };
              },
              b',
            ))
  unpack_response-pack_response old r b fresh v small =
      let (packed, e, h, g) = pack_response-Adds [] r (c.reset b) v (laws.reset-Holds b) in
      let (b', e', _, _, _) = unpack_response-Takes old r packed fresh v (small packed e) h in
      (packed, b', e, e')
