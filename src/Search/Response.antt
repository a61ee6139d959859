-- ===== src/Search/Response.antt =====
-- Nodes that have been found, and the response that carries one back
-- (lib/dynamic/popc_search_node_info.cc, lib/dynamic/response.cc).
pub mod Message
use pop_cpp.Base.{ℕ, zero, suc, ◌^◌, Bool, List, [], ◌∷◌, ◌++◌, length, Result, ok, ◌>>=◌}
use pop_cpp.Base.Bytes.{wrap32}
use pop_cpp.Buffer.Types.{Buffer, Scalar}
use pop_cpp.Buffer.Queue.{BufferClass}
use pop_cpp.Buffer.Text.{pack_int, unpack_int, pack_string, unpack_string}
use pop_cpp.Search.Fields.{Member, text, number, mark, pack_members, unpack_members}
use pop_cpp.Search.Route.{rounds}
use pop_cpp.Search.Exploration.{Visit, pack_exploration, unpack_exploration}
use pop_cpp.Search.Node.{Info}

-- The members of POPCSearchNodeInfo in the order of Serialize, which leaves `jobmgr` out.
unfoldable pub info_members : Info → List Member
info_members n =
    text n.node_id
    ∷ text n.operating_system
    ∷ number Scalar.float n.power
    ∷ number Scalar.int n.cpu_speed
    ∷ number Scalar.float n.memory_size
    ∷ number Scalar.float n.network_bandwidth
    ∷ number Scalar.int n.disk_space
    ∷ text n.protocol
    ∷ text n.encoding
    ∷ text n.pki
    ∷ []

unfoldable pub set_info : List Member → Info → Info
set_info
      (text a
        ∷ text b
        ∷ number s c
        ∷ number t d
        ∷ number u e
        ∷ number v f
        ∷ number w g
        ∷ text h
        ∷ text i
        ∷ text j
        ∷ [])
      n =
    record n {
      node_id = a;
      operating_system = b;
      power = c;
      cpu_speed = d;
      memory_size = e;
      network_bandwidth = f;
      disk_space = g;
      protocol = h;
      encoding = i;
      pki = j;
    }
set_info _ n = n

pub record Response : Type 0 where
  pub req_unique_id : List ℕ
  pub appid : List ℕ
  pub found_node_info : Info
  pub final_exploration_list : List Visit

module _ (c : BufferClass) where
  unfoldable pub pack_info : Info → Buffer → Result Buffer
  pack_info n b = pack_members c (info_members n) b

  unfoldable pub unpack_info : Info → Buffer → Result (Info × Buffer)
  unpack_info old b = unpack_members c (info_members old) b >>= λ r. ok (set_info r.0 old, r.1)

  unfoldable pub pack_response : Response → Buffer → Result Buffer
  pack_response r b = pack_string c r.req_unique_id b >>= λ b. pack_string c r.appid b >>= λ b.
      pack_info r.found_node_info b >>= λ b. pack_exploration c r.final_exploration_list b

  unfoldable pub unpack_response : Response → Buffer → Result (Response × Buffer)
  unpack_response old b = unpack_string c b >>= λ u. unpack_string c u.1 >>= λ a.
      unpack_info old.found_node_info a.1 >>= λ n.
      unpack_exploration c old.final_exploration_list n.1 >>= λ x. ok (
        record {
          req_unique_id = u.0;
          appid = a.0;
          found_node_info = n.0;
          final_exploration_list = x.0;
        },
        x.1,
      )

  unfoldable pub pack_all : List Info → Buffer → Result Buffer
  pack_all [] b = ok b
  pack_all (n ∷ ns) b = pack_info n b >>= λ b. pack_all ns b

  -- POPCSearchNodeInfos: the number of infos, and the infos.
  unfoldable pub pack_infos : List Info → Buffer → Result Buffer
  pack_infos ns b = pack_int c (wrap32 (length ns)) b >>= λ b. pack_all ns b

  -- Each info is read into a new one, whose numbers are what is in the storage.
  unfoldable pub unpack_all : Info → ℕ → List Info → Buffer → Result (List Info × Buffer)
  unpack_all storage zero ns b = ok (ns, b)
  unpack_all storage (suc k) ns b =
      unpack_info storage b >>= λ r. unpack_all storage k (ns ++ r.0 ∷ []) r.1

  unfoldable pub unpack_infos : Info → List Info → Buffer → Result (List Info × Buffer)
  unpack_infos storage ns b = unpack_int c b >>= λ r. unpack_all storage (rounds r.0) ns r.1
