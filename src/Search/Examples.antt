-- ===== src/Search/Examples.antt =====
-- The theorems on matching and searching at concrete inputs.
use pop_cpp.Base.{
  ℕ, ◌^◌, ◌≡◌, refl, ap, true, false, List, [], ◌∷◌, length, Result, ok, err, ◌≤◌, ◌<◌, ◌↔◌, arith,
}
use mathlib.Core.Path.{subst}
use pop_cpp.Base.Bytes.{le_array, le_bytes}
use pop_cpp.Buffer.Types.{Buffer, Scalar}
use pop_cpp.Buffer.Store.{resize, write, round4}
use pop_cpp.Buffer.Raw
use pop_cpp.Buffer.Raw.{raw_class}
use pop_cpp.Buffer.Raw.Laws.{raw_laws}
use pop_cpp.Buffer.Text.{pack_int, pack_string, pack_strings}
use pop_cpp.Buffer.Samples.{fresh}
use pop_cpp.Search.Fields.{Member, text, number, mark, Field}
use pop_cpp.Search.Exploration.{Visit, paths, is_in, add_list_node, pack_visits, pack_exploration}
use pop_cpp.Search.Exploration.Laws.{add_list_node_lem}
use pop_cpp.Search.Request.{Request, options, set_options}
use pop_cpp.Search.Request.Message.{read_into}
use pop_cpp.Search.Fields.{pack_members}
use pop_cpp.Search.Response
use pop_cpp.Search.Response.{info_members, pack_info, pack_response, unpack_response}
use pop_cpp.Search.Response.Message.{IsResponse, unpack_response-pack_response}
use pop_cpp.Search.Node.{Info, open_place, close_place}
use pop_cpp.AccessPoint.{new_accesspoint}
use pop_cpp.Search.Node.Answers.{Answer, callbacks, named, close_place-callbacks}
use pop_cpp.Exception.Codes.{codes}
use pop_cpp.Search.Wildcard.{loop, skip_stars, Matches, match_wildcard}
use pop_cpp.Search.Complete.{match_wildcard_iff}

match_wildcard_iff_example :
    (match_wildcard (codes "pop-cpp.log") (codes "p?p*.log") ≡ true)
    ↔ Matches (codes "pop-cpp.log") (codes "p?p*.log")
match_wildcard_iff_example = match_wildcard_iff (codes "pop-cpp.log") (codes "p?p*.log") refl

log_matches : match_wildcard (codes "pop-cpp.log") (codes "p?p*.log") ≡ true
unfolding match_wildcard loop skip_stars
log_matches = refl

-- A star at the end, behind another, is not taken for nothing.
no_trailing_star : match_wildcard (codes "ab") (codes "a*b*") ≡ false
unfolding match_wildcard loop skip_stars
no_trailing_star = refl

abbrev option : Member → Field
option m = record { is_set = true; member = m }

abbrev missing : Member → Field
missing m = record { is_set = false; member = m }

abbrev empty_request : Request
empty_request = record {
  unique_id = [];
  max_hops = 0;
  wb = [];
  popappid = [];
  pki = [];
  main_pki = [];
  ending_signal = false;
  node_id = missing (text []);
  operating_system = missing (text []);
  min_cpu_speed = missing (number Scalar.int 0);
  expected_cpu_speed = missing (mark 0);
  min_memory_size = missing (number Scalar.float 0);
  expected_memory_size = missing (number Scalar.float 0);
  min_network_bandwidth = missing (number Scalar.float 0);
  expected_network_bandwidth = missing (number Scalar.float 0);
  min_disk_space = missing (number Scalar.int 0);
  expected_disk_space = missing (number Scalar.int 0);
  min_power = missing (number Scalar.float 0);
  expected_power = missing (number Scalar.float 0);
  protocol = missing (text []);
  encoding = missing (text []);
  exploration_list = [];
}

abbrev visit : Visit
visit = record { node = 97 ∷ []; neighbors = (98 ∷ []) ∷ (99 ∷ []) ∷ [] }

abbrev request : Request
request = record empty_request {
  unique_id = codes "n__1";
  max_hops = 5;
  wb = (97 ∷ []) ∷ [];
  min_cpu_speed = option (number Scalar.int 2000);
  expected_cpu_speed = option (mark 3000);
  protocol = option (text (codes "socket"));
  exploration_list = visit ∷ [];
}

abbrev size : Result (Buffer × Request) → ℕ
size (ok (b, r)) = length b.packeddata
size (err e) = 0

-- The expected speed does not arrive.
expected_speed_lost : (read_into empty_request request).expected_cpu_speed ≡ option (mark 0)
unfolding options set_options
expected_speed_lost = refl

add_list_node_lem_example :
    (is_in (97 ∷ []) (add_list_node visit (visit ∷ [])) ≡ true)
    × (paths (add_list_node visit (visit ∷ [])) ≤ 5)
unfolding paths
add_list_node_lem_example = add_list_node_lem visit (visit ∷ []) (omega arith)

abbrev info : ℕ → Info
info n = record {
  node_id = n ∷ [];
  jobmgr = record new_accesspoint { endpoint = n ∷ [] };
  operating_system = [];
  power = 0;
  cpu_speed = 0;
  memory_size = 0;
  network_bandwidth = 0;
  disk_space = 0;
  protocol = [];
  encoding = [];
  pki = [];
}

abbrev responses : List Answer
responses = (1 ∷ [], info 4) ∷ (2 ∷ [], info 5) ∷ (1 ∷ [], info 6) ∷ []

close_place-callbacks_example :
    (close_place (1 ∷ []) (callbacks responses (open_place (1 ∷ []) []))).0
    ≡ named (1 ∷ []) responses
close_place-callbacks_example = close_place-callbacks (1 ∷ []) responses []

abbrev response : Response.Response
response = record {
  req_unique_id = codes "n__1";
  appid = codes "app";
  found_node_info = info 97;
  final_exploration_list = visit ∷ [];
}

abbrev empty_response : Response.Response
empty_response = record response {
  req_unique_id = [];
  appid = [];
  found_node_info = info 0;
  final_exploration_list = [];
}

response-IsResponse : IsResponse response
unfolding info_members paths
response-IsResponse = omega arith

abbrev size_of : Result Buffer → ℕ
size_of (ok b) = length b.packeddata
size_of (err e) = 0

response-size : size_of (pack_response raw_class response (raw_class.reset fresh)) < 2 ^ 31
unfolding pack_response pack_info pack_members info_members pack_exploration pack_visits
    pack_strings pack_string pack_int raw_class Raw.reset Raw.pack Raw.pack_chars resize write
    round4 le_array le_bytes
response-size = omega arith

unpack_response-pack_response_example :
    (packed b' : Buffer) × (pack_response raw_class response (raw_class.reset fresh) ≡ ok packed)
    × (unpack_response raw_class empty_response packed
        ≡ ok (
          record response { found_node_info = record (info 97) { jobmgr = (info 0).jobmgr } },
          b',
        ))
unpack_response-pack_response_example =
    unpack_response-pack_response raw_class raw_laws empty_response response fresh refl
      response-IsResponse (λ b e. subst (λ n. n < 2 ^ 31) (ap size_of e) response-size)
