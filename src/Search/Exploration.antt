-- ===== src/Search/Exploration.antt =====
-- ExplorationList: the nodes that a request has visited, with their neighbours
-- (lib/dynamic/explorationList.cc).
pub mod Laws
pub mod Message
use pop_cpp.Base.{
  ℕ, zero, suc, ◌+◌, Bool, true, false, List, [], ◌∷◌, length, Result, ok, ◌>>=◌, ltb, ◌==◌, ◌&&◌,
  ◌||◌, if◌then◌else◌,
}
use pop_cpp.Base.Bytes.{wrap32}
use pop_cpp.Buffer.Types.{Buffer}
use pop_cpp.Buffer.Queue.{BufferClass}
use pop_cpp.Buffer.Text.{
  pack_int, unpack_int, pack_string, unpack_string, pack_strings, unpack_strings,
}
use pop_cpp.AccessPoint.{equal_text}
use pop_cpp.Search.Route.{rounds}

-- operator< of std::string
abbrev pub less_text : List ℕ → List ℕ → Bool
less_text [] [] = false
less_text [] (y ∷ ys) = true
less_text (x ∷ xs) [] = false
less_text (x ∷ xs) (y ∷ ys) = ltb x y || ((x == y) && less_text xs ys)

pub record Visit : Type 0 where
  pub node : List ℕ
  pub neighbors : List (List ℕ)

-- std::map::insert: a node that is there already stays as it is.
unfoldable pub insert_visit : Visit → List Visit → List Visit
insert_visit v [] = v ∷ []
insert_visit v (t ∷ ts) =
    let later = insert_visit v ts in
    if less_text t.node v.node
    then t ∷ later
    else if equal_text t.node v.node
    then t ∷ ts
    else v ∷ t ∷ ts

abbrev pub is_path : Visit → Bool
is_path t = ltb 0 (length t.neighbors)

unfoldable pub paths : List Visit → ℕ
paths [] = 0
paths (t ∷ ts) = (if is_path t then 1 else 0) + paths ts

-- The loop runs backwards, so that the entry it ends with is the first that has neighbours.
unfoldable pub clear_first : List Visit → List Visit
clear_first [] = []
clear_first (t ∷ ts) =
    let later = clear_first ts in if is_path t then record t { neighbors = [] } ∷ ts else t ∷ later

-- NEIGHBORSPATH
abbrev pub neighbors_path : ℕ
neighbors_path = 5

abbrev pub trimmed : List Visit → List Visit
trimmed l = if ltb neighbors_path (paths l) then clear_first l else l

unfoldable pub add_list_node : Visit → List Visit → List Visit
add_list_node v l = trimmed (insert_visit v l)

unfoldable pub has_text : List ℕ → List (List ℕ) → Bool
has_text node [] = false
has_text node (n ∷ ns) = let later = has_text node ns in equal_text node n || later

unfoldable pub is_in : List ℕ → List Visit → Bool
is_in node [] = false
is_in node (t ∷ ts) =
    let later = is_in node ts in (equal_text node t.node || has_text node t.neighbors) || later

module _ (c : BufferClass) where
  unfoldable pub pack_visits : List Visit → Buffer → Result Buffer
  pack_visits [] b = ok b
  pack_visits (t ∷ ts) b = pack_string c t.node b >>= λ b.
      pack_int c (wrap32 (length t.neighbors)) b >>= λ b.
      pack_strings c t.neighbors b >>= λ b. pack_visits ts b

  -- Serialize(buf, true)
  unfoldable pub pack_exploration : List Visit → Buffer → Result Buffer
  pack_exploration l b = pack_int c (wrap32 (length l)) b >>= λ b. pack_visits l b

  unfoldable pub unpack_visit : Buffer → Result (Visit × Buffer)
  unpack_visit b = unpack_string c b >>= λ n. unpack_int c n.1 >>= λ s.
      unpack_strings c (rounds s.0) s.1 >>= λ r. ok (record { node = n.0; neighbors = r.0 }, r.1)

  unfoldable pub unpack_visits : ℕ → List Visit → Buffer → Result (List Visit × Buffer)
  unpack_visits zero l b = ok (l, b)
  unpack_visits (suc n) l b = unpack_visit b >>= λ r. unpack_visits n (add_list_node r.0 l) r.1

  -- Serialize(buf, false): the nodes are added to those that are there.
  unfoldable pub unpack_exploration : List Visit → Buffer → Result (List Visit × Buffer)
  unpack_exploration l b = unpack_int c b >>= λ r. unpack_visits (rounds r.0) l r.1
