-- ===== src/Search/Node.antt =====
-- What a search node keeps: its resources, the requests that it knows and the answers that have
-- come (services/lib/popc_search_node.cc).
pub mod Answers
use pop_cpp.Base.{
  ℕ, suc, ◌+◌, ◌-◌, ◌%◌, ◌^◌, Bool, true, false, not, List, [], ◌∷◌, ◌++◌, length, Option, none,
  some, ltb, ◌==◌, ◌&&◌, ◌||◌, if◌then◌else◌,
}
use pop_cpp.Base.Bytes.{wrap32}
use pop_cpp.Base.Floats.{Floats}
use pop_cpp.AccessPoint.{AccessPoint, equal_text}
use pop_cpp.Search.Fields.{Member, text, number, mark, Field}
use pop_cpp.Search.Request.{Request}

-- POPCSearchNodeInfo
pub record Info : Type 0 where
  pub node_id : List ℕ
  pub jobmgr : AccessPoint
  pub operating_system : List ℕ
  pub power : ℕ
  pub cpu_speed : ℕ
  pub memory_size : ℕ
  pub network_bandwidth : ℕ
  pub disk_space : ℕ
  pub protocol : List ℕ
  pub encoding : List ℕ
  pub pki : List ℕ

-- An entry of actualReq.
pub record Place : Type 0 where
  pub id : List ℕ
  pub infos : List Info

pub record Node : Type 0 where
  pub info : Info
  pub known_requests : List (List ℕ)
  pub actual_req : List Place
  pub current_jobs : ℕ
  pub max_jobs : ℕ

-- `a < b` for two values of type `int`.
abbrev pub less_int : ℕ → ℕ → Bool
less_int a b = ltb ((a + 2 ^ 31) % 2 ^ 32) ((b + 2 ^ 31) % 2 ^ 32)

abbrev pub number_of : Member → ℕ
number_of (text s) = 0
number_of (number t x) = x
number_of (mark x) = x

-- A demand that is set and that the resources do not meet.
abbrev pub fails : Field → (ℕ → Bool) → Bool
fails t test = t.is_set && test (number_of t.member)

module _ (f : Floats) where
  unfoldable pub add_job : ℕ → ℕ → ℕ → Node → Node
  add_job power memory_size bandwidth n = record n {
    info = record n.info {
      memory_size = f.sub n.info.memory_size memory_size;
      power = f.sub n.info.power power;
      network_bandwidth = f.sub n.info.network_bandwidth bandwidth;
    };
    current_jobs = wrap32 (n.current_jobs + 1);
  }

  -- `half` is 0.5.
  unfoldable pub check_resource : ℕ → Request → Node → Bool
  check_resource half req n =
      if not (less_int n.current_jobs n.max_jobs)
      then false
      else if fails req.min_cpu_speed (λ x. less_int n.info.cpu_speed x)
      then false
      else if fails req.expected_cpu_speed (λ x. not (less_int n.info.cpu_speed x))
      then false
      else if fails req.min_memory_size (λ x. f.less n.info.memory_size x)
      then false
      else if fails req.expected_memory_size (λ x. f.le n.info.memory_size x)
      then false
      else if f.less half n.info.network_bandwidth
          && fails req.min_network_bandwidth (λ x. f.less n.info.network_bandwidth x)
      then false
      else if f.less half n.info.network_bandwidth
          && fails req.expected_network_bandwidth (λ x. f.le n.info.network_bandwidth x)
      then false
      else if fails req.min_disk_space (λ x. less_int n.info.disk_space x)
      then false
      else if fails req.min_power (λ x. f.less n.info.power x)
      then false
      else not (fails req.expected_power (λ x. f.less n.info.power x))

-- removeJob sets the resources to what the job has freed.
unfoldable pub remove_job : ℕ → ℕ → ℕ → ℕ → Node → Node
remove_job power memory_size bandwidth jobs n = record n {
  info = record n.info { memory_size = memory_size; power = power; network_bandwidth = bandwidth };
  current_jobs = wrap32 (n.current_jobs + (2 ^ 32 - jobs));
}

unfoldable pub is_known : List ℕ → List (List ℕ) → Bool
is_known id [] = false
is_known id (k ∷ ks) = let later = is_known id ks in equal_text k id || later

abbrev pub pop_front : List (List ℕ) → List (List ℕ)
pop_front [] = []
pop_front (k ∷ ks) = ks

-- The history of askResourcesDiscovery: whether the request is new, and the history after.
abbrev pub shortened : List (List ℕ) → List (List ℕ)
shortened ks = if ltb 10 (length ks) then pop_front ks else ks

unfoldable pub remember : List ℕ → List (List ℕ) → Bool × List (List ℕ)
remember id known =
    if is_known id known then (false, known) else (true, shortened (known ++ id ∷ []))

-- actualReq[id] = nInfos
unfoldable pub open_place : List ℕ → List Place → List Place
open_place id [] = record { id = id; infos = [] } ∷ []
open_place id (t ∷ ts) =
    let later = open_place id ts in
    if equal_text t.id id then record t { infos = [] } ∷ ts else t ∷ later

-- callbackResult, for the request that the response names.
unfoldable pub callback_result : List ℕ → Info → List Place → List Place
callback_result id info [] = []
callback_result id info (t ∷ ts) =
    let later = callback_result id info ts in
    if equal_text t.id id then record t { infos = t.infos ++ info ∷ [] } ∷ ts else t ∷ later

-- The end of launchDiscovery: the results, and actualReq without their place.
unfoldable pub results_of : List ℕ → List Place → List Info
results_of id [] = []
results_of id (t ∷ ts) =
    let later = results_of id ts in if equal_text t.id id then t.infos else later

unfoldable pub erase_place : List ℕ → List Place → List Place
erase_place id [] = []
erase_place id (t ∷ ts) =
    let later = erase_place id ts in if equal_text t.id id then ts else t ∷ later

unfoldable pub close_place : List ℕ → List Place → List Info × List Place
close_place id m = (results_of id m, erase_place id m)
