-- ===== src/Search/Request.antt =====
-- A request for resources that search nodes pass on (lib/dynamic/request.cc,
-- include/dynamic/request.h).
pub mod Message
use pop_cpp.Base.{
  ℕ, ◌-◌, ◌+◌, ◌^◌, Bool, true, false, not, List, [], ◌∷◌, Result, ok, ◌>>=◌, ◌==◌, ◌&&◌,
  if◌then◌else◌,
}
use pop_cpp.Base.Bytes.{wrap32}
use pop_cpp.Base.Int.{ℤ, signed}
use pop_cpp.Base.Floats.{Floats}
use pop_cpp.Buffer.Types.{Buffer, Item, Shape, Scalar}
use pop_cpp.Buffer.Queue.{BufferClass}
use pop_cpp.Buffer.Text.{pack_int, unpack_int, pack_string, unpack_string}
use pop_cpp.Search.Fields.{
  Member, text, number, mark, Field, pack_bool, unpack_bool, pack_fields, unpack_fields,
}
use pop_cpp.Search.Route.{Wayback, insert_node, pack_wayback, unpack_wayback}
use pop_cpp.Search.Exploration.{Visit, add_list_node, pack_exploration, unpack_exploration}

-- A member with its `_has...Set` is a field. The expected speed is the one of which Serialize packs
-- the mark.
pub record Request : Type 0 where
  pub unique_id : List ℕ
  pub max_hops : ℕ
  pub wb : Wayback
  pub popappid : List ℕ
  pub pki : List ℕ
  pub main_pki : List ℕ
  pub ending_signal : Bool
  pub node_id : Field
  pub operating_system : Field
  pub min_cpu_speed : Field
  pub expected_cpu_speed : Field
  pub min_memory_size : Field
  pub expected_memory_size : Field
  pub min_network_bandwidth : Field
  pub expected_network_bandwidth : Field
  pub min_disk_space : Field
  pub expected_disk_space : Field
  pub min_power : Field
  pub expected_power : Field
  pub protocol : Field
  pub encoding : Field
  pub exploration_list : List Visit

-- The fields in the order of Serialize.
unfoldable pub options : Request → List Field
options r =
    r.node_id ∷ r.operating_system ∷ r.min_cpu_speed ∷ r.expected_cpu_speed ∷ r.min_memory_size
    ∷ r.expected_memory_size ∷ r.min_network_bandwidth ∷ r.expected_network_bandwidth
    ∷ r.min_disk_space ∷ r.expected_disk_space ∷ r.min_power ∷ r.expected_power ∷ r.protocol
    ∷ r.encoding ∷ []

unfoldable pub set_options : List Field → Request → Request
set_options (a ∷ b ∷ c ∷ d ∷ e ∷ f ∷ g ∷ h ∷ i ∷ j ∷ k ∷ l ∷ m ∷ n ∷ []) r = record r {
  node_id = a;
  operating_system = b;
  min_cpu_speed = c;
  expected_cpu_speed = d;
  min_memory_size = e;
  expected_memory_size = f;
  min_network_bandwidth = g;
  expected_network_bandwidth = h;
  min_disk_space = i;
  expected_disk_space = j;
  min_power = k;
  expected_power = l;
  protocol = m;
  encoding = n;
}
set_options _ r = r

-- UNLIMITED_HOPS
abbrev pub unlimited_hops : ℕ
unlimited_hops = 2 ^ 32 - 20

abbrev pub unset_all : List Field → List Field
unset_all [] = []
unset_all (t ∷ ts) = record t { is_set = false } ∷ unset_all ts

-- init: no field is set, and the members keep what is in the storage.
unfoldable pub init : Request → Request
init r = record (set_options (unset_all (options r)) r) {
  max_hops = unlimited_hops;
  ending_signal = false;
}

unfoldable pub set_as_end_request : Request → Request
set_as_end_request r = record r { ending_signal = true }

unfoldable pub add_node_to_wb : List ℕ → Request → Request
add_node_to_wb node r = record r { wb = insert_node node r.wb }

-- One hop less, unless they are unlimited.
unfoldable pub add_node_to_exploration_list : Visit → Request → Request
add_node_to_exploration_list v r = record r {
  exploration_list = add_list_node v r.exploration_list;
  max_hops =
      if r.max_hops == unlimited_hops then r.max_hops else wrap32 (r.max_hops + (2 ^ 32 - 1));
}

-- What the constructor does with an argument: an empty text or 0 is no demand. `differs` is the
-- comparison with 0.
abbrev pub text_option : List ℕ → Field → Field
text_option [] old = record old { is_set = false }
text_option (x ∷ xs) old = record { is_set = true; member = text (x ∷ xs) }

abbrev pub option : Bool → Member → Field → Field
option differs m old =
    if differs then record { is_set = true; member = m } else record old { is_set = false }

-- Request(int maxHops, ...), on what is in the storage.
module _ (f : Floats) where
  abbrev pub differs : ℕ → Bool
  differs x = not (f.le x f.nought && f.le f.nought x)

  abbrev pub int_option : ℕ → Field → Field
  int_option x old = option (not (x == 0)) (number Scalar.int x) old

  abbrev pub float_option : ℕ → Field → Field
  float_option x old = option (differs x) (number Scalar.float x) old

  unfoldable pub new_request :
      Request
      → ℕ
      → List ℕ
      → List ℕ
      → ℕ
      → ℕ
      → ℕ
      → ℕ
      → ℕ
      → ℕ
      → ℕ
      → ℕ
      → ℕ
      → ℕ
      → List ℕ
      → List ℕ
      → Request
  new_request r max_hops node_id operating_system min_cpu_speed expected_cpu_speed min_memory_size
        expected_memory_size min_network_bandwidth expected_network_bandwidth min_disk_space
        expected_disk_space min_power expected_power protocol encoding =
      record (init r) {
        max_hops = max_hops;
        node_id = text_option node_id r.node_id;
        operating_system = text_option operating_system r.operating_system;
        min_cpu_speed = int_option min_cpu_speed r.min_cpu_speed;
        expected_cpu_speed =
            option (not (expected_cpu_speed == 0)) (mark expected_cpu_speed) r.expected_cpu_speed;
        min_memory_size = float_option min_memory_size r.min_memory_size;
        expected_memory_size = float_option expected_memory_size r.expected_memory_size;
        min_network_bandwidth =
            option (not (min_network_bandwidth == 0))
              (number Scalar.float (f.of_int (signed min_network_bandwidth)))
              r.min_network_bandwidth;
        expected_network_bandwidth =
            option (not (expected_network_bandwidth == 0))
              (number Scalar.float (f.of_int (signed expected_network_bandwidth)))
              r.expected_network_bandwidth;
        min_disk_space = int_option min_disk_space r.min_disk_space;
        expected_disk_space = int_option expected_disk_space r.expected_disk_space;
        min_power = float_option min_power r.min_power;
        expected_power = float_option expected_power r.expected_power;
        protocol = text_option protocol r.protocol;
        encoding = text_option encoding r.encoding;
      }

module _ (c : BufferClass) where
  -- Serialize(buf, true): the way back is empty afterwards.
  unfoldable pub pack_request : Request → Buffer → Result (Buffer × Request)
  pack_request r b = pack_string c r.unique_id b >>= λ b. pack_int c r.max_hops b >>= λ b.
      pack_fields c (options r) b >>= λ b. pack_string c r.pki b >>= λ b.
      pack_string c r.main_pki b >>= λ b. pack_string c r.popappid b >>= λ b.
      pack_bool c r.ending_signal b >>= λ b. pack_wayback c r.wb b >>= λ w.
      pack_exploration c r.exploration_list w.0 >>= λ b. ok (b, record r { wb = w.1 })

  -- Serialize(buf, false)
  unfoldable pub unpack_request : Request → Buffer → Result (Request × Buffer)
  unpack_request old b = unpack_string c b >>= λ u. unpack_int c u.1 >>= λ h.
      unpack_fields c (options old) h.1 >>= λ t. unpack_string c t.1 >>= λ k.
      unpack_string c k.1 >>= λ m. unpack_string c m.1 >>= λ a. unpack_bool c a.1 >>= λ e.
      unpack_wayback c e.1 >>= λ w. unpack_exploration c old.exploration_list w.1 >>= λ x. ok (
        record (set_options t.0 old) {
          unique_id = u.0;
          max_hops = h.0;
          pki = k.0;
          main_pki = m.0;
          popappid = a.0;
          ending_signal = e.0;
          wb = w.0;
          exploration_list = x.0;
        },
        x.1,
      )
