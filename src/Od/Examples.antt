-- ===== src/Od/Examples.antt =====
-- The theorems on object descriptions at concrete inputs.
use pop_cpp.Base.{
  ℕ, ◌≡◌, refl, sym, ◌∙◌, true, false, List, [], ◌∷◌, ◌++◌, replicate, ok, ok_injective, arith, ltb,
}
use mathlib.Core.Path.{subst}
use pop_cpp.Base.Bytes.{le_array, le_bytes}
use pop_cpp.Buffer.Types.{Buffer}
use pop_cpp.Buffer.Store.{resize, write, round4, IsSmall}
use pop_cpp.Buffer.Raw
use pop_cpp.Buffer.Raw.{raw_class}
use pop_cpp.Buffer.Raw.Laws.{raw_laws}
use pop_cpp.Buffer.Text.{pack_int, pack_string, pack_strings}
use pop_cpp.Buffer.Samples.{fresh}
use pop_cpp.Od.{Od, texts, flat, pack_od, unpack_od}
use pop_cpp.Od.Url.{url, url_parts}
use pop_cpp.Od.Laws.{IsOd, IsOrdered}
use pop_cpp.Od.Message.{unpack_od-pack_od}

abbrev wish : Od
wish = record {
  mflops = 9;
  min_mflops = 5;
  ram = 0;
  min_ram = 0;
  net = 0;
  min_net = 0;
  time = 0;
  is_manual = true;
  node_value = 3;
  core_value = 4;
  cwd = [];
  search_set = false;
  secure_set = true;
  service_set = false;
  max_depth = 100;
  max_size = 0;
  wait_time = 0;
  hostname = 104 ∷ [];
  hostuser = [];
  hostcore = [];
  hostarch = [];
  batch_system = [];
  jobcontact = [];
  codefile = [];
  platforms = [];
  proto = [];
  encode = [];
  is_local = false;
  attributes = (97 ∷ [], 98 ∷ []) ∷ [];
}

abbrev other : Od
other = record wish {
  is_manual = false;
  node_value = 1;
  core_value = 2;
  secure_set = false;
  hostname = [];
  attributes = [];
}

abbrev no_text : List ℕ
no_text = 1 ∷ 0 ∷ 0 ∷ 0 ∷ 0 ∷ 0 ∷ 0 ∷ 0 ∷ []

abbrev letter : ℕ → List ℕ
letter x = 2 ∷ 0 ∷ 0 ∷ 0 ∷ x ∷ 0 ∷ 0 ∷ 0 ∷ []

abbrev packed : Buffer
packed = record fresh {
  unpackpos = 20;
  packeddata =
      replicate 20 0
      ++ (9 ∷ 0 ∷ 0 ∷ 0 ∷ 5 ∷ 0 ∷ 0 ∷ 0 ∷ replicate 20 0)
      ++ (1 ∷ 0 ∷ 0 ∷ 0 ∷ no_text)
      ++ (100 ∷ replicate 11 0)
      ++ letter 104
      ++ no_text
      ++ no_text
      ++ no_text
      ++ no_text
      ++ no_text
      ++ no_text
      ++ no_text
      ++ no_text
      ++ no_text
      ++ (1 ∷ 0 ∷ 0 ∷ 0 ∷ letter 97)
      ++ letter 98;
}

pack_wish : pack_od raw_class wish (raw_class.reset fresh) ≡ ok packed
unfolding pack_od texts flat pack_strings pack_string pack_int raw_class Raw.reset Raw.pack
    Raw.pack_chars resize write round4 le_array le_bytes
pack_wish = refl

wish-IsOd : IsOd wish
unfolding texts flat
wish-IsOd = omega arith

wish-IsOrdered : IsOrdered (λ a b. ltb b a) wish
wish-IsOrdered = record { power_order = refl; memory_order = refl; net_order = refl }

unpack_od-pack_od_example :
    (packed b' : Buffer) × (pack_od raw_class wish (raw_class.reset fresh) ≡ ok packed)
    × (unpack_od raw_class (λ a b. ltb b a) other packed
        ≡ ok (
          record wish {
            is_manual = false;
            node_value = 1;
            core_value = 2;
            search_set = true;
            secure_set = false;
            is_local = false;
          },
          b',
        ))
unpack_od-pack_od_example =
    unpack_od-pack_od raw_class raw_laws (λ a b. ltb b a) other wish fresh wish-IsOd wish-IsOrdered
      (λ b e. subst IsSmall (ok_injective (sym pack_wish ∙ e)) (omega arith))

-- h{2}:5
url_parts_example :
    url (104 ∷ 123 ∷ 50 ∷ 125 ∷ 58 ∷ 53 ∷ []) wish
    ≡ ok (record wish { hostcore = 50 ∷ []; hostname = 104 ∷ []; is_local = false })
url_parts_example =
    url_parts (104 ∷ []) (50 ∷ []) (58 ∷ 53 ∷ []) wish (refl, tt) (refl, tt)
      (refl, (refl, (refl, (refl, (refl, (refl, tt)))))) (omega arith)
