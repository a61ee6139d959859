-- ===== src/Od/Laws.antt =====
-- Object descriptions: which can be sent, and what Serialize keeps of them (lib/core/od.cc).
use pop_cpp.Base.{
  ℕ, ◌*◌, ◌^◌, ◌<◌, ◌≡◌, refl, ap, Bool, true, false, Bool-cases, inl, inr, List, [], ◌∷◌, length,
  All, arith,
}
use pop_cpp.Base.Bytes.{IsWord}
use pop_cpp.Buffer.Text.Laws.{IsText}
use pop_cpp.Od.{Od, ordered, power, texts, flat, pairs}

-- The values are in their types, the texts are C strings.
pub record IsOd (od : Od) : Type 0 where
  pub power_words : All (IsWord 4) (od.mflops ∷ od.min_mflops ∷ [])
  pub memory_words : All (IsWord 4) (od.ram ∷ od.min_ram ∷ [])
  pub net_words : All (IsWord 4) (od.net ∷ od.min_net ∷ [])
  pub time_words : All (IsWord 4) (od.time ∷ [])
  pub search_words : All (IsWord 4) (od.max_depth ∷ od.max_size ∷ od.wait_time ∷ [])
  pub cwd_text : All IsText (od.cwd ∷ [])
  pub host_texts : All IsText (texts od)
  pub attribute_texts : All IsText (flat od.attributes)
  pub few_attributes : length od.attributes < 2 ^ 31

-- The lower demand is not above the higher one, as power, memory and bandwidth leave it.
pub record IsOrdered (greater : ℕ → ℕ → Bool) (od : Od) : Type 0 where
  pub power_order : greater od.min_mflops od.mflops ≡ false
  pub memory_order : greater od.min_ram od.ram ≡ false
  pub net_order : greater od.min_net od.net ≡ false

-- What Serialize makes of the description that is read into.
abbrev pub read_into : Od → Od → Od
read_into old od = record od {
  is_manual = old.is_manual;
  node_value = old.node_value;
  core_value = old.core_value;
  search_set = true;
  secure_set = old.secure_set;
  service_set = old.service_set;
  is_local = old.is_local;
}

pub pairs-flat : (ps : List (List ℕ × List ℕ)) → pairs (flat ps) ≡ ps
unfolding pairs flat
pairs-flat [] = refl
pairs-flat (a ∷ ps) = ap (◌∷◌ a) (pairs-flat ps)

pub length-flat : (ps : List (List ℕ × List ℕ)) → length (flat ps) ≡ 2 * length ps
unfolding flat
length-flat [] = refl
length-flat (a ∷ ps) = omega (arith, length-flat ps)

pub ordered-same :
    (greater : ℕ → ℕ → Bool) (require min : ℕ)
    → greater min require ≡ false
    → ordered greater require min ≡ (require, min)
unfolding ordered
ordered-same greater require min h = rw h refl

-- After `power` with two values, of which one is greater, the demands are in order.
pub power-IsOrdered :
    (greater : ℕ → ℕ → Bool) (require min : ℕ) (od : Od)
    → (greater min require ≡ true → greater require min ≡ false)
    → greater (power greater require min od).min_mflops (power greater require min od).mflops
      ≡ false
unfolding power ordered
power-IsOrdered greater require min od asym = elim (Bool-cases (greater min require)) [
  | inl e ↦ rw e (asym e)
  | inr e ↦ rw (e, e) refl
]
