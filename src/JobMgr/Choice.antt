-- ===== src/JobMgr/Choice.antt =====
-- MatchAndReserve for several objects (services/lib/jobmgr.cc).
pub mod Laws
use pop_cpp.Base.{
  ℕ, zero, suc, ◌+◌, Bool, true, false, not, List, [], ◌∷◌, ◌++◌, length, Option, none, some, ◌&&◌,
  if◌then◌else◌,
}
use pop_cpp.Base.Bytes.{is_positive}
use pop_cpp.Base.Floats.{Floats}
use pop_cpp.AccessPoint.{AccessPoint, equal_text}
use pop_cpp.Od.{Od}
use pop_cpp.JobMgr.{Manager}
use pop_cpp.JobMgr.Reserve.{match_and_reserve}

-- fitness[i], jobcontacts[i] and reserveIDs[i]
pub record Slot : Type 0 where
  pub fitness : ℕ
  pub jobcontact : AccessPoint
  pub reserve_id : ℕ

unfoldable pub slot_at : ℕ → List Slot → Option Slot
slot_at i [] = none
slot_at zero (t ∷ ts) = some t
slot_at (suc i) (t ∷ ts) = slot_at i ts

unfoldable pub set_slot : ℕ → Slot → List Slot → List Slot
set_slot i u [] = []
set_slot zero u (t ∷ ts) = u ∷ ts
set_slot (suc i) u (t ∷ ts) = t ∷ set_slot i u ts

-- fitness[i], for an index of the arrays.
abbrev pub fitness_at : List Slot → ℕ → ℕ
fitness_at slots i = elim (slot_at i slots) [ none ↦ 0 | some t ↦ t.fitness ]

-- std::iota
unfoldable pub iota : ℕ → ℕ → List ℕ
iota i zero = []
iota i (suc n) = i ∷ iota (i + 1) n

-- `for (int i = howmany - 1; i >= 0; i--)`
unfoldable pub backwards : List ℕ → List ℕ
backwards [] = []
backwards (x ∷ xs) = backwards xs ++ x ∷ []

-- What a call leaves: the result, the slots, the state, and the reservations that were cancelled
-- on other machines.
pub record Choice : Type 0 where
  pub ret : Bool
  pub slots : List Slot
  pub manager : Manager
  pub cancelled : List (AccessPoint × ℕ)

module _ (f : Floats) where
  module _ (fit : ℕ → ℕ) where
    abbrev pub swapped : ℕ → List ℕ → List ℕ
    swapped x [] = x ∷ []
    swapped x (y ∷ ys) = if f.less (fit x) (fit y) then y ∷ x ∷ ys else x ∷ y ∷ ys

    -- The inner loop, from the end of the array to its start.
    unfoldable pub bubble : List ℕ → List ℕ
    bubble [] = []
    bubble (x ∷ xs) = swapped x (bubble xs)

    -- The outer loop: what has come to the front stays there.
    abbrev pub front : (List ℕ → List ℕ) → List ℕ → List ℕ
    front sort [] = []
    front sort (x ∷ xs) = x ∷ sort xs

    unfoldable pub sort_index : ℕ → List ℕ → List ℕ
    sort_index zero xs = xs
    sort_index (suc n) xs = front (sort_index n) (bubble xs)

  -- A reservation that the object has somewhere else.
  abbrev pub has_other : Slot → Bool
  has_other t = f.less f.nought t.fitness && not (equal_text t.jobcontact.endpoint [])

  -- One object: whether the loop goes on, and what is left. `self` is the access point of this
  -- JobMgr.
  abbrev pub settled : AccessPoint → ℕ → Slot → ℕ × ℕ × Manager → Choice → Bool × Choice
  settled self pos t (id, fitness, s) c =
      if is_positive id
      then (
        true,
        record {
          ret = true;
          slots =
              set_slot pos (record { fitness = fitness; jobcontact = self; reserve_id = id })
                c.slots;
          manager = s;
          cancelled =
              if has_other t then c.cancelled ++ (t.jobcontact, t.reserve_id) ∷ [] else c.cancelled;
        },
      )
      else (
        false,
        record c { slots = set_slot pos (record t { fitness = fitness }) c.slots; manager = s },
      )

  abbrev pub attempt : ℕ → Od → AccessPoint → ℕ → Option Slot → Choice → Bool × Choice
  attempt now od self pos none c = (false, c)
  attempt now od self pos (some t) c =
      if f.le f.one t.fitness
      then (false, c)
      else settled self pos t (match_and_reserve f now od t.fitness c.manager) c

  abbrev pub onward : (Choice → Choice) → Bool × Choice → Choice
  onward go (true, c) = go c
  onward go (false, c) = c

  -- The loop, over the index from its end. `clock` is the time of each call.
  unfoldable pub choose : (ℕ → ℕ) → Od → AccessPoint → List ℕ → Choice → Choice
  choose clock od self [] c = c
  choose clock od self (pos ∷ ps) c =
      onward (choose clock od self ps) (attempt (clock pos) od self pos (slot_at pos c.slots) c)

  unfoldable pub match_and_reserve_all : (ℕ → ℕ) → Od → AccessPoint → List Slot → Manager → Choice
  match_and_reserve_all clock od self slots s =
      let index = sort_index (fitness_at slots) (length slots) (iota 0 (length slots)) in
      choose clock od self (backwards index)
        (record { ret = false; slots = slots; manager = s; cancelled = [] })
