-- ===== src/JobMgr/Reserve.antt =====
-- Reserve and MatchAndReserve (services/lib/jobmgr.cc).
use pop_cpp.Base.{
  ℕ, ◌+◌, ◌%◌, Bool, true, false, List, [], ◌∷◌, ◌++◌, length, Option, none, some, leb, and_then,
  ◌||◌, ◌&&◌, if◌then◌else◌,
}
use pop_cpp.Base.Floats.{Floats}
use pop_cpp.Base.Int.{ℤ}
use pop_cpp.AccessPoint.{new_accesspoint}
use pop_cpp.Exception.Codes.{codes}
use pop_cpp.Od.{Od, is_empty}
use pop_cpp.JobMgr.{Resources, Amounts, Manager, query_info}
use pop_cpp.JobMgr.Walltime.{max_walltime}

-- What a demand is granted, and the fitness so far.
pub record Grant : Type 0 where
  pub amount : ℕ
  pub fitness : ℕ

module _ (f : Floats) where
  -- The macro.
  abbrev pub min : ℕ → ℕ → ℕ
  min a b = if f.less a b then a else b

  -- `if (min < 0) min = require;`
  abbrev pub least : ℕ → ℕ → ℕ
  least require lower = if f.less lower f.nought then require else lower

  -- The lower bound of the power, which only MatchAndReserve looks at.
  abbrev pub is_weak : Bool → ℕ → ℕ → ℕ → ℕ → Bool
  is_weak guarded require lower available limit =
      guarded && (f.less available (least require lower) || f.less limit (least require lower))

  -- The power for a demand: all of it, or what there is.
  abbrev pub cut : ℕ → ℕ → ℕ → ℕ
  cut require available limit =
      if f.less available require || f.less limit require then min available limit else require

  -- The demand of power.
  unfoldable pub power_grant : Bool → ℕ → ℕ → ℕ → ℕ → ℕ → Option Grant
  power_grant guarded require lower available limit wanted =
      if f.less f.nought require
      then if is_weak guarded require lower available limit
        then none
        else if f.less (f.div (min available limit) require) wanted
        then none
        else some (record {
          amount = cut require available limit;
          fitness = f.div (min available limit) require;
        })
      else some (record { amount = f.nought; fitness = f.one })

  -- The fitness of the memory: what there is of a demand, or the demand's part of what there is.
  abbrev pub memory_fitness : ℕ → ℕ → ℕ
  memory_fitness require available =
      if f.less available require then f.div available require else f.div require available

  -- The demand of memory.
  unfoldable pub memory_grant : ℕ → ℕ → ℕ → ℕ → ℕ → Option Grant
  memory_grant require lower available wanted fitness =
      if f.less f.nought require
      then if f.less available (least require lower)
        then none
        else if f.less (memory_fitness require available) fitness
            && f.less (memory_fitness require available) wanted
        then none
        else some (record {
          amount = if f.less available require then available else require;
          fitness =
              if f.less (memory_fitness require available) fitness
              then memory_fitness require available
              else fitness;
        })
      else some (record { amount = f.nought; fitness = fitness })

  -- `maxwalltime`, if there is one.
  abbrev pub within : ℕ → Option ℤ → Option ℕ
  within walltime none = some walltime
  within walltime (some m) =
      let most = f.of_int m in
      if (f.le walltime f.nought && f.less f.nought most) || f.less most walltime
      then none
      else some walltime

  -- The time that the job may run: none if the machine allows less.
  unfoldable pub walltime_grant : ℕ → Option (List ℕ) → Option ℕ
  walltime_grant time configured =
      let walltime : ℕ = if f.less time f.nought then f.nought else time in
      within walltime (and_then configured max_walltime)

  pub record Offer : Type 0 where
    pub flops : ℕ
    pub mem : ℕ
    pub walltime : ℕ
    pub fitness : ℕ

  -- The part under `if (!od.IsEmpty())`.
  unfoldable pub demands : Bool → Od → ℕ → Manager → Option Offer
  demands guarded od wanted s =
      and_then (power_grant guarded od.mflops od.min_mflops s.available.flops s.limit.flops wanted)
        λ p. and_then (memory_grant od.ram od.min_ram s.available.mem wanted p.fitness) λ m.
          and_then (walltime_grant od.time (query_info (codes "walltime") s.info)) λ w.
            some (record { flops = p.amount; mem = m.amount; walltime = w; fitness = m.fitness })

  unfoldable pub offer : Bool → Od → ℕ → Manager → Option Offer
  offer guarded od wanted s =
      if leb s.maxjobs (length s.jobs)
      then none
      else if is_empty f od
      then some (record { flops = f.nought; mem = f.nought; walltime = f.nought; fitness = f.one })
      else demands guarded od wanted s

  -- The entry for the list of jobs; its texts and contacts are empty.
  abbrev pub job_of : ℕ → Offer → Manager → Resources
  job_of now o s = record {
    id = s.counter;
    flops = o.flops;
    mem = o.mem;
    bandwidth = f.nought;
    walltime = o.walltime;
    pop_app_id = [];
    req_id = [];
    start = now;
    contact = new_accesspoint;
    appservice = new_accesspoint;
  }

  -- `available.flops -= flops; ...`
  abbrev pub take_amounts : Resources → Amounts → Amounts
  take_amounts t a = record {
    flops = f.sub a.flops t.flops;
    mem = f.sub a.mem t.mem;
    bandwidth = f.sub a.bandwidth t.bandwidth;
  }

  abbrev pub listed : Resources → Manager → Manager
  listed t s = record s { jobs = s.jobs ++ t ∷ [] }

  abbrev pub granted : Resources → Manager → Manager
  granted t s = record (listed t s) {
    available = take_amounts t s.available;
    counter = s.counter % 1000000000 + 1;
  }

  abbrev pub matched : ℕ → ℕ → Manager → Option (Offer) → ℕ × ℕ × Manager
  matched now wanted s none = (0, wanted, s)
  matched now wanted s (some o) = (s.counter, o.fitness, granted (job_of now o s) s)

  -- MatchAndReserve: the reservation, or 0; the fitness; the state.
  unfoldable pub match_and_reserve : ℕ → Od → ℕ → Manager → ℕ × ℕ × Manager
  match_and_reserve now od wanted s = matched now wanted s (offer true od wanted s)

  abbrev pub reserved : ℕ → Bool → ℕ → Manager → Option (Offer) → ℕ × ℕ × Manager
  reserved now told wanted s none = (0, wanted, s)
  reserved now true wanted s (some o) = (s.counter, o.fitness, granted (job_of now o s) s)
  reserved now false wanted s (some o) = (0, o.fitness, listed (job_of now o s) s)

  -- Reserve. `told` is whether the search node has taken the new job. The ids of the application
  -- and the request are written to a copy, after the entry has been added to the list.
  unfoldable pub reserve : ℕ → Bool → Od → ℕ → List ℕ → List ℕ → Manager → ℕ × ℕ × Manager
  reserve now told od wanted pop_app_id req_id s =
      reserved now told wanted s (offer false od wanted s)
