-- ===== src/JobMgr/Examples.antt =====
-- The theorems on a JobMgr at concrete inputs.
use pop_cpp.Base.{
  ℕ, ◌≡◌, refl, true, false, [], ◌∷◌, some, ok, err, undefined, arith, Bool, leb, length, List, ◌+◌,
}
use pop_cpp.AccessPoint.{new_accesspoint, AccessPoint}
use pop_cpp.Od.{Od, is_empty}
use pop_cpp.JobMgr.{query_info, Resources, Amounts, Manager}
use pop_cpp.JobMgr.Words.{words, words-IsOrdered}
use pop_cpp.JobMgr.Reserve.{
  demands, power_grant, memory_grant, walltime_grant, match_and_reserve, reserve, offer, Offer,
}
use pop_cpp.JobMgr.Release.{cancel_reservation, application_end, give}
use pop_cpp.JobMgr.Choice.{
  Slot, slot_at, set_slot, iota, backwards, bubble, sort_index, choose, match_and_reserve_all,
}
use pop_cpp.JobMgr.Choice.Laws.{AreNotWorse, match_and_reserve_all-AreNotWorse}
use pop_cpp.JobMgr.Invariant.{Run, start, next, matches, reserves, IsAccounted, Run-IsAccounted}
use pop_cpp.JobMgr.Limits.{IsLimited, Run-IsLimited, application_end-Run}
use pop_cpp.JobMgr.Bounds.{offer-power, offer-memory}
use pop_cpp.JobMgr.Cancel.{is_named, cancel_reservation_inner, cancel_reservation-match_and_reserve}

abbrev demand : Od
demand = record {
  mflops = 100;
  min_mflops = 40;
  ram = 300;
  min_ram = 200;
  net = 0;
  min_net = 0;
  time = 0;
  is_manual = false;
  node_value = 3;
  core_value = 4;
  cwd = [];
  search_set = false;
  secure_set = true;
  service_set = false;
  max_depth = 100;
  max_size = 0;
  wait_time = 0;
  hostname = [];
  hostuser = [];
  hostcore = [];
  hostarch = [];
  batch_system = [];
  jobcontact = [];
  codefile = [];
  platforms = [];
  proto = [];
  encode = [];
  is_local = false;
  attributes = [];
}

abbrev whole : Amounts
whole = record { flops = 150; mem = 512; bandwidth = 10 }

abbrev fresh : Manager
fresh = record {
  jobs = [];
  available = whole;
  limit = whole;
  counter = 1;
  maxjobs = 2;
  reserve_timeout = 60;
  info = [];
}

-- After a first reservation for an application, named "a".
abbrev one_job : Manager
one_job = (reserve words 1000 true demand 0 (97 ∷ []) (98 ∷ []) fresh).2

abbrev two_jobs : Manager
two_jobs = (match_and_reserve words 1001 demand 0 one_job).2

runs : Run words whole two_jobs
runs =
    next (next (start refl refl refl) (reserves 1000 true demand 0 (97 ∷ []) (98 ∷ [])))
      (matches 1001 demand 0)

two_jobs_lem :
    (length two_jobs.jobs ≡ 2)
    × (two_jobs.available.flops ≡ 0)
    × (two_jobs.available.mem ≡ 0)
    × (two_jobs.counter ≡ 3)
unfolding match_and_reserve reserve offer demands power_grant memory_grant walltime_grant query_info
    is_empty
two_jobs_lem = (refl, refl, refl, refl)

-- After a reservation of which the search node could not be told, and one that was.
abbrev leaky : Manager
leaky =
    (match_and_reserve words 1001 demand 0
      (reserve words 1000 false demand 0 (97 ∷ []) (98 ∷ []) fresh).2).2

leaky_runs : Run words whole leaky
leaky_runs =
    next (next (start refl refl refl) (reserves 1000 false demand 0 (97 ∷ []) (98 ∷ [])))
      (matches 1001 demand 0)

Run-IsAccounted_example : IsAccounted words whole 1 leaky
unfolding leaky_runs offer is_empty demands power_grant memory_grant walltime_grant query_info
Run-IsAccounted_example = Run-IsAccounted words whole leaky leaky_runs

Run-IsLimited_example : IsLimited words two_jobs
Run-IsLimited_example = Run-IsLimited words whole two_jobs runs

application_end-Run_example : application_end words (97 ∷ []) two_jobs ≡ two_jobs
application_end-Run_example = application_end-Run words whole two_jobs 97 [] runs

abbrev offered : Offer words
offered = record { flops = 100; mem = 300; walltime = 0; fitness = 0 }

fresh-offer : (guarded : Bool) → offer words guarded demand 0 fresh ≡ some offered
unfolding offer demands power_grant memory_grant walltime_grant query_info is_empty
fresh-offer true = refl
fresh-offer false = refl

not_empty : is_empty words demand ≡ false
unfolding is_empty
not_empty = refl

offer-power_example : (leb 40 100 ≡ true) × (leb 100 150 ≡ true) × (leb 100 150 ≡ true)
offer-power_example =
    offer-power words words-IsOrdered demand 0 fresh offered not_empty refl refl (fresh-offer true)

offer-memory_example : (leb 200 300 ≡ true) × (leb 300 512 ≡ true) × (leb 300 300 ≡ true)
offer-memory_example =
    offer-memory words words-IsOrdered true demand 0 fresh offered not_empty refl refl
      (fresh-offer true)

cancel_reservation-match_and_reserve_example :
    cancel_reservation words (1 ∷ []) (match_and_reserve words 1000 demand 0 fresh).2
    ≡ err undefined
cancel_reservation-match_and_reserve_example =
    cancel_reservation-match_and_reserve words 1000 0 demand fresh offered (fresh-offer true) tt

-- A list of three reservations.
abbrev job : ℕ → Resources
job n = record {
  id = n;
  flops = 10;
  mem = 20;
  bandwidth = 0;
  walltime = 0;
  pop_app_id = [];
  req_id = [];
  start = 1000;
  contact = new_accesspoint;
  appservice = new_accesspoint;
}

abbrev three_jobs : Manager
three_jobs = record fresh { jobs = job 1 ∷ job 2 ∷ job 3 ∷ []; counter = 4 }

job-is_named : (n : ℕ) → is_named n (job n) ≡ true
unfolding new_accesspoint
job-is_named n = ground arith

cancel_reservation_inner_example :
    cancel_reservation words (2 ∷ []) three_jobs
    ≡ ok (record three_jobs { available = give words (job 2) whole; jobs = job 1 ∷ job 3 ∷ [] })
cancel_reservation_inner_example =
    cancel_reservation_inner words 2 three_jobs (job 1 ∷ []) (job 2) (job 3) [] refl (refl, tt)
      (job-is_named 2) tt

-- Two objects, one of which has a reservation somewhere else.
abbrev slots : List Slot
slots =
    record { fitness = 0; jobcontact = new_accesspoint; reserve_id = 0 }
    ∷ record {
      fitness = 0;
      jobcontact = record new_accesspoint { endpoint = 104 ∷ [] };
      reserve_id = 7;
    }
    ∷ []

abbrev self : AccessPoint
self = record new_accesspoint { endpoint = 115 ∷ [] }

abbrev clock : ℕ → ℕ
clock n = 1000 + n

match_and_reserve_all-AreNotWorse_example :
    AreNotWorse words words-IsOrdered slots
      (match_and_reserve_all words clock demand self slots fresh).slots
match_and_reserve_all-AreNotWorse_example =
    match_and_reserve_all-AreNotWorse words words-IsOrdered clock demand self slots fresh

both_reserved :
    (length (match_and_reserve_all words clock demand self slots fresh).manager.jobs ≡ 2)
    × ((match_and_reserve_all words clock demand self slots fresh).ret ≡ true)
unfolding match_and_reserve_all match_and_reserve choose offer demands power_grant memory_grant
    walltime_grant query_info is_empty sort_index bubble iota backwards slot_at set_slot
both_reserved = (refl, refl)
