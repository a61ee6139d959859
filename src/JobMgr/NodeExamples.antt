-- ===== src/JobMgr/NodeExamples.antt =====
-- The theorems on nodes, pauses and traces at concrete inputs.
use pop_cpp.Base.{
  ℕ, ◌≡◌, refl, false, List, [], ◌∷◌, map, Option, none, some, ok, arith, ltb, replicate,
}
use mathlib.Core.List.{Perm}
use pop_cpp.AccessPoint.{AccessPoint, new_accesspoint, set_access_string}
use pop_cpp.Exception.Codes.{codes}
use pop_cpp.JobMgr.Words.{words, words-IsOrdered}
use pop_cpp.JobMgr.Nodes.{
  NodeInfo, Entry, Ranked, get_info, get_contacts, insert_contacts, insert_contact,
}
use pop_cpp.JobMgr.Nodes.Refines.{remove, run, promised, view, IsDistinct, run-Implements}
use pop_cpp.JobMgr.Nodes.Sorted.{ranked, IsSorted, get_contacts-IsSorted}
use pop_cpp.JobMgr.Pause.{
  PauseInfo, check_pause_list, live, decision, check_pause_list-live, check_pause_list-stuck,
}
use pop_cpp.JobMgr.Trace.{
  seen, RequestTrace, add_request, AreUnique, add_request-AreUnique, Trace, IsTrace, add_trace,
  node_in_trace, node_in_trace-add_trace,
}

abbrev node : ℕ → NodeInfo
node h = record { heuristic = h; id = 0; stoptime = 0; fixnode = false; nodetype = 0 }

abbrev entry : ℕ → ℕ → Entry
entry c h = record { contact = c ∷ []; info = node h }

abbrev nodes : List Entry
nodes = entry 97 7 ∷ entry 98 3 ∷ entry 99 5 ∷ []

nodes-IsDistinct : IsDistinct nodes
unfolding get_info
nodes-IsDistinct = (refl, (refl, (refl, tt)))

run-Implements_example :
    ((run (remove (98 ∷ [])) nodes).0 ≡ (promised (remove (98 ∷ [])) (view nodes)).0)
    × (view (run (remove (98 ∷ [])) nodes).1 (98 ∷ [])
        ≡ (promised (remove (98 ∷ [])) (view nodes)).1 (98 ∷ []))
    × IsDistinct (run (remove (98 ∷ [])) nodes).1
run-Implements_example = run-Implements (remove (98 ∷ [])) nodes (98 ∷ []) nodes-IsDistinct

get_contacts-IsSorted_example :
    (rs : List Ranked) × (get_contacts words nodes ≡ map (λ (p : Ranked). p.1) rs)
    × Perm rs (map ranked nodes)
    × IsSorted words words-IsOrdered rs
get_contacts-IsSorted_example = get_contacts-IsSorted words words-IsOrdered nodes

nodes_by_heuristic : get_contacts words nodes ≡ (98 ∷ []) ∷ (99 ∷ []) ∷ (97 ∷ []) ∷ []
unfolding get_contacts insert_contacts insert_contact
nodes_by_heuristic = refl

abbrev app : ℕ → AccessPoint
app c = set_access_string (c ∷ []) new_accesspoint

abbrev paused : List PauseInfo
paused = record { until_time = 5; app = app 97 } ∷ record { until_time = 90; app = app 98 } ∷ []

check_pause_list-live_example :
    check_pause_list words 3 10 (app 98) paused ≡ decision words (app 98) (live words 10 paused)
check_pause_list-live_example = check_pause_list-live words 3 10 (app 98) paused (omega arith)

paused-live : live words 10 paused ≡ record { until_time = 90; app = app 98 } ∷ []
unfolding live
paused-live = refl

check_pause_list-stuck_example : check_pause_list words 1000 10 (app 99) paused ≡ none
unfolding set_access_string new_accesspoint
check_pause_list-stuck_example =
    check_pause_list-stuck words 1000 10 (app 99) paused (record { until_time = 90; app = app 98 })
      [] paused-live refl

abbrev requests : List RequestTrace
requests = record { request_id = 1 ∷ 2 ∷ 3 ∷ []; timestamp = 400 } ∷ []

add_request-AreUnique_example :
    AreUnique words (add_request words 1000 1001 60 (4 ∷ 5 ∷ 6 ∷ []) requests).1
unfolding seen
add_request-AreUnique_example =
    add_request-AreUnique words 1000 1001 60 (4 ∷ 5 ∷ 6 ∷ []) requests (refl, tt)

abbrev passed : Trace
passed = record { hops = 7 ∷ replicate 19 0; tracesize = 1 }

passed-IsTrace : IsTrace passed
passed-IsTrace = record { places = refl; used = omega arith }

abbrev contact : AccessPoint
contact = set_access_string (codes "socket://h:80") new_accesspoint

abbrev get_ip : List ℕ → Option ℕ
get_ip name = some 9

node_in_trace-add_trace_example :
    node_in_trace get_ip (add_trace (some 9) passed).1 contact ≡ ok (ltb 2 20)
unfolding set_access_string new_accesspoint
node_in_trace-add_trace_example =
    node_in_trace-add_trace get_ip 9 passed contact passed-IsTrace (omega arith) refl (omega arith)
      refl
