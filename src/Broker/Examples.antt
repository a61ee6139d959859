-- ===== src/Broker/Examples.antt =====
-- The theorems on brokers at concrete inputs, and runs of the model.
use pop_cpp.Base.{
  Option, ℕ, ◌+◌, ◌≡◌, refl, true, false, List, [], ◌∷◌, ◌++◌, length, none, some, ◌⊎◌, inl, arith,
  ◌==◌, if◌then◌else◌,
}
use pop_cpp.Buffer.Samples.{fresh}
use pop_cpp.Broker.{Request, is_conc, is_mutex, is_sync, keep_connection, take_conc, take_request}
use pop_cpp.Broker.Order.{MayOvertake, take_request-order}
use pop_cpp.Broker.Threads.{Broker, Server, Step, Reachable, new_broker, pending}
use pop_cpp.Broker.Threads.Exclusion.{mutex_exclusion, counters_lem, is_admitted}
use pop_cpp.Buffer.Raw.{raw_class}
use pop_cpp.Buffer.Raw.Laws.{raw_laws}
use pop_cpp.Broker.PopCall.{Site, pop_call}
use pop_cpp.Broker.PopCall.Expected.{IsSite, IsChosen, expected}
use pop_cpp.Broker.PopCall.Answers.{Promise, binding_items, pop_call_lem}
use pop_cpp.Broker.Methods.{
  MethodInfo, ClassInfo, IsTable, add_method_info, name_in, find_method_name, id_in,
  find_method_info, or_else, find_method_name-find_method_info, find_method_name-add_method_info,
}

abbrev call_of : ℕ → Request
call_of type = record {
  from = some 1;
  class_id = 1500;
  method_id = 11;
  semantics = type;
  buf = fresh;
}

-- Synchronous calls of a mutex, a concurrent and a sequential method.
abbrev mutex : Request
mutex = call_of 17

abbrev concurrent : Request
concurrent = call_of 9

abbrev sequential : Request
sequential = call_of 1

kinds : (is_conc mutex ≡ false) × (is_mutex mutex ≡ true) × (is_conc concurrent ≡ true)
unfolding is_conc is_mutex
kinds = (refl, refl, refl)

plain_sequential : (is_conc sequential ≡ false) × (is_mutex sequential ≡ false)
unfolding is_conc is_mutex
plain_sequential = (refl, refl)

overtaken :
    take_request 1 (sequential ∷ concurrent ∷ mutex ∷ [])
    ≡ some (concurrent, sequential ∷ mutex ∷ [], 0)
unfolding take_request take_conc is_conc is_mutex
overtaken = refl

take_request-order_example :
    (q : Request) × (before : List Request) × (after : List Request) × (pendings' : ℕ)
    × (take_request 1 (sequential ∷ concurrent ∷ []) ≡ some (q, before ++ after, pendings'))
    × (sequential ∷ concurrent ∷ [] ≡ before ++ q ∷ after)
    × MayOvertake q before
    × ((pendings' ≡ 1) ⊎ ((pendings' + 1 ≡ 1) × (is_conc q ≡ true)))
take_request-order_example = take_request-order 1 sequential (concurrent ∷ [])

abbrev arrived : Broker
arrived = record new_broker { mutex_count = 1; arriving = mutex ∷ [] }

arrived-Reachable : Reachable arrived
unfolding is_conc is_mutex is_sync keep_connection
arrived-Reachable =
    Reachable.step Reachable.start (Step.count_mutex mutex (refl, refl) refl) (omega arith)

abbrev queued : Broker
queued = record new_broker { mutex_count = 1; request_fifo = mutex ∷ [] }

queued-Reachable : Reachable queued
queued-Reachable =
    Reachable.step arrived-Reachable (Step.queue [] [] mutex refl tt)
      (unfold is_conc is_mutex in omega arith)

abbrev chosen : Broker
chosen = record new_broker { mutex_count = 1; server = Server.waiting mutex }

chosen-Reachable : Reachable chosen
unfolding take_request is_mutex is_conc
chosen-Reachable =
    Reachable.step queued-Reachable (Step.take_mutex mutex [] refl refl refl) (omega arith)

abbrev exclusive_run : Broker
exclusive_run = record new_broker { mutex_count = 1; server = Server.serving mutex }

exclusive_run-Reachable : Reachable exclusive_run
unfolding is_mutex is_conc
exclusive_run-Reachable =
    Reachable.step chosen-Reachable (Step.proceed mutex refl refl) (omega arith)

mutex_exclusion_example : (exclusive_run.invoking ≡ []) × (is_admitted none ≡ false)
mutex_exclusion_example =
    mutex_exclusion exclusive_run mutex exclusive_run-Reachable (kinds.0, kinds.1) (inl refl)

counters_lem_example : (1 ≡ pending exclusive_run) × (0 ≡ length {A = Request} [])
counters_lem_example = counters_lem exclusive_run exclusive_run-Reachable

abbrev site : Site
site = record {
  obj = some (record { refcount = 1; can_kill = true });
  factory = 0;
  factories = (120 ∷ 100 ∷ 114 ∷ []) ∷ (114 ∷ 97 ∷ 119 ∷ []) ∷ [];
  platform = 108 ∷ [];
  instance_count = 0;
  queue_size = 0;
}

site-IsSite : IsSite site
site-IsSite = omega arith

-- AddRef, called with an answer.
abbrev reference : Request
reference = record sequential { class_id = 0; method_id = 1 }

pop_call_lem_example :
    (found : Option ℕ) × IsChosen (114 ∷ 97 ∷ 119 ∷ []) site.factories found
    × Promise raw_class raw_laws fresh.header site
        (expected site reference 1 found (binding_items raw_class raw_laws fresh.header site))
        (pop_call raw_class fresh.header site reference)
pop_call_lem_example =
    pop_call_lem raw_class raw_laws fresh.header site reference (114 ∷ 97 ∷ 119 ∷ []) site-IsSite
      (λ e. absurd (omega (arith, e)))

abbrev methods : List MethodInfo
methods = record { mid = 10; name = 65 ∷ [] } ∷ record { mid = 11; name = 71 ∷ [] } ∷ []

abbrev table : List ClassInfo
table = record { cid = 1500; methods = methods } ∷ []

table-IsTable : IsTable table
unfolding IsTable
table-IsTable = (((refl, tt), (tt, tt)), tt, tt)

found : find_method_info (71 ∷ []) table ≡ some (1500, 11)
unfolding find_method_info id_in
found = refl

find_method_name-find_method_info_example : find_method_name 1500 11 table ≡ some (71 ∷ [])
find_method_name-find_method_info_example =
    find_method_name-find_method_info 1500 11 (71 ∷ []) table table-IsTable found

find_method_name-add_method_info_example :
    find_method_name 1501 11 (add_method_info 1501 methods table)
    ≡ or_else (find_method_name 1501 11 table) (if 1501 == 1501 then name_in 11 methods else none)
find_method_name-add_method_info_example =
    find_method_name-add_method_info 1501 methods table 1501 11
