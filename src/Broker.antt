-- ===== src/Broker.antt =====
-- pop_broker: the requests that a parallel object receives and how they are chosen to be served
-- (include/core/pop_broker.h, lib/core/broker.cc, lib/core/broker_serve.cc,
-- lib/dynamic/broker_receive.cc).
pub mod Order
pub mod Threads
pub mod PopCall
pub mod Methods
pub mod Invoke
mod Examples
mod InvokeExamples
use Prim.Native.Nat.{◌/◌}
use pop_cpp.Base.{
  ℕ, ◌-◌, ◌%◌, Bool, true, false, List, [], ◌∷◌, Option, none, some, ◌==◌, if◌then◌else◌,
}
use pop_cpp.Buffer.Types.{Buffer}

-- pop_request. A connection is named by a number; `methodId` is the three words behind it.
pub record Request : Type 0 where
  pub from : Option ℕ
  pub class_id : ℕ
  pub method_id : ℕ
  pub semantics : ℕ
  pub buf : Buffer

abbrev pub invoke_sync : ℕ
invoke_sync = 1

abbrev pub invoke_constructor : ℕ
invoke_constructor = 4

abbrev pub invoke_conc : ℕ
invoke_conc = 8

abbrev pub invoke_mutex : ℕ
invoke_mutex = 16

-- `type & flag`, for a flag of one bit.
abbrev pub has_flag : ℕ → ℕ → Bool
has_flag type flag = ((type / flag) % 2) == 1

unfoldable pub is_conc : Request → Bool
is_conc r = has_flag r.semantics invoke_conc

unfoldable pub is_mutex : Request → Bool
is_mutex r = has_flag r.semantics invoke_mutex

unfoldable pub is_sync : Request → Bool
is_sync r = has_flag r.semantics invoke_sync

-- RegisterRequest: the connection is kept for the response to a synchronous call only.
unfoldable pub keep_connection : Request → Request
keep_connection r = if is_sync r then r else record r { from = none }

-- GetRequest, the loop: the first concurrent request with no mutex request before it, and the
-- queue without it.
unfoldable pub take_conc : List Request → Option (Request × List Request)
take_conc [] = none
take_conc (r ∷ rs) =
    let later = take_conc rs in
    if is_conc r
    then some (r, rs)
    else if is_mutex r
    then none
    else elim later [ none ↦ none | some (q, rest) ↦ some (q, r ∷ rest) ]

-- GetRequest, up to the wait of a mutex request: the request, the queue and `concPendings`
-- afterwards, or none for an empty queue.
unfoldable pub take_request : ℕ → List Request → Option (Request × List Request × ℕ)
take_request pendings [] = none
take_request pendings (r ∷ rs) =
    if pendings == 0 then some (r, rs, pendings) else elim (take_conc (r ∷ rs)) [
      | none ↦ some (r, rs, pendings)
      | some (q, rest) ↦ some (q, rest, pendings - 1)
    ]
