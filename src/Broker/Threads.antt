-- ===== src/Broker/Threads.antt =====
-- The threads of a broker as a step relation: the receiving threads in RegisterRequest
-- (lib/dynamic/broker_receive.cc), the thread of Run with GetRequest and ServeRequest and the
-- threads that invoke concurrent methods (lib/core/broker_serve.cc, lib/core/broker.cc). A step is
-- what happens under one lock, or between two of them.
pub mod Counting
pub mod Invariant
pub mod Exclusion
use pop_cpp.Base.{
  ℕ, ◌+◌, ◌-◌, ◌%◌, ◌^◌, ◌<◌, ◌≡◌, Bool, true, false, List, [], ◌∷◌, ◌++◌, length, Option, none,
  some,
}
use pop_cpp.Base.Bytes.{is_positive}
use pop_cpp.Broker.{Request, is_conc, is_mutex, keep_connection, take_request}

-- The receiving thread that has locked `mutexCond` to register a concurrent request: it has found
-- no mutex request pending, or some; or it has put its request into the queue already, and then has
-- read `concPendings`, which it does not hold `execCond` for, to count it up.
pub data Holder : Type 0 where
  admitted : Request → Holder
  refused : Request → Holder
  queued : Holder
  counting : ℕ → Holder

-- The thread of Run: in GetRequest, with `execCond` locked, when it has taken a concurrent request
-- that is counted, and then has read `concPendings`; waiting for the end of the concurrent invocations, in
-- ServeRequest, or behind the DoInvoke of a mutex request.
pub data Server : Type 0 where
  idle : Server
  overtaking : Request → Server
  uncounting : Request → ℕ → Server
  waiting : Request → Server
  serving : Request → Server
  invoked : Request → Server

-- The members of pop_broker, and what the threads are about to do. `arriving` are the requests
-- that receiving threads are about to put into the queue, `invoking` those that have their own
-- thread. The counters are `int`s, as words.
pub record Broker : Type 0 where
  pub request_fifo : List Request
  pub mutex_count : ℕ
  pub conc_pendings : ℕ
  pub instance_count : ℕ
  pub holder : Option Holder
  pub arriving : List Request
  pub server : Server
  pub invoking : List Request

-- pop_broker()
abbrev pub new_broker : Broker
new_broker = record {
  request_fifo = [];
  mutex_count = 0;
  conc_pendings = 0;
  instance_count = 0;
  holder = none;
  arriving = [];
  server = Server.idle;
  invoking = [];
}

-- `x++` and `x--`
abbrev pub increment : ℕ → ℕ
increment x = (x + 1) % 2 ^ 32

abbrev pub decrement : ℕ → ℕ
decrement x = (x + (2 ^ 32 - 1)) % 2 ^ 32

-- GetRequest does not hold `execCond` between two steps.
abbrev pub IsFree : Server → Type 0
IsFree (Server.overtaking r) = ⊥
IsFree (Server.uncounting r n) = ⊥
IsFree _ = Unit

-- A mutex request for RegisterRequest and ServeRequest, which ask for a concurrent one first.
abbrev pub IsExclusive : Request → Type 0
IsExclusive r = (is_conc r ≡ false) × (is_mutex r ≡ true)

pub data Step : Broker → Broker → Type 0 where
  -- RegisterRequest
  admit :
      {s : Broker} (r : Request)
      → is_conc r ≡ true
      → s.holder ≡ none
      → is_positive s.mutex_count ≡ false
      → Step s (record s { holder = some (Holder.admitted (keep_connection r)) })
  refuse :
      {s : Broker} (r : Request)
      → is_conc r ≡ true
      → s.holder ≡ none
      → is_positive s.mutex_count ≡ true
      → Step s (record s { holder = some (Holder.refused (keep_connection r)) })
  -- pop_invokethread, made by the receiving thread
  spawn :
      {s : Broker} (r : Request)
      → s.holder ≡ some (Holder.admitted r)
      → IsFree s.server
      → Step s (record s {
        holder = none;
        instance_count = increment s.instance_count;
        invoking = r ∷ s.invoking;
      })
  queue_conc :
      {s : Broker} (r : Request)
      → s.holder ≡ some (Holder.refused r)
      → IsFree s.server
      → Step s (record s { holder = some Holder.queued; request_fifo = s.request_fifo ++ r ∷ [] })
  -- `concPendings++` reads and writes, and GetRequest may do so in between.
  read_conc :
      {s : Broker}
      → s.holder ≡ some Holder.queued
      → Step s (record s { holder = some (Holder.counting s.conc_pendings) })
  count_conc :
      {s : Broker} (n : ℕ)
      → s.holder ≡ some (Holder.counting n)
      → Step s (record s { holder = none; conc_pendings = increment n })
  count_mutex :
      {s : Broker} (r : Request)
      → IsExclusive r
      → s.holder ≡ none
      → Step s (record s {
        mutex_count = increment s.mutex_count;
        arriving = keep_connection r ∷ s.arriving;
      })
  arrive :
      {s : Broker} (r : Request)
      → is_conc r ≡ false
      → is_mutex r ≡ false
      → Step s (record s { arriving = keep_connection r ∷ s.arriving })
  queue :
      {s : Broker} (before after : List Request) (r : Request)
      → s.arriving ≡ before ++ r ∷ after
      → IsFree s.server
      → Step s (record s { arriving = before ++ after; request_fifo = s.request_fifo ++ r ∷ [] })
  -- GetRequest, for the first request of the queue
  take :
      {s : Broker} (r : Request) (rest : List Request)
      → s.server ≡ Server.idle
      → take_request s.conc_pendings s.request_fifo ≡ some (r, rest, s.conc_pendings)
      → is_mutex r ≡ false
      → Step s (record s { server = Server.serving r; request_fifo = rest })
  take_mutex :
      {s : Broker} (r : Request) (rest : List Request)
      → s.server ≡ Server.idle
      → take_request s.conc_pendings s.request_fifo ≡ some (r, rest, s.conc_pendings)
      → is_mutex r ≡ true
      → Step s (record s { server = Server.waiting r; request_fifo = rest })
  -- and for a concurrent one that is counted, `concPendings--`
  overtake :
      {s : Broker} (r : Request) (rest : List Request) (pendings : ℕ)
      → s.server ≡ Server.idle
      → take_request s.conc_pendings s.request_fifo ≡ some (r, rest, pendings)
      → pendings + 1 ≡ s.conc_pendings
      → Step s (record s { server = Server.overtaking r; request_fifo = rest })
  read_overtaking :
      {s : Broker} (r : Request)
      → s.server ≡ Server.overtaking r
      → Step s (record s { server = Server.uncounting r s.conc_pendings })
  uncount_conc :
      {s : Broker} (r : Request) (n : ℕ)
      → s.server ≡ Server.uncounting r n
      → Step s (record s { server = Server.serving r; conc_pendings = decrement n })
  proceed :
      {s : Broker} (r : Request)
      → s.server ≡ Server.waiting r
      → is_positive s.instance_count ≡ false
      → Step s (record s { server = Server.serving r })
  -- ServeRequest
  serve_conc :
      {s : Broker} (r : Request)
      → s.server ≡ Server.serving r
      → is_conc r ≡ true
      → Step s (record s {
        server = Server.idle;
        instance_count = increment s.instance_count;
        invoking = r ∷ s.invoking;
      })
  invoke_plain :
      {s : Broker} (r : Request)
      → s.server ≡ Server.serving r
      → is_conc r ≡ false
      → is_mutex r ≡ false
      → Step s (record s { server = Server.idle })
  invoke_mutex :
      {s : Broker} (r : Request)
      → s.server ≡ Server.serving r
      → IsExclusive r
      → Step s (record s { server = Server.invoked r })
  uncount_mutex :
      {s : Broker} (r : Request)
      → s.server ≡ Server.invoked r
      → s.holder ≡ none
      → Step s (record s { server = Server.idle; mutex_count = decrement s.mutex_count })
  -- ~pop_invokethread
  leave :
      {s : Broker} (before after : List Request) (r : Request)
      → s.invoking ≡ before ++ r ∷ after
      → IsFree s.server
      → Step s
          (record s { invoking = before ++ after; instance_count = decrement s.instance_count })

abbrev pub exclusive : Bool → Bool → ℕ
exclusive false true = 1
exclusive false false = 0
exclusive true m = 0

-- How many of the requests are mutex requests.
abbrev pub exclusives : List Request → ℕ
exclusives [] = 0
exclusives (r ∷ rs) = exclusive (is_conc r) (is_mutex r) + exclusives rs

-- The mutex request that Run has taken.
abbrev pub taken : Server → ℕ
taken Server.idle = 0
taken (Server.overtaking r) = exclusive (is_conc r) (is_mutex r)
taken (Server.uncounting r n) = exclusive (is_conc r) (is_mutex r)
taken (Server.waiting r) = exclusive (is_conc r) (is_mutex r)
taken (Server.serving r) = exclusive (is_conc r) (is_mutex r)
taken (Server.invoked r) = 1

-- The mutex requests that have been registered and not yet served.
abbrev pub pending : Broker → ℕ
pending s = exclusives s.arriving + exclusives s.request_fifo + taken s.server

-- Fewer of each kind than an `int` can count.
pub record IsBounded (s : Broker) : Type 0 where
  pub few_mutex : pending s < 2 ^ 31
  pub few_invoking : length s.invoking < 2 ^ 31

-- The states of a broker in which there are never more.
pub data Reachable : Broker → Type 0 where
  start : Reachable new_broker
  step : {s t : Broker} → Reachable s → Step s t → IsBounded t → Reachable t
