-- ===== src/JobMgr/Trace.antt =====
-- What a JobMgr remembers of the requests that it has seen, and the addresses that a request has
-- passed (AddRequest, AddTrace and NodeInTrace of services/lib/jobmgr.cc).
use pop_cpp.Base.{
  or-false, ℕ, zero, suc, ◌*◌, ◌^◌, ◌≤◌, ◌<◌, ◌≡◌, refl, ap, ◌∙◌, Bool, true, false, Bool-cases,
  inl, inr, List, [], ◌∷◌, ◌++◌, length, take, drop, Option, none, some, Result, ok, err, undefined,
  ltb, leb, ◌==◌, ◌||◌, if◌then◌else◌, arith,
}
use pop_cpp.Base.Bytes.{is_positive}
use pop_cpp.Base.Int.{pos}
use pop_cpp.Base.Floats.{Floats}
use pop_cpp.AccessPoint.{AccessPoint, equal_text}
use pop_cpp.AccessPoint.Texts.{equal_text_refl, equal_text-differ}
use pop_cpp.Exception.Codes.{codes}
use pop_cpp.Search.Texts.{find_text}

pub record RequestTrace : Type 0 where
  pub request_id : List ℕ
  pub timestamp : ℕ

unfoldable pub seen : List ℕ → List RequestTrace → Bool
seen req_id [] = false
seen req_id (t ∷ ts) = let later = seen req_id ts in equal_text t.request_id req_id || later

module _ (f : Floats) where
  -- Entries before this time are forgotten.
  abbrev pub oldest : ℕ → ℕ → ℕ
  oldest now reserve_timeout =
      f.sub now (f.of_int (pos (if is_positive reserve_timeout then 2 * reserve_timeout else 300)))

  unfoldable pub remove_old : ℕ → List RequestTrace → List RequestTrace
  remove_old time [] = []
  remove_old time (t ∷ ts) =
      let later = remove_old time ts in if f.less t.timestamp time then later else t ∷ later

  -- The clock is read twice.
  unfoldable pub add_request : ℕ → ℕ → ℕ → List ℕ → List RequestTrace → Bool × List RequestTrace
  add_request now now' reserve_timeout req_id tracelist =
      if seen req_id tracelist then (false, tracelist) else (
        true,
        remove_old (oldest now reserve_timeout) tracelist
            ++ record { request_id = req_id; timestamp = now' } ∷ [],
      )

-- int trace[MAX_HOPS] and tracesize, a word.
pub record Trace : Type 0 where
  pub hops : List ℕ
  pub tracesize : ℕ

abbrev pub max_hops : ℕ
max_hops = 20

-- `tracesize < 0 || tracesize >= MAX_HOPS`
abbrev pub is_out : ℕ → Bool
is_out tracesize = leb (2 ^ 31) tracesize || leb max_hops tracesize

abbrev pub with_hop : Trace → Option ℕ → Bool × Trace
with_hop trace none = (false, trace)
with_hop trace (some ip) = (
  true,
  record {
    hops = take trace.tracesize trace.hops ++ ip ∷ drop (suc trace.tracesize) trace.hops;
    tracesize = suc trace.tracesize;
  },
)

-- AddTrace, with the address that GetIP finds for this machine.
unfoldable pub add_trace : Option ℕ → Trace → Bool × Trace
add_trace ip trace = if is_out trace.tracesize then (false, trace) else with_hop trace ip

unfoldable pub has_hop : ℕ → List ℕ → Bool
has_hop ip [] = false
has_hop ip (x ∷ xs) = let later = has_hop ip xs in (x == ip) || later

-- Up to the first colon.
unfoldable pub up_to_colon : List ℕ → List ℕ
up_to_colon [] = []
up_to_colon (c ∷ cs) = let rest = up_to_colon cs in if c == 58 then [] else c ∷ rest

-- What follows the protocol.
abbrev pub after : Option (List ℕ) → ℕ → List ℕ → List ℕ
after none n otherwise = otherwise
after (some text) n otherwise = drop n text

unfoldable pub host_name : List ℕ → List ℕ
host_name host =
    up_to_colon (
      after (find_text (codes "socket://") host) 9
        (after (find_text (codes "http://") host) 7 host))

abbrev pub among : List ℕ → Option ℕ → Bool
among hops none = false
among hops (some ip) = has_hop ip hops

-- NodeInTrace, with what GetIP finds for a name. The text is copied into an array of 1024.
unfoldable pub node_in_trace : (List ℕ → Option ℕ) → Trace → AccessPoint → Result Bool
node_in_trace get_ip trace contact =
    if is_out trace.tracesize || equal_text contact.endpoint []
    then ok false
    else if leb 1024 (length contact.endpoint)
    then err undefined
    else ok (among (take trace.tracesize trace.hops) (get_ip (host_name contact.endpoint)))

unseen-snoc :
    (id req_id : List ℕ) (time : ℕ) (ts : List RequestTrace)
    → seen id ts ≡ false
    → equal_text req_id id ≡ false
    → seen id (ts ++ record { request_id = req_id; timestamp = time } ∷ []) ≡ false
unfolding seen
unseen-snoc id req_id time [] h n = rw n refl
unseen-snoc id req_id time (t ∷ ts) h n =
    let (here, later) = or-false (equal_text t.request_id id) (seen id ts) h in
    rw here (unseen-snoc id req_id time ts later n)

module _ (f : Floats) where
  -- The request ids of the list, without those that two entries share.
  abbrev pub AreUnique : List RequestTrace → Type 0
  AreUnique [] = Unit
  AreUnique (t ∷ ts) = (seen t.request_id ts ≡ false) × AreUnique ts

  seen-remove_old :
      (time : ℕ) (req_id : List ℕ) (ts : List RequestTrace)
      → seen req_id ts ≡ false
      → seen req_id (remove_old f time ts) ≡ false
  unfolding seen remove_old
  seen-remove_old time req_id [] h = refl
  seen-remove_old time req_id (t ∷ ts) h =
      let (here, later) = or-false (equal_text t.request_id req_id) (seen req_id ts) h in
      elim (Bool-cases (f.less t.timestamp time)) [
        | inl e ↦ rw e (seen-remove_old time req_id ts later)
        | inr n ↦ rw (n, here) (seen-remove_old time req_id ts later)
      ]

  AreUnique-remove_old :
      (time : ℕ) (ts : List RequestTrace) → AreUnique ts → AreUnique (remove_old f time ts)
  unfolding remove_old
  AreUnique-remove_old time [] u = tt
  AreUnique-remove_old time (t ∷ ts) (n, u) = elim (Bool-cases (f.less t.timestamp time)) [
    | inl e ↦ rw e (AreUnique-remove_old time ts u)
    | inr z ↦ rw z (seen-remove_old time t.request_id ts n, AreUnique-remove_old time ts u)
  ]

  AreUnique-snoc :
      (req_id : List ℕ) (time : ℕ) (ts : List RequestTrace)
      → seen req_id ts ≡ false
      → AreUnique ts
      → AreUnique (ts ++ record { request_id = req_id; timestamp = time } ∷ [])
  unfolding seen
  AreUnique-snoc req_id time [] n u = (refl, tt)
  AreUnique-snoc req_id time (t ∷ ts) n (h, u) =
      let (here, later) = or-false (equal_text t.request_id req_id) (seen req_id ts) n in
      let other =
        equal_text-differ t.request_id t.request_id req_id (equal_text_refl t.request_id) here in
      (unseen-snoc t.request_id req_id time ts h other, AreUnique-snoc req_id time ts later u)

  -- AddRequest keeps a list in which no two entries have the same id like that.
  pub add_request-AreUnique :
      (now now' timeout : ℕ) (req_id : List ℕ) (ts : List RequestTrace)
      → AreUnique ts
      → AreUnique (add_request f now now' timeout req_id ts).1
  unfolding add_request
  add_request-AreUnique now now' timeout req_id ts u = elim (Bool-cases (seen req_id ts)) [
    | inl e ↦ rw e u
    | inr n ↦
        let time = oldest f now timeout in
        rw n (
          AreUnique-snoc req_id now' (remove_old f time ts) (seen-remove_old time req_id ts n)
            (AreUnique-remove_old time ts u))
  ]

-- The array has twenty places, and no more are used.
pub record IsTrace (trace : Trace) : Type 0 where
  pub places : length trace.hops ≡ 20
  pub used : trace.tracesize ≤ 20

write-length :
    (n x : ℕ) (xs : List ℕ) → n < length xs → length (take n xs ++ x ∷ drop (suc n) xs) ≡ length xs
write-length zero x [] h = absurd (omega arith)
write-length zero x (y ∷ ys) h = refl
write-length (suc n) x [] h = absurd (omega arith)
write-length (suc n) x (y ∷ ys) h = ap suc (write-length n x ys (omega arith))

write-take :
    (n x : ℕ) (xs : List ℕ)
    → n < length xs
    → take (suc n) (take n xs ++ x ∷ drop (suc n) xs) ≡ take n xs ++ x ∷ []
write-take zero x [] h = absurd (omega arith)
write-take zero x (y ∷ ys) h = refl
write-take (suc n) x [] h = absurd (omega arith)
write-take (suc n) x (y ∷ ys) h = ap (λ (l : List ℕ). y ∷ l) (write-take n x ys (omega arith))

in_bounds : (n : ℕ) → n < 20 → is_out n ≡ false
in_bounds n h = ground arith

with_hop-IsTrace :
    (ip : Option ℕ) (trace : Trace)
    → IsTrace trace
    → trace.tracesize < 20
    → IsTrace (with_hop trace ip).1
with_hop-IsTrace none trace i h = i
with_hop-IsTrace (some ip) trace i h =
    let places = i.places in
    record { places = write-length trace.tracesize ip trace.hops (omega arith) ∙ places; used = h }

-- AddTrace writes inside the array: it keeps its length, and uses at most twenty places.
pub add_trace-IsTrace :
    (ip : Option ℕ) (trace : Trace) → IsTrace trace → IsTrace (add_trace ip trace).1
unfolding add_trace
add_trace-IsTrace ip trace i = elim (Bool-cases (is_out trace.tracesize)) [
  | inl e ↦ rw e i
  | inr n ↦
      let small : trace.tracesize < 20 = ground (arith, n) in
      rw n (with_hop-IsTrace ip trace i small)
]

has_hop-snoc : (ip : ℕ) (xs : List ℕ) → has_hop ip (xs ++ ip ∷ []) ≡ true
unfolding has_hop
has_hop-snoc ip [] = ground arith
has_hop-snoc ip (x ∷ xs) = elim (Bool-cases (x == ip)) [
  | inl e ↦ rw e refl
  | inr n ↦ rw n (has_hop-snoc ip xs)
]

-- A machine whose address is the last that AddTrace has added is found in the trace, unless this
-- was the twentieth: a trace that is full has no machine at all.
pub node_in_trace-add_trace :
    (get_ip : List ℕ → Option ℕ) (ip : ℕ) (trace : Trace) (contact : AccessPoint)
    → IsTrace trace
    → trace.tracesize < 20
    → equal_text contact.endpoint [] ≡ false
    → length contact.endpoint < 1024
    → get_ip (host_name contact.endpoint) ≡ some ip
    → node_in_trace get_ip (add_trace (some ip) trace).1 contact ≡ ok (ltb (suc trace.tracesize) 20)
unfolding node_in_trace add_trace
node_in_trace-add_trace get_ip ip trace contact i h some_contact short found =
    let places = i.places in
    let near : leb 1024 (length contact.endpoint) ≡ false = ground arith in
    rw (in_bounds trace.tracesize h) (elim (Bool-cases (ltb (suc trace.tracesize) 20)) [
      | inl e ↦
          let less : suc trace.tracesize < 20 = ground (arith, e) in
          rw
            (
              in_bounds (suc trace.tracesize) less,
              some_contact,
              near,
              found,
              e,
              write-take trace.tracesize ip trace.hops (omega arith),
            )
            (ap ok (has_hop-snoc ip (take trace.tracesize trace.hops)))
      | inr n ↦
          let full : is_out (suc trace.tracesize) ≡ true = ground (arith, n) in rw (full, n) refl
    ])
