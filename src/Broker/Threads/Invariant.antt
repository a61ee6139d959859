-- ===== src/Broker/Threads/Invariant.antt =====
-- What holds of a broker in every step: its counters are right, and a mutex method excludes the
-- concurrent ones (the threads of lib/core/broker_serve.cc and lib/dynamic/broker_receive.cc).
use pop_cpp.Base.{
  ℕ, ◌+◌, ◌≤◌, ◌≡◌, refl, sym, ap, ◌∙◌, Bool, true, false, List, length, Option, none, some, ◌⊎◌,
  inl, inr, arith,
}
use mathlib.Core.Path.{subst}
use pop_cpp.Broker.{Request, is_conc, is_mutex, keep_connection, take_request}
use pop_cpp.Broker.Threads.{
  Broker, Holder, Server, Step, IsExclusive, IsBounded, Reachable, new_broker, exclusive,
  exclusives, taken, pending, increment,
}
use pop_cpp.Broker.Threads.Counting.{
  exclusives-insert, exclusives-snoc, length-insert, is_conc-keep, is_mutex-keep, exclusives-take,
  counted-take,
}

-- The mutex request whose method Run has begun to invoke, or is about to, without waiting.
abbrev pub busy : Server → ℕ
busy (Server.overtaking r) = exclusive (is_conc r) (is_mutex r)
busy (Server.uncounting r n) = exclusive (is_conc r) (is_mutex r)
busy (Server.serving r) = exclusive (is_conc r) (is_mutex r)
busy (Server.invoked r) = 1
busy _ = 0

-- A receiving thread has let a concurrent request pass while no mutex request was registered.
abbrev pub Held : Option Holder → ℕ → Type 0
Held (some (Holder.admitted r)) n = (is_conc r ≡ true) × (n ≡ 0)
Held (some (Holder.refused r)) n = is_conc r ≡ true
Held _ n = Unit

pub record IsExcluding (s : Broker) : Type 0 where
  pub counted : s.mutex_count ≡ pending s
  pub counted_invoking : s.instance_count ≡ length s.invoking
  pub held : Held s.holder (pending s)
  pub excluded : (busy s.server ≡ 0) ⊎ (length s.invoking ≡ 0)

conc-exclusive : (r : Request) → is_conc r ≡ true → exclusive (is_conc r) (is_mutex r) ≡ 0
conc-exclusive r e = rw e refl

exclusive-false : (c : Bool) → exclusive c false ≡ 0
exclusive-false true = refl
exclusive-false false = refl

plain-exclusive : (r : Request) → is_mutex r ≡ false → exclusive (is_conc r) (is_mutex r) ≡ 0
plain-exclusive r e = ap (exclusive (is_conc r)) e ∙ exclusive-false (is_conc r)

pub mutex-exclusive : (r : Request) → IsExclusive r → exclusive (is_conc r) (is_mutex r) ≡ 1
mutex-exclusive r e = rw (e.0, e.1) refl

keep-exclusive :
    (r : Request)
    → exclusive (is_conc (keep_connection r)) (is_mutex (keep_connection r))
      ≡ exclusive (is_conc r) (is_mutex r)
keep-exclusive r = rw (is_conc-keep r, is_mutex-keep r) refl

pub busy-le : (server : Server) → busy server ≤ taken server
busy-le Server.idle = omega arith
busy-le (Server.overtaking r) = omega arith
busy-le (Server.uncounting r n) = omega arith
busy-le (Server.waiting r) = omega arith
busy-le (Server.serving r) = omega arith
busy-le (Server.invoked r) = omega arith

-- A step that keeps the counters and the threads that are served keeps the invariant.
moved :
    (s t : Broker)
    → IsExcluding s
    → pending t ≡ pending s
    → t.mutex_count ≡ s.mutex_count
    → t.holder ≡ s.holder
    → t.instance_count ≡ s.instance_count
    → t.invoking ≡ s.invoking
    → (busy t.server ≡ 0) ⊎ (busy t.server ≡ busy s.server)
    → IsExcluding t
moved s t i p m h n v k = record {
  counted = m ∙ i.counted ∙ sym p;
  counted_invoking = n ∙ i.counted_invoking ∙ ap length (sym v);
  held = subst (Held t.holder) (sym p) (subst (λ h. Held h (pending s)) (sym h) i.held);
  excluded = elim k [
    | inl z ↦ inl z
    | inr e ↦ elim i.excluded [ inl z ↦ inl (e ∙ z) | inr z ↦ inr (ap length v ∙ z) ]
  ];
}

none-Held : (h : Option Holder) (n : ℕ) → h ≡ none → Held h n
none-Held h n e = subst (λ h. Held h n) (sym e) tt

-- Another concurrent invocation, while no mutex method is.
another :
    (s t : Broker)
    → IsExcluding s
    → IsBounded t
    → pending t ≡ pending s
    → t.mutex_count ≡ s.mutex_count
    → Held t.holder (pending t)
    → t.instance_count ≡ increment s.instance_count
    → length t.invoking ≡ length s.invoking + 1
    → busy t.server ≡ 0
    → IsExcluding t
another s t i b p m h n v z = record {
  counted = m ∙ i.counted ∙ sym p;
  counted_invoking = omega (arith, i.counted_invoking, b.few_invoking);
  held = h;
  excluded = inl z;
}

-- Only a concurrent request is taken with `concPendings--`.
overtaking-is_conc :
    (s : Broker) (r : Request) (rest : List Request) (pendings : ℕ)
    → take_request s.conc_pendings s.request_fifo ≡ some (r, rest, pendings)
    → pendings + 1 ≡ s.conc_pendings
    → is_conc r ≡ true
overtaking-is_conc s r rest pendings e down =
    elim (counted-take s.conc_pendings s.request_fifo r rest pendings e) [
      | inl same ↦ absurd (omega (arith, same, down))
      | inr (d, c) ↦ c
    ]

step-IsExcluding :
    (s t : Broker) → Step s t → IsExcluding s → IsBounded s → IsBounded t → IsExcluding t
step-IsExcluding s t (Step.admit r c e z) i b b' = record {
  counted = i.counted;
  counted_invoking = i.counted_invoking;
  held = (is_conc-keep r ∙ c, ground (arith, i.counted, b.few_mutex));
  excluded = i.excluded;
}
step-IsExcluding s t (Step.refuse r c e z) i b b' = record {
  counted = i.counted;
  counted_invoking = i.counted_invoking;
  held = is_conc-keep r ∙ c;
  excluded = i.excluded;
}
step-IsExcluding s t (Step.spawn r e _) i b b' =
    let (c, z) = subst (λ h. Held h (pending s)) e i.held in
    another s t i b' refl refl tt refl (omega arith) (omega (arith, z, busy-le s.server))
step-IsExcluding s t (Step.queue_conc r e _) i b b' =
    let c : is_conc r ≡ true = subst (λ h. Held h (pending s)) e i.held in
    let p : pending t ≡ pending s =
      omega (arith, exclusives-snoc s.request_fifo r, conc-exclusive r c) in
    record {
      counted = i.counted ∙ sym p;
      counted_invoking = i.counted_invoking;
      held = tt;
      excluded = i.excluded;
    }
step-IsExcluding s t (Step.read_conc e) i b b' = record {
  counted = i.counted;
  counted_invoking = i.counted_invoking;
  held = tt;
  excluded = i.excluded;
}
step-IsExcluding s t (Step.count_conc n e) i b b' = record {
  counted = i.counted;
  counted_invoking = i.counted_invoking;
  held = tt;
  excluded = i.excluded;
}
step-IsExcluding s t (Step.count_mutex r x e) i b b' = record {
  counted = omega (arith, i.counted, b'.few_mutex, keep-exclusive r, mutex-exclusive r x);
  counted_invoking = i.counted_invoking;
  held = none-Held s.holder _ e;
  excluded = i.excluded;
}
step-IsExcluding s t (Step.arrive r c m) i b b' =
    moved s t i (omega (arith, keep-exclusive r, plain-exclusive r m)) refl refl refl refl
      (inr refl)
step-IsExcluding s t (Step.queue before after r e _) i b b' =
    moved s t i
      (omega (
        arith,
        ap exclusives e,
        exclusives-insert before after r,
        exclusives-snoc s.request_fifo r,
      ))
      refl refl refl refl (inr refl)
step-IsExcluding s t (Step.take r rest e k m) i b b' =
    moved s t i
      (omega (arith, ap taken e, exclusives-take s.conc_pendings s.request_fifo r rest _ k)) refl
      refl refl refl (inl (plain-exclusive r m))
step-IsExcluding s t (Step.take_mutex r rest e k m) i b b' =
    moved s t i
      (omega (arith, ap taken e, exclusives-take s.conc_pendings s.request_fifo r rest _ k)) refl
      refl refl refl (inl refl)
step-IsExcluding s t (Step.overtake r rest pendings e k down) i b b' =
    moved s t i
      (omega (arith, ap taken e, exclusives-take s.conc_pendings s.request_fifo r rest _ k)) refl
      refl refl refl (inl (conc-exclusive r (overtaking-is_conc s r rest pendings k down)))
step-IsExcluding s t (Step.read_overtaking r e) i b b' =
    moved s t i (omega (arith, ap taken e)) refl refl refl refl (inr (sym (ap busy e)))
step-IsExcluding s t (Step.uncount_conc r n e) i b b' =
    moved s t i (omega (arith, ap taken e)) refl refl refl refl (inr (sym (ap busy e)))
step-IsExcluding s t (Step.proceed r e z) i b b' = record {
  counted = omega (arith, i.counted, ap taken e);
  counted_invoking = i.counted_invoking;
  held = subst (Held s.holder) (omega (arith, ap taken e)) i.held;
  excluded = inr (ground (arith, i.counted_invoking, b.few_invoking));
}
step-IsExcluding s t (Step.serve_conc r e c) i b b' =
    let p : pending t ≡ pending s = omega (arith, ap taken e, conc-exclusive r c) in
    another s t i b' p refl (subst (Held s.holder) (sym p) i.held) refl (omega arith) refl
step-IsExcluding s t (Step.invoke_plain r e c m) i b b' =
    moved s t i (omega (arith, ap taken e, plain-exclusive r m)) refl refl refl refl (inl refl)
step-IsExcluding s t (Step.invoke_mutex r e x) i b b' = record {
  counted = omega (arith, i.counted, ap taken e, mutex-exclusive r x);
  counted_invoking = i.counted_invoking;
  held = subst (Held s.holder) (omega (arith, ap taken e, mutex-exclusive r x)) i.held;
  excluded = elim i.excluded [
    | inl z ↦ absurd (omega (arith, ap busy e, mutex-exclusive r x, z))
    | inr z ↦ inr z
  ];
}
step-IsExcluding s t (Step.uncount_mutex r e h) i b b' = record {
  counted = omega (arith, i.counted, b.few_mutex, ap taken e);
  counted_invoking = i.counted_invoking;
  held = none-Held s.holder _ h;
  excluded = inl refl;
}
step-IsExcluding s t (Step.leave before after r e _) i b b' = record {
  counted = i.counted;
  counted_invoking =
      omega (arith, i.counted_invoking, b.few_invoking, ap length e, length-insert before after r);
  held = i.held;
  excluded = elim i.excluded [
    | inl z ↦ inl z
    | inr z ↦ absurd (omega (arith, ap length e, length-insert before after r, z))
  ];
}

new_broker-IsBounded : IsBounded new_broker
new_broker-IsBounded = omega arith

pub Reachable-invariant : (s : Broker) → Reachable s → IsExcluding s × IsBounded s
Reachable-invariant s Reachable.start = (
  record { counted = refl; counted_invoking = refl; held = tt; excluded = inl refl },
  new_broker-IsBounded,
)
Reachable-invariant t (Reachable.step {s = s} r k b) =
    let (i, b') = Reachable-invariant s r in (step-IsExcluding s t k i b' b, b)
