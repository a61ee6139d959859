-- ===== src/Broker/Threads/Exclusion.antt =====
-- A mutex method never runs beside a concurrent one.
use pop_cpp.Base.{
  ℕ, ◌<◌, ◌≡◌, refl, ap, ◌∙◌, Bool, true, false, List, [], ◌∷◌, length, Option, none, some, ◌⊎◌,
  inl, inr, arith,
}
use pop_cpp.Broker.{Request}
use pop_cpp.Broker.Threads.{Broker, Holder, Server, IsExclusive, Reachable, pending}
use pop_cpp.Broker.Threads.Invariant.{busy, Held, mutex-exclusive, busy-le, Reachable-invariant}

length-zero {ℓ} : {A : Type ℓ} (xs : List A) → length xs ≡ 0 → xs ≡ []
length-zero [] h = refl
length-zero (x ∷ xs) h = absurd (omega (arith, h))

-- A receiving thread is about to start a concurrent invocation.
abbrev pub is_admitted : Option Holder → Bool
is_admitted (some (Holder.admitted r)) = true
is_admitted _ = false

not_admitting : (h : Option Holder) (n : ℕ) → Held h n → 0 < n → is_admitted h ≡ false
not_admitting none n k z = refl
not_admitting (some (Holder.admitted r)) n k z = absurd (omega (arith, k.1))
not_admitting (some (Holder.refused r)) n k z = refl
not_admitting (some Holder.queued) n k z = refl
not_admitting (some (Holder.counting m)) n k z = refl

-- While a broker runs with fewer than 2 ^ 31 requests of each kind at a time, a mutex method and a
-- concurrent method never run at once: from when Run has begun to serve a mutex request until it
-- has counted it down, no thread invokes a concurrent method, and no receiving thread is about to
-- start one.
pub mutex_exclusion :
    (s : Broker) (r : Request)
    → Reachable s
    → IsExclusive r
    → (s.server ≡ Server.serving r) ⊎ (s.server ≡ Server.invoked r)
    → (s.invoking ≡ []) × (is_admitted s.holder ≡ false)
mutex_exclusion s r reach x now =
    let (i, _) = Reachable-invariant s reach in
    let full : busy s.server ≡ 1 = elim now [
      | inl e ↦ ap busy e ∙ mutex-exclusive r x
      | inr e ↦ ap busy e
    ] in
    (
      elim i.excluded [
        | inl z ↦ absurd (omega (arith, full, z))
        | inr z ↦ length-zero s.invoking z
      ],
      not_admitting s.holder (pending s) i.held (omega (arith, full, busy-le s.server)),
    )

-- The counters of such a broker are right: `mutexCount` is the number of mutex requests that have
-- been registered and not yet served, and `instanceCount` that of the concurrent invocations.
pub counters_lem :
    (s : Broker)
    → Reachable s
    → (s.mutex_count ≡ pending s) × (s.instance_count ≡ length s.invoking)
counters_lem s reach = let (i, b) = Reachable-invariant s reach in (i.counted, i.counted_invoking)
