-- ===== src/Broker/Threads/Counting.antt =====
-- How the steps of a broker change the number of requests of each kind.
use pop_cpp.Base.{
  ℕ, ◌+◌, ◌≡◌, refl, sym, ap, ◌∙◌, true, List, [], ◌∷◌, ◌++◌, length, some, ◌⊎◌, inl, inr, arith,
  Bool-cases,
}
use pop_cpp.Broker.{Request, is_conc, is_mutex, is_sync, keep_connection, take_request}
use pop_cpp.Broker.Order.{take_request-split}
use pop_cpp.Broker.Threads.{exclusive, exclusives}

pub exclusives-insert :
    (before after : List Request) (r : Request)
    → exclusives (before ++ r ∷ after)
      ≡ exclusive (is_conc r) (is_mutex r) + exclusives (before ++ after)
exclusives-insert [] after r = refl
exclusives-insert (x ∷ before) after r = omega (arith, exclusives-insert before after r)

pub exclusives-snoc :
    (rs : List Request) (r : Request)
    → exclusives (rs ++ r ∷ []) ≡ exclusive (is_conc r) (is_mutex r) + exclusives rs
exclusives-snoc [] r = omega arith
exclusives-snoc (x ∷ rs) r = omega (arith, exclusives-snoc rs r)

pub length-insert {ℓ} :
    {A : Type ℓ} (before after : List A) (r : A)
    → length (before ++ r ∷ after) ≡ 1 + length (before ++ after)
length-insert [] after r = omega arith
length-insert (x ∷ before) after r = omega (arith, length-insert before after r)

-- The kind of a request does not depend on its connection.
pub is_conc-keep : (r : Request) → is_conc (keep_connection r) ≡ is_conc r
unfolding keep_connection is_conc
is_conc-keep r = elim (Bool-cases (is_sync r)) [ inl e ↦ rw e refl | inr e ↦ rw e refl ]

pub is_mutex-keep : (r : Request) → is_mutex (keep_connection r) ≡ is_mutex r
unfolding keep_connection is_mutex
is_mutex-keep r = elim (Bool-cases (is_sync r)) [ inl e ↦ rw e refl | inr e ↦ rw e refl ]

-- GetRequest takes the request out of the queue, and nothing else.
pub exclusives-take :
    (pendings : ℕ) (fifo : List Request) (q : Request) (rest : List Request) (pendings' : ℕ)
    → take_request pendings fifo ≡ some (q, rest, pendings')
    → exclusives fifo ≡ exclusive (is_conc q) (is_mutex q) + exclusives rest
exclusives-take pendings fifo q rest pendings' e =
    let (before, after, left, split, _) = take_request-split pendings fifo q rest pendings' e in
    ap exclusives split
    ∙ exclusives-insert before after q
    ∙ ap (λ rs. exclusive (is_conc q) (is_mutex q) + exclusives rs) (sym left)

-- `concPendings` is counted down for a concurrent request only.
pub counted-take :
    (pendings : ℕ) (fifo : List Request) (q : Request) (rest : List Request) (pendings' : ℕ)
    → take_request pendings fifo ≡ some (q, rest, pendings')
    → (pendings' ≡ pendings) ⊎ ((pendings' + 1 ≡ pendings) × (is_conc q ≡ true))
counted-take pendings fifo q rest pendings' e =
    let (before, after, left, split, down) = take_request-split pendings fifo q rest pendings' e in
    down
