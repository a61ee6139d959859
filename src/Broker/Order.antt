-- ===== src/Broker/Order.antt =====
-- The order in which GetRequest takes requests out of the queue (lib/core/broker_serve.cc).
use pop_cpp.Base.{
  ℕ, ◌-◌, ◌+◌, ◌<◌, ◌≡◌, refl, ap, true, false, List, [], ◌∷◌, ◌++◌, none, some, All, Bool-cases,
  ◌⊎◌, inl, inr, ◌==◌, arith,
}
use pop_cpp.Broker.{Request, is_conc, is_mutex, take_conc, take_request}

-- A request that has to wait until those before it have been taken, but may be overtaken.
abbrev pub IsPlain : Request → Type 0
IsPlain r = (is_conc r ≡ false) × (is_mutex r ≡ false)

-- `q` was the first of the queue, or it is concurrent and those before it are neither concurrent
-- nor mutex requests.
abbrev pub MayOvertake : Request → List Request → Type 0
MayOvertake q before = (before ≡ []) ⊎ ((is_conc q ≡ true) × All IsPlain before)

-- What the loop finds, where there is something to find.
pub take_conc-overtaking :
    (q : Request) (before after : List Request)
    → is_conc q ≡ true
    → All IsPlain before
    → take_conc (before ++ q ∷ after) ≡ some (q, before ++ after)
unfolding take_conc
take_conc-overtaking q [] after c plain = rw c refl
take_conc-overtaking q (r ∷ before) after c plain =
    rw (plain.0.0, plain.0.1, take_conc-overtaking q before after c plain.1) refl

-- What it has found.
abbrev pub Found : List Request → Type 0
Found rs =
    (q : Request) × (before : List Request) × (after : List Request) × (take_conc rs
      ≡ some (q, before ++ after))
    × (rs ≡ before ++ q ∷ after)
    × (is_conc q ≡ true)
    × All IsPlain before

pub take_conc-cases : (rs : List Request) → (take_conc rs ≡ none) ⊎ Found rs
unfolding take_conc
take_conc-cases [] = inl refl
take_conc-cases (r ∷ rs) = elim (Bool-cases (is_conc r)) [
  | inl c ↦ inr (r, [], rs, rw c refl, refl, c, tt)
  | inr c ↦ elim (Bool-cases (is_mutex r)) [
    | inl m ↦ inl (rw (c, m) refl)
    | inr m ↦ elim (take_conc-cases rs) [
      | inl e ↦ inl (rw (c, m, e) refl)
      | inr (q, before, after, e, split, k, plain) ↦
          inr (q, r ∷ before, after, rw (c, m, e) refl, ap (◌∷◌ r) split, k, ((c, m), plain))
    ]
  ]
]

-- GetRequest takes one request out of a queue that is not empty and leaves the others in their
-- order. A request is taken before others only if it is concurrent and those are neither
-- concurrent nor mutex requests; only then is `concPendings` counted down.
pub take_request-order :
    (pendings : ℕ) (r : Request) (rs : List Request)
    → (q : Request) × (before : List Request) × (after : List Request) × (pendings' : ℕ)
      × (take_request pendings (r ∷ rs) ≡ some (q, before ++ after, pendings'))
      × (r ∷ rs ≡ before ++ q ∷ after)
      × MayOvertake q before
      × ((pendings' ≡ pendings) ⊎ ((pendings' + 1 ≡ pendings) × (is_conc q ≡ true)))
unfolding take_request
take_request-order pendings r rs = elim (Bool-cases (pendings == 0)) [
  | inl z ↦ (r, [], rs, pendings, rw z refl, refl, inl refl, inl refl)
  | inr z ↦ elim (take_conc-cases (r ∷ rs)) [
    | inl e ↦ (r, [], rs, pendings, rw (z, e) refl, refl, inl refl, inl refl)
    | inr (q, before, after, e, split, k, plain) ↦ (
      q,
      before,
      after,
      pendings - 1,
      rw (z, e) refl,
      split,
      inr (k, plain),
      inr (ground arith, k),
    )
  ]
]

-- What a successful GetRequest says of the queue.
pub take_request-split :
    (pendings : ℕ) (fifo : List Request) (q : Request) (rest : List Request) (pendings' : ℕ)
    → take_request pendings fifo ≡ some (q, rest, pendings')
    → (before : List Request) × (after : List Request) × (rest ≡ before ++ after)
      × (fifo ≡ before ++ q ∷ after)
      × ((pendings' ≡ pendings) ⊎ ((pendings' + 1 ≡ pendings) × (is_conc q ≡ true)))
take_request-split pendings [] q rest pendings' e = absurd (unfold take_request in cc)
take_request-split pendings (r ∷ rs) q rest pendings' e =
    let (q', before, after, p, e', split, _, down) = take_request-order pendings r rs in
    let same : q' ≡ q = cc in
    let same' : p ≡ pendings' = cc in
    (before, after, cc, rw same at split, rw (same, same') at down)

positive-test : (n : ℕ) → 0 < n → (n == 0) ≡ false
positive-test n h = ground arith

-- While concurrent requests are counted, the first that may overtake is taken.
pub take_request-overtaking :
    (pendings : ℕ) (q : Request) (before after : List Request)
    → is_conc q ≡ true
    → All IsPlain before
    → 0 < pendings
    → take_request pendings (before ++ q ∷ after) ≡ some (q, before ++ after, pendings - 1)
unfolding take_request
take_request-overtaking pendings q [] after c plain z =
    rw (positive-test pendings z, take_conc-overtaking q [] after c plain) refl
take_request-overtaking pendings q (r ∷ before) after c plain z =
    rw (positive-test pendings z, take_conc-overtaking q (r ∷ before) after c plain) refl
