-- ===== src/JobMgr/Cancel.antt =====
-- What CancelReservation does with the job that a request names.
use pop_cpp.Base.{
  ℕ, ◌≡◌, refl, ap, ◌∙◌, Bool, true, false, List, [], ◌∷◌, ◌++◌, Option, none, some, Result, ok,
  err, undefined, ◌>>=◌, ◌==◌, ◌&&◌, All, arith,
}
use pop_cpp.Base.Floats.{Floats}
use pop_cpp.AccessPoint.{new_accesspoint}
use pop_cpp.Od.{Od}
use pop_cpp.JobMgr.{Resources, Amounts, Manager, is_reserved}
use pop_cpp.JobMgr.Reserve.{matched, match_and_reserve, job_of, granted, offer, Offer}
use pop_cpp.JobMgr.Release.{keep, Stock, after_match, give, cancel_scan, cancel_reservation}

-- The request names this reservation, or not.
abbrev pub is_named : ℕ → Resources → Bool
is_named id t = (t.id == id) && is_reserved t

after_match-is_named :
    (id : ℕ) (t : Resources) → is_named id t ≡ true → after_match t (id ∷ []) ≡ some []
unfolding after_match
after_match-is_named id t e = rw e refl

after_match-other :
    (id : ℕ) (t : Resources) → is_named id t ≡ false → after_match t (id ∷ []) ≡ none
unfolding after_match
after_match-other id t e = rw e refl

after_match-nil : (t : Resources) → after_match t [] ≡ none
unfolding after_match
after_match-nil t = refl

module _ (f : Floats) where
  -- The jobs in front of the named one stay.
  in_front : List Resources → Result Stock → Result Stock
  in_front [] r = r
  in_front (t ∷ ts) r = keep t (in_front ts r)

  in_front-err : (ts : List Resources) → in_front ts (err undefined) ≡ err undefined
  unfolding in_front
  in_front-err [] = refl
  in_front-err (t ∷ ts) = ap (keep t) (in_front-err ts)

  in_front-ok : (ts us : List Resources) (a : Amounts) → in_front ts (ok (a, us)) ≡ ok (a, ts ++ us)
  unfolding in_front
  in_front-ok [] us a = refl
  in_front-ok (t ∷ ts) us a = ap (keep t) (in_front-ok ts us a)

  cancel_scan-others :
      (id : ℕ) (ts us : List Resources) (a : Amounts)
      → All (λ t. is_named id t ≡ false) ts
      → cancel_scan f (id ∷ []) (ts ++ us) (id ∷ []) a
        ≡ in_front ts (cancel_scan f (id ∷ []) us (id ∷ []) a)
  unfolding cancel_scan in_front
  cancel_scan-others id [] us a l = refl
  cancel_scan-others id (t ∷ ts) us a (h, l) =
      rw (after_match-other id t h, cancel_scan-others id ts us a l) refl

  -- All the jobs stay when none is named.
  cancel_scan-none :
      (id : ℕ) (ts : List Resources) (a : Amounts)
      → All (λ t. is_named id t ≡ false) ts
      → cancel_scan f (id ∷ []) ts (id ∷ []) a ≡ ok (a, ts)
  unfolding cancel_scan
  cancel_scan-none id [] a l = refl
  cancel_scan-none id (t ∷ ts) a (h, l) =
      rw (after_match-other id t h, cancel_scan-none id ts a l) refl

  cancel_scan-inner :
      (id : ℕ) (t u : Resources) (us : List Resources) (a : Amounts)
      → is_named id t ≡ true
      → All (λ t. is_named id t ≡ false) us
      → cancel_scan f (id ∷ []) (t ∷ u ∷ us) (id ∷ []) a ≡ ok (give f t a, u ∷ us)
  unfolding cancel_scan
  cancel_scan-inner id t u us a e l =
      rw (after_match-is_named id t e, after_match-nil u, cancel_scan-none id us (give f t a) l)
        refl

  cancel_scan-last :
      (id : ℕ) (t : Resources) (a : Amounts)
      → is_named id t ≡ true
      → cancel_scan f (id ∷ []) (t ∷ []) (id ∷ []) a ≡ err undefined
  unfolding cancel_scan
  cancel_scan-last id t a e = rw (after_match-is_named id t e) refl

  abbrev put_back : Manager → Result Stock → Result Manager
  put_back s r = r >>= λ r. ok (record s { available = r.0; jobs = r.1 })

  -- A reservation that is cancelled when it is not the last of the list, and neither a job in front
  -- of it nor one further than the next behind it is a reservation of the same id, is taken off the
  -- list and its amounts are available again.
  pub cancel_reservation_inner :
      (id : ℕ) (s : Manager) (ts : List Resources) (t u : Resources) (us : List Resources)
      → s.jobs ≡ ts ++ t ∷ u ∷ us
      → All (λ t. is_named id t ≡ false) ts
      → is_named id t ≡ true
      → All (λ t. is_named id t ≡ false) us
      → cancel_reservation f (id ∷ []) s
        ≡ ok (record s { available = give f t s.available; jobs = ts ++ u ∷ us })
  unfolding cancel_reservation
  cancel_reservation_inner id s ts t u us e l n m = ap (put_back s) (
      ap (λ (js : List Resources). cancel_scan f (id ∷ []) js (id ∷ []) s.available) e
      ∙ cancel_scan-others id ts (t ∷ u ∷ us) s.available l
      ∙ ap (in_front ts) (cancel_scan-inner id t u us s.available n m)
      ∙ in_front-ok ts (u ∷ us) (give f t s.available))

  -- A reservation that is cancelled when it is the last of the list, and the only one with its id:
  -- the code goes on to read behind the end of the list.
  pub cancel_reservation_last :
      (id : ℕ) (s : Manager) (ts : List Resources) (t : Resources)
      → s.jobs ≡ ts ++ t ∷ []
      → All (λ t. is_named id t ≡ false) ts
      → is_named id t ≡ true
      → cancel_reservation f (id ∷ []) s ≡ err undefined
  unfolding cancel_reservation
  cancel_reservation_last id s ts t e l n = ap (put_back s) (
      ap (λ (js : List Resources). cancel_scan f (id ∷ []) js (id ∷ []) s.available) e
      ∙ cancel_scan-others id ts (t ∷ []) s.available l
      ∙ ap (in_front ts) (cancel_scan-last id t s.available n)
      ∙ in_front-err ts)

  new-is_named :
      (id : ℕ) (t : Resources) → t.id ≡ id → t.contact ≡ new_accesspoint → is_named id t ≡ true
  unfolding new_accesspoint
  new-is_named id t e c = rw (c, e) (ground arith)

  cancel-matched :
      (now wanted : ℕ) (s : Manager) (o : Option (Offer f)) (p : Offer f)
      → o ≡ some p
      → All (λ t. is_named s.counter t ≡ false) s.jobs
      → cancel_reservation f (s.counter ∷ []) (matched f now wanted s o).2 ≡ err undefined
  cancel-matched now wanted s none p e l = absurd (cc)
  cancel-matched now wanted s (some o) p e l =
      cancel_reservation_last s.counter (granted f (job_of f now o s) s) s.jobs (job_of f now o s)
        refl l (new-is_named s.counter (job_of f now o s) refl refl)

  -- CancelReservation of what MatchAndReserve has just set aside, under an id that no other
  -- reservation has, reads behind the end of the list of jobs.
  pub cancel_reservation-match_and_reserve :
      (now wanted : ℕ) (od : Od) (s : Manager) (o : Offer f)
      → offer f true od wanted s ≡ some o
      → All (λ t. is_named s.counter t ≡ false) s.jobs
      → cancel_reservation f (s.counter ∷ []) (match_and_reserve f now od wanted s).2
        ≡ err undefined
  unfolding match_and_reserve
  cancel_reservation-match_and_reserve now wanted od s o e l =
      cancel-matched now wanted s (offer f true od wanted s) o e l
