-- ===== src/JobMgr/Invariant.antt =====
-- What holds of a JobMgr through every sequence of its operations.
use pop_cpp.Base.{
  ℕ, suc, ◌≡◌, sym, ap, Bool, true, false, List, [], Option, none, some, Result, ok, err,
  ok_injective, ◌>>=◌, if◌then◌else◌,
}
use mathlib.Core.Path.{subst}
use pop_cpp.Base.Bytes.{is_positive}
use pop_cpp.Base.Floats.{Floats}
use pop_cpp.AccessPoint.{AccessPoint}
use pop_cpp.Od.{Od}
use pop_cpp.JobMgr.{Amounts, Manager}
use pop_cpp.JobMgr.Reserve.{
  matched, reserved, match_and_reserve, reserve, granted, listed, job_of, offer, Offer,
}
use pop_cpp.JobMgr.Release.{
  Stock, released, cancel_reservation, release_job, update, application_end, validate_reservation,
}
use pop_cpp.JobMgr.Account.{
  share, held, held-snoc, minus, Ledger, opened, takes, leaks, settles, KeepsIfOk, KeepsIfReleased,
  cancel_scan-KeepsIfOk, update_scan-KeepsIfOk, end_scan-Keeps, release_scan-KeepsIfReleased,
  validate_scan-held,
}

module _ (f : Floats) where
  -- An operation that returns, with what it is given; for Reserve, whether the search node could be
  -- told is one of the arguments.
  pub data Operation : Manager → Manager → Type 0 where
    matches :
        {s : Manager} (now : ℕ) (od : Od) (wanted : ℕ)
        → Operation s (match_and_reserve f now od wanted s).2
    reserves :
        {s : Manager} (now : ℕ) (told : Bool) (od : Od) (wanted : ℕ) (pop_app_id req_id : List ℕ)
        → Operation s (reserve f now told od wanted pop_app_id req_id s).2
    cancels : {s t : Manager} (req : List ℕ) → cancel_reservation f req s ≡ ok t → Operation s t
    releases : {s t : Manager} (id : ℕ) (b : Bool) → release_job f id s ≡ ok (b, t) → Operation s t
    updates :
        {s t : Manager} (now : ℕ) (alive : AccessPoint → Bool)
        → update f now alive s ≡ ok t
        → Operation s t
    ends : {s : Manager} (pop_app_id : List ℕ) → Operation s (application_end f pop_app_id s)
    validates :
        {s : Manager} (now id : ℕ) (objcontact appserv : AccessPoint)
        → Operation s (validate_reservation now id objcontact appserv s).1

  pub data Run (total : Amounts) : Manager → Type 0 where
    start : {s : Manager} → s.jobs ≡ [] → s.available ≡ total → s.counter ≡ 1 → Run total s
    next : {s t : Manager} → Run total s → Operation s t → Run total t

  -- How many jobs have been listed by a Reserve that could not tell the search node.
  abbrev pub leaked : Bool → Option (Offer f) → ℕ → ℕ
  leaked told none n = n
  leaked true (some o) n = n
  leaked false (some o) n = suc n

  abbrev pub leaked_by : {s t : Manager} → Operation s t → ℕ → ℕ
  leaked_by (reserves {s} now told od wanted pop_app_id req_id) n =
      leaked told (offer f false od wanted s) n
  leaked_by _ n = n

  abbrev pub untold : {total : Amounts} {s : Manager} → Run total s → ℕ
  untold (start none_yet all one) = 0
  untold (next r o) = leaked_by o (untold r)

  abbrev pub IsAccounted : Amounts → ℕ → Manager → Type 0
  IsAccounted total n s = Ledger f total n s.available (held s.jobs)

  IsAccounted-ok :
      (total : Amounts) (n : ℕ) (s t : Manager) (r : Result Stock)
      → IsAccounted total n s
      → KeepsIfOk f s.available s.jobs r
      → (r >>= λ r. ok (record s { available = r.0; jobs = r.1 })) ≡ ok t
      → IsAccounted total n t
  IsAccounted-ok total n s t (ok stock) i k e =
      subst (IsAccounted total n) (ok_injective e) (settles i k)
  IsAccounted-ok total n s t (err x) i k e = absurd (cc)

  IsAccounted-released :
      (total : Amounts) (n : ℕ) (s t : Manager) (b : Bool) (r : Result (Bool × Stock))
      → IsAccounted total n s
      → KeepsIfReleased f s.available s.jobs r
      → released f s r ≡ ok (b, t)
      → IsAccounted total n t
  IsAccounted-released total n s t b (ok (b', (a, ts))) i k e =
      subst (IsAccounted total n) (ap (λ p. p.1) (ok_injective e)) (settles i k)
  IsAccounted-released total n s t b (err x) i k e = absurd (cc)

  IsAccounted-release_job :
      (total : Amounts) (n : ℕ) (s t : Manager) (b p : Bool) (r : Result (Bool × Stock))
      → IsAccounted total n s
      → KeepsIfReleased f s.available s.jobs r
      → (if p then released f s r else ok (false, s)) ≡ ok (b, t)
      → IsAccounted total n t
  IsAccounted-release_job total n s t b true r i k e = IsAccounted-released total n s t b r i k e
  IsAccounted-release_job total n s t b false r i k e =
      subst (IsAccounted total n) (ap (λ p. p.1) (ok_injective e)) i

  IsAccounted-granted :
      (total : Amounts) (n : ℕ) (s : Manager) (now : ℕ) (o : Offer f)
      → IsAccounted total n s
      → IsAccounted total n (granted f (job_of f now o s) s)
  IsAccounted-granted total n s now o i =
      subst (Ledger f total n (minus f s.available (share (job_of f now o s))))
        (sym (held-snoc s.jobs (job_of f now o s))) (takes (share (job_of f now o s)) i)

  IsAccounted-listed :
      (total : Amounts) (n : ℕ) (s : Manager) (now : ℕ) (o : Offer f)
      → IsAccounted total n s
      → IsAccounted total (suc n) (listed f (job_of f now o s) s)
  IsAccounted-listed total n s now o i =
      subst (Ledger f total (suc n) s.available) (sym (held-snoc s.jobs (job_of f now o s)))
        (leaks (share (job_of f now o s)) i)

  IsAccounted-matched :
      (total : Amounts) (n : ℕ) (s : Manager) (now wanted : ℕ) (o : Option (Offer f))
      → IsAccounted total n s
      → IsAccounted total n (matched f now wanted s o).2
  IsAccounted-matched total n s now wanted none i = i
  IsAccounted-matched total n s now wanted (some o) i = IsAccounted-granted total n s now o i

  IsAccounted-reserved :
      (total : Amounts) (n : ℕ) (s : Manager) (now : ℕ) (told : Bool) (wanted : ℕ)
      (o : Option (Offer f))
      → IsAccounted total n s
      → IsAccounted total (leaked told o n) (reserved f now told wanted s o).2
  IsAccounted-reserved total n s now told wanted none i = i
  IsAccounted-reserved total n s now true wanted (some o) i = IsAccounted-granted total n s now o i
  IsAccounted-reserved total n s now false wanted (some o) i = IsAccounted-listed total n s now o i

  step-IsAccounted :
      (total : Amounts) (n : ℕ) (s t : Manager)
      → IsAccounted total n s
      → (op : Operation s t) → IsAccounted total (leaked_by op n) t
  unfolding match_and_reserve reserve cancel_reservation release_job update application_end
      validate_reservation
  step-IsAccounted total n s _ i (matches now od wanted) =
      IsAccounted-matched total n s now wanted _ i
  step-IsAccounted total n s _ i (reserves now told od wanted pop_app_id req_id) =
      IsAccounted-reserved total n s now told wanted _ i
  step-IsAccounted total n s t i (cancels req e) =
      IsAccounted-ok total n s t _ i (cancel_scan-KeepsIfOk f req s.jobs req s.available) e
  step-IsAccounted total n s t i (releases id b e) =
      IsAccounted-release_job total n s t b (is_positive id) _ i
        (release_scan-KeepsIfReleased f id s.jobs s.available) e
  step-IsAccounted total n s t i (updates now alive e) =
      IsAccounted-ok total n s t _ i
        (update_scan-KeepsIfOk f now alive s.reserve_timeout s.jobs s.available) e
  step-IsAccounted total n s _ i (ends pop_app_id) =
      settles i (end_scan-Keeps f pop_app_id s.jobs s.available)
  step-IsAccounted total n s _ i (validates now id objcontact appserv) =
      subst (Ledger f total n s.available)
        (sym (validate_scan-held now id objcontact appserv s.jobs)) i

  -- A JobMgr that starts without jobs keeps a ledger through every sequence of its operations that
  -- return: what its jobs hold has been subtracted from what is available when they were listed,
  -- and is added back when they leave the list, float by float. Only a Reserve that cannot tell the
  -- search node lists a job without subtracting, and the ledger has leaked as often as that.
  pub Run-IsAccounted :
      (total : Amounts) (s : Manager) → (r : Run total s) → IsAccounted total (untold r) s
  Run-IsAccounted total s (start none_yet all one) =
      subst (λ a. Ledger f total 0 a (held s.jobs)) (sym all)
        (subst (λ ts. Ledger f total 0 total (held ts)) (sym none_yet) opened)
  Run-IsAccounted total s (next r o) =
      step-IsAccounted total (untold r) _ s (Run-IsAccounted total _ r) o
