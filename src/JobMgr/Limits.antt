-- ===== src/JobMgr/Limits.antt =====
-- The bounds that every sequence of a JobMgr's operations keeps.
use pop_cpp.Base.{
  ℕ, ◌≤◌, ◌<◌, ◌≡◌, refl, sym, ap, ◌∙◌, Bool, true, false, List, [], ◌∷◌, ◌++◌, length, Option,
  none, some, Result, ok, err, ok_injective, ◌>>=◌, arith, leb, if◌then◌else◌, length-append, All,
  then_none-some,
}
use mathlib.Core.Path.{subst}
use pop_cpp.Base.Bytes.{is_positive}
use pop_cpp.Base.Floats.{Floats}
use pop_cpp.Od.{Od}
use pop_cpp.JobMgr.{Resources, Amounts, Manager}
use pop_cpp.JobMgr.Reserve.{
  matched, reserved, match_and_reserve, reserve, granted, listed, job_of, offer, Offer,
}
use pop_cpp.JobMgr.Release.{
  Stock, released, cancel_reservation, release_job, update, end_scan, application_end,
  validate_reservation,
}
use pop_cpp.JobMgr.Invariant.{
  Operation, Run, start, next, matches, reserves, cancels, releases, updates, ends, validates,
}
use pop_cpp.JobMgr.Shrink.{
  Shrinks, SameJob, Shrinks-refl, Shrinks-length, Shrinks-All, ShrinksIfOk, ShrinksIfReleased,
  validate_scan-Shrinks, cancel_scan-ShrinksIfOk, update_scan-ShrinksIfOk, end_scan-Shrinks,
  release_scan-ShrinksIfReleased,
}

module _ (f : Floats) where
  -- An operation takes jobs off the list, or adds one that was offered, without taking its amounts
  -- if the search node cannot be told.
  data Change (s : Manager) : Manager → Type 0 where
    shrunk :
        {a : Amounts} {ts : List Resources}
        → Shrinks s.jobs ts
        → Change s (record s { available = a; jobs = ts })
    grown :
        (guarded : Bool) (od : Od) (now wanted : ℕ) (o : Offer f)
        → offer f guarded od wanted s ≡ some o
        → Change s (granted f (job_of f now o s) s)
    untold :
        (od : Od) (now wanted : ℕ) (o : Offer f)
        → offer f false od wanted s ≡ some o
        → Change s (listed f (job_of f now o s) s)

  Change-matched :
      (s : Manager) (now wanted : ℕ) (od : Od) (o : Option (Offer f))
      → offer f true od wanted s ≡ o
      → Change s (matched f now wanted s o).2
  Change-matched s now wanted od none e = shrunk (Shrinks-refl s.jobs)
  Change-matched s now wanted od (some o) e = grown true od now wanted o e

  Change-reserved :
      (s : Manager) (now : ℕ) (told : Bool) (wanted : ℕ) (od : Od) (o : Option (Offer f))
      → offer f false od wanted s ≡ o
      → Change s (reserved f now told wanted s o).2
  Change-reserved s now told wanted od none e = shrunk (Shrinks-refl s.jobs)
  Change-reserved s now true wanted od (some o) e = grown false od now wanted o e
  Change-reserved s now false wanted od (some o) e = untold od now wanted o e

  Change-scan :
      (s t : Manager) (r : Result Stock)
      → ShrinksIfOk s.jobs r
      → (r >>= λ r. ok (record s { available = r.0; jobs = r.1 })) ≡ ok t
      → Change s t
  Change-scan s t (ok (a, ts)) k e = subst (Change s) (ok_injective e) (shrunk k)
  Change-scan s t (err x) k e = absurd (cc)

  Change-released :
      (s t : Manager) (b : Bool) (r : Result (Bool × Stock))
      → ShrinksIfReleased s.jobs r
      → released f s r ≡ ok (b, t)
      → Change s t
  Change-released s t b (ok (b', (a, ts))) k e =
      subst (Change s) (ap (λ p. p.1) (ok_injective e)) (shrunk k)
  Change-released s t b (err x) k e = absurd (cc)

  Change-release_job :
      (s t : Manager) (b p : Bool) (r : Result (Bool × Stock))
      → ShrinksIfReleased s.jobs r
      → (if p then released f s r else ok (false, s)) ≡ ok (b, t)
      → Change s t
  Change-release_job s t b true r k e = Change-released s t b r k e
  Change-release_job s t b false r k e =
      subst (Change s) (ap (λ p. p.1) (ok_injective e)) (shrunk (Shrinks-refl s.jobs))

  step-Change : (s t : Manager) → Operation f s t → Change s t
  unfolding match_and_reserve reserve cancel_reservation release_job update application_end
      validate_reservation
  step-Change s _ (matches now od wanted) = Change-matched s now wanted od _ refl
  step-Change s _ (reserves now told od wanted pop_app_id req_id) =
      Change-reserved s now told wanted od _ refl
  step-Change s t (cancels req e) =
      Change-scan s t _ (cancel_scan-ShrinksIfOk f req s.jobs req s.available) e
  step-Change s t (releases id b e) =
      Change-release_job s t b (is_positive id) _
        (release_scan-ShrinksIfReleased f id s.jobs s.available) e
  step-Change s t (updates now alive e) =
      Change-scan s t _ (update_scan-ShrinksIfOk f now alive s.reserve_timeout s.jobs s.available) e
  step-Change s _ (ends pop_app_id) = shrunk (end_scan-Shrinks f pop_app_id s.jobs s.available)
  step-Change s _ (validates now id objcontact appserv) =
      shrunk (validate_scan-Shrinks now id objcontact appserv s.jobs)

  -- A job as Reserve and MatchAndReserve make it.
  pub record IsListed (t : Resources) : Type 0 where
    pub positive_id : 1 ≤ t.id
    pub small_id : t.id ≤ 1000000000
    pub no_application : t.pop_app_id ≡ []
    pub no_request : t.req_id ≡ []

  pub record IsLimited (s : Manager) : Type 0 where
    pub few : length s.jobs ≤ s.maxjobs
    pub positive_counter : 1 ≤ s.counter
    pub small_counter : s.counter ≤ 1000000000
    pub listed_jobs : All IsListed s.jobs

  IsListed-SameJob : (t t' : Resources) → SameJob t t' → IsListed t → IsListed t'
  IsListed-SameJob t t' same l = record {
    positive_id = subst (λ n. 1 ≤ n) (sym same.same_id) l.positive_id;
    small_id = subst (λ n. n ≤ 1000000000) (sym same.same_id) l.small_id;
    no_application = same.same_pop_app_id ∙ l.no_application;
    no_request = same.same_req_id ∙ l.no_request;
  }

  offer-fits :
      (guarded : Bool) (od : Od) (wanted : ℕ) (s : Manager) (o : Offer f)
      → offer f guarded od wanted s ≡ some o
      → length s.jobs < s.maxjobs
  unfolding offer
  offer-fits guarded od wanted s o e =
      let r = then_none-some (leb s.maxjobs (length s.jobs)) _ o e in ground (arith, r.0)

  All-snoc :
      (ts : List Resources) (t : Resources)
      → All IsListed ts
      → IsListed t
      → All IsListed (ts ++ t ∷ [])
  All-snoc [] t a l = (l, tt)
  All-snoc (u ∷ ts) t (h, a) l = (h, All-snoc ts t a l)

  Change-IsLimited : (s t : Manager) → IsLimited s → Change s t → IsLimited t
  Change-IsLimited s _ i (shrunk {a} {ts} k) =
      let h = Shrinks-length s.jobs ts k in
      let few = i.few in
      record {
        few = omega arith;
        positive_counter = i.positive_counter;
        small_counter = i.small_counter;
        listed_jobs = Shrinks-All IsListed s.jobs ts IsListed-SameJob k i.listed_jobs;
      }
  Change-IsLimited s _ i (grown guarded od now wanted o e) =
      let fits = offer-fits guarded od wanted s o e in
      record {
        few = omega (arith, length-append s.jobs (job_of f now o s ∷ []));
        positive_counter = omega arith;
        small_counter = omega arith;
        listed_jobs = All-snoc s.jobs (job_of f now o s) i.listed_jobs (record {
          positive_id = i.positive_counter;
          small_id = i.small_counter;
          no_application = refl;
          no_request = refl;
        });
      }
  Change-IsLimited s _ i (untold od now wanted o e) =
      let fits = offer-fits false od wanted s o e in
      record {
        few = omega (arith, length-append s.jobs (job_of f now o s ∷ []));
        positive_counter = i.positive_counter;
        small_counter = i.small_counter;
        listed_jobs = All-snoc s.jobs (job_of f now o s) i.listed_jobs (record {
          positive_id = i.positive_counter;
          small_id = i.small_counter;
          no_application = refl;
          no_request = refl;
        });
      }

  -- A JobMgr that starts without jobs never has more than maxjobs of them, whether Reserve can tell
  -- the search node or not, and its jobs and its
  -- next job have ids from 1 to 1000000000.
  pub Run-IsLimited : (total : Amounts) (s : Manager) → Run f total s → IsLimited s
  Run-IsLimited total s (start none_yet all one) = record {
    few = rw none_yet (omega arith);
    positive_counter = omega (arith, one);
    small_counter = omega (arith, one);
    listed_jobs = rw none_yet tt;
  }
  Run-IsLimited total s (next {s = s'} r o) =
      Change-IsLimited s' s (Run-IsLimited total s' r) (step-Change s' s o)

  -- ApplicationEnd for jobs that carry no id of an application.
  end_scan-anonymous :
      (c : ℕ) (cs : List ℕ) (ts : List Resources) (a : Amounts)
      → All IsListed ts
      → end_scan f (c ∷ cs) ts a ≡ (a, ts)
  unfolding end_scan
  end_scan-anonymous c cs [] a l = refl
  end_scan-anonymous c cs (t ∷ ts) a (h, l) =
      rw (h.no_application, end_scan-anonymous c cs ts a l) refl

  -- The end of an application, named by an id that is not empty, gives nothing back: the id was
  -- never written to the jobs.
  pub application_end-Run :
      (total : Amounts) (s : Manager) (c : ℕ) (cs : List ℕ)
      → Run f total s
      → application_end f (c ∷ cs) s ≡ s
  unfolding application_end
  application_end-Run total s c cs r =
      rw (end_scan-anonymous c cs s.jobs s.available (Run-IsLimited total s r).listed_jobs) refl
