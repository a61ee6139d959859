-- ===== src/JobMgr/Release.antt =====
-- How a JobMgr gives resources back: CancelReservation, ReleaseJob, Update and ApplicationEnd
-- (services/lib/jobmgr.cc). The list of jobs is a std::vector, so an iterator or a reference is a
-- position: once an entry has been erased, it stands for the entry that has moved there, and behind
-- the last entry the code reads what is no longer an object.
use pop_cpp.Base.{
  ℕ, ◌+◌, Bool, true, false, not, List, [], ◌∷◌, Option, none, some, Result, ok, err, undefined,
  ◌>>=◌, ◌==◌, ltb, ◌&&◌, if◌then◌else◌,
}
use pop_cpp.Base.Bytes.{is_positive}
use pop_cpp.Base.Floats.{Floats}
use pop_cpp.AccessPoint.{AccessPoint, equal_text}
use pop_cpp.JobMgr.{Resources, Amounts, Manager, is_reserved}

-- The call that tells the search node, with a reference to the entry that has just been erased:
-- nothing can be read when this was the last.
abbrev pub report {ℓ} : {A : Type ℓ} → List Resources → Result A → Result A
report [] r = err undefined
report (t ∷ ts) r = r

-- The amounts and the list of jobs.
abbrev pub Stock : Type 0
Stock = Amounts × List Resources

abbrev pub keep : Resources → Result Stock → Result Stock
keep t r = r >>= λ s. ok (s.0, t ∷ s.1)

-- The requests behind the first that names this reservation.
unfoldable pub after_match : Resources → List ℕ → Option (List ℕ)
after_match t [] = none
after_match t (i ∷ is) =
    let later = after_match t is in if (t.id == i) && is_reserved t then some is else later

abbrev pub compared : Option (List ℕ) → Result Stock → (List ℕ → Result Stock) → Result Stock
compared none kept gone = kept
compared (some left) kept gone = gone left

-- Update, for one entry: whether the entry goes, and what it becomes.
abbrev pub is_over : ℕ → (AccessPoint → Bool) → ℕ → Resources → Bool
is_over now alive timeout t =
    if is_reserved t
    then is_positive timeout && ltb (t.start + timeout) now
    else ltb (t.start + 5) now && not (alive t.contact)

abbrev pub refreshed : ℕ → Resources → Resources
refreshed now t =
    if not (is_reserved t) && ltb (t.start + 5) now then record t { start = now } else t

module _ (f : Floats) where
  -- `available.flops += t.flops; ...`
  abbrev pub give : Resources → Amounts → Amounts
  give t a = record {
    flops = f.add a.flops t.flops;
    mem = f.add a.mem t.mem;
    bandwidth = f.add a.bandwidth t.bandwidth;
  }

  -- CancelReservation: for the entry at a position, the requests that are still to be compared.
  -- After an erasure the next entry is compared with the rest of the requests only.
  unfoldable pub cancel_scan : List ℕ → List Resources → List ℕ → Amounts → Result Stock
  cancel_scan req [] left a = ok (a, [])
  cancel_scan req (t ∷ rest) left a =
      let kept = cancel_scan req rest req a in
      let gone = cancel_scan req rest in
      compared (after_match t left) (keep t kept) (λ left'. report rest (gone left' (give t a)))

  unfoldable pub cancel_reservation : List ℕ → Manager → Result Manager
  cancel_reservation req s =
      cancel_scan req s.jobs req s.available >>= λ r. ok (record s { available = r.0; jobs = r.1 })

  -- ReleaseJob: the first entry of this id with an object.
  unfoldable pub release_scan : ℕ → List Resources → Amounts → Result (Bool × Stock)
  release_scan id [] a = ok (false, (a, []))
  release_scan id (t ∷ rest) a =
      let later = release_scan id rest a in
      if (t.id == id) && not (is_reserved t)
      then report rest (ok (true, (give t a, rest)))
      else (later >>= λ r. ok (r.0, (r.1.0, t ∷ r.1.1)))

  abbrev pub released : Manager → Result (Bool × Stock) → Result (Bool × Manager)
  released s (ok (b, (a, ts))) = ok (b, record s { available = a; jobs = ts })
  released s (err e) = err e

  unfoldable pub release_job : ℕ → Manager → Result (Bool × Manager)
  release_job id s =
      if is_positive id then released s (release_scan id s.jobs s.available) else ok (false, s)

  -- Update, with what ObjectAlive says.
  unfoldable pub update_scan :
      ℕ → (AccessPoint → Bool) → ℕ → List Resources → Amounts → Result Stock
  update_scan now alive timeout [] a = ok (a, [])
  update_scan now alive timeout (t ∷ rest) a =
      let kept = update_scan now alive timeout rest a in
      let gone = update_scan now alive timeout rest (give t a) in
      if is_over now alive timeout t then report rest gone else keep (refreshed now t) kept

  unfoldable pub update : ℕ → (AccessPoint → Bool) → Manager → Result Manager
  update now alive s = update_scan now alive s.reserve_timeout s.jobs s.available >>= λ r.
      ok (record s { available = r.0; jobs = r.1 })

  -- ApplicationEnd, for the jobs.
  unfoldable pub end_scan : List ℕ → List Resources → Amounts → Stock
  end_scan pop_app_id [] a = (a, [])
  end_scan pop_app_id (t ∷ rest) a =
      let kept = end_scan pop_app_id rest a in
      let gone = end_scan pop_app_id rest (give t a) in
      if equal_text t.pop_app_id pop_app_id then gone else (kept.0, t ∷ kept.1)

  unfoldable pub application_end : List ℕ → Manager → Manager
  application_end pop_app_id s =
      let r = end_scan pop_app_id s.jobs s.available in record s { available = r.0; jobs = r.1 }

-- ValidateReservation
unfoldable pub validate_scan :
    ℕ → ℕ → AccessPoint → AccessPoint → List Resources → Bool × List Resources
validate_scan now id objcontact appserv [] = (false, [])
validate_scan now id objcontact appserv (t ∷ rest) =
    let later = validate_scan now id objcontact appserv rest in
    if t.id == id
    then (true, record t { contact = objcontact; appservice = appserv; start = now } ∷ rest)
    else (later.0, t ∷ later.1)

unfoldable pub validate_reservation : ℕ → ℕ → AccessPoint → AccessPoint → Manager → Bool × Manager
validate_reservation now id objcontact appserv s =
    let r = validate_scan now id objcontact appserv s.jobs in (r.0, record s { jobs = r.1 })

-- VerifyReservation(id, true): the entry, if there is one, with a new start.
unfoldable pub verify_scan : ℕ → ℕ → List Resources → Option Resources × List Resources
verify_scan now id [] = (none, [])
verify_scan now id (t ∷ rest) =
    let later = verify_scan now id rest in
    let again : Resources = record t { start = now } in
    if t.id == id then (some again, again ∷ rest) else (later.0, t ∷ later.1)

-- The loop of ExecObj: the ids of the application and of the request that the last reservation has.
-- The pointer is used before it is compared with null.
unfoldable pub verify_all :
    ℕ → List ℕ → List ℕ × List ℕ → List Resources → Result ((List ℕ × List ℕ) × List Resources)
verify_all now [] ids jobs = ok (ids, jobs)
verify_all now (i ∷ is) ids jobs =
    let next = verify_all now is in
    let r = verify_scan now i jobs in
    elim r.0 [ none ↦ err undefined | some t ↦ next (t.pop_app_id, t.req_id) r.1 ]
