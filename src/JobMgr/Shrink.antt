-- ===== src/JobMgr/Shrink.antt =====
-- What the operations that give resources back do to the list of jobs: they take entries off it,
-- and change no amount, id or application of those that stay.
use pop_cpp.Base.{
  ℕ, ◌+◌, ◌≤◌, ◌≡◌, refl, Bool, true, not, Bool-cases, Option-cases, inl, inr, List, [], ◌∷◌,
  length, Result, ok, err, ◌>>=◌, ltb, ◌&&◌, ◌==◌, All, arith,
}
use pop_cpp.Base.Floats.{Floats}
use pop_cpp.AccessPoint.{AccessPoint, equal_text}
use pop_cpp.JobMgr.{Resources, Amounts, is_reserved}
use pop_cpp.JobMgr.Release.{
  report, keep, Stock, after_match, give, cancel_scan, release_scan, update_scan, is_over,
  refreshed, end_scan, validate_scan,
}

-- The same reservation, perhaps with another object or start.
pub record SameJob (t t' : Resources) : Type 0 where
  pub same_id : t'.id ≡ t.id
  pub same_pop_app_id : t'.pop_app_id ≡ t.pop_app_id
  pub same_req_id : t'.req_id ≡ t.req_id

abbrev pub SameJob-refl : (t : Resources) → SameJob t t
SameJob-refl t = record { same_id = refl; same_pop_app_id = refl; same_req_id = refl }

pub data Shrinks : List Resources → List Resources → Type 0 where
  done : Shrinks [] []
  drop : {t : Resources} {ts us : List Resources} → Shrinks ts us → Shrinks (t ∷ ts) us
  stay :
      {t t' : Resources} {ts us : List Resources}
      → SameJob t t'
      → Shrinks ts us
      → Shrinks (t ∷ ts) (t' ∷ us)

pub Shrinks-refl : (ts : List Resources) → Shrinks ts ts
Shrinks-refl [] = done
Shrinks-refl (t ∷ ts) = stay (SameJob-refl t) (Shrinks-refl ts)

pub Shrinks-length : (ts us : List Resources) → Shrinks ts us → length us ≤ length ts
Shrinks-length _ _ done = omega arith
Shrinks-length _ _ (drop {t} {ts} {us} s) = let h = Shrinks-length ts us s in omega arith
Shrinks-length _ _ (stay {t} {t'} {ts} {us} same s) = let h = Shrinks-length ts us s in omega arith

-- What holds of every job of a list, and is the same for the same job, holds after that too.
pub Shrinks-All :
    (p : Resources → Type 0) (ts us : List Resources)
    → ((t t' : Resources) → SameJob t t' → p t → p t')
    → Shrinks ts us
    → All p ts
    → All p us
Shrinks-All p _ _ move done a = a
Shrinks-All p _ _ move (drop s) (h, a) = Shrinks-All p _ _ move s a
Shrinks-All p _ _ move (stay same s) (h, a) = (move _ _ same h, Shrinks-All p _ _ move s a)

abbrev pub ShrinksIfOk : List Resources → Result Stock → Type 0
ShrinksIfOk ts (ok (a, us)) = Shrinks ts us
ShrinksIfOk ts (err e) = Unit

ShrinksIfOk-report :
    (t : Resources) (ts : List Resources) (r : Result Stock)
    → ShrinksIfOk ts r
    → ShrinksIfOk (t ∷ ts) (report ts r)
ShrinksIfOk-report t [] r k = tt
ShrinksIfOk-report t (u ∷ ts) (ok s) k = drop k
ShrinksIfOk-report t (u ∷ ts) (err e) k = tt

ShrinksIfOk-keep :
    (t t' : Resources) (ts : List Resources) (r : Result Stock)
    → SameJob t t'
    → ShrinksIfOk ts r
    → ShrinksIfOk (t ∷ ts) (keep t' r)
ShrinksIfOk-keep t t' ts (ok s) same k = stay same k
ShrinksIfOk-keep t t' ts (err e) same k = tt

abbrev pub ShrinksIfReleased : List Resources → Result (Bool × Stock) → Type 0
ShrinksIfReleased ts (ok (b, (a, us))) = Shrinks ts us
ShrinksIfReleased ts (err e) = Unit

ShrinksIfReleased-report :
    (t : Resources) (a : Amounts) (ts : List Resources)
    → ShrinksIfReleased (t ∷ ts) (report ts (ok (true, (a, ts))))
ShrinksIfReleased-report t a [] = tt
ShrinksIfReleased-report t a (u ∷ ts) = drop (Shrinks-refl (u ∷ ts))

ShrinksIfReleased-keep :
    (t : Resources) (ts : List Resources) (r : Result (Bool × Stock))
    → ShrinksIfReleased ts r
    → ShrinksIfReleased (t ∷ ts) (r >>= λ r. ok (r.0, (r.1.0, t ∷ r.1.1)))
ShrinksIfReleased-keep t ts (ok r) k = stay (SameJob-refl t) k
ShrinksIfReleased-keep t ts (err x) k = tt

refreshed-SameJob : (now : ℕ) (t : Resources) → SameJob t (refreshed now t)
refreshed-SameJob now t = elim (Bool-cases (not (is_reserved t) && ltb (t.start + 5) now)) [
  | inl e ↦ rw e (record { same_id = refl; same_pop_app_id = refl; same_req_id = refl })
  | inr e ↦ rw e (SameJob-refl t)
]

pub validate_scan-Shrinks :
    (now id : ℕ) (objcontact appserv : AccessPoint) (ts : List Resources)
    → Shrinks ts (validate_scan now id objcontact appserv ts).1
unfolding validate_scan
validate_scan-Shrinks now id objcontact appserv [] = done
validate_scan-Shrinks now id objcontact appserv (t ∷ ts) = elim (Bool-cases (t.id == id)) [
  | inl e ↦ rw e (
      stay (record { same_id = refl; same_pop_app_id = refl; same_req_id = refl })
        (Shrinks-refl ts))
  | inr e ↦ rw e (stay (SameJob-refl t) (validate_scan-Shrinks now id objcontact appserv ts))
]

module _ (f : Floats) where
  pub cancel_scan-ShrinksIfOk :
      (req : List ℕ) (ts : List Resources) (left : List ℕ) (a : Amounts)
      → ShrinksIfOk ts (cancel_scan f req ts left a)
  unfolding cancel_scan
  cancel_scan-ShrinksIfOk req [] left a = done
  cancel_scan-ShrinksIfOk req (t ∷ ts) left a = elim (Option-cases (after_match t left)) [
    | inl e ↦
        rw e (ShrinksIfOk-keep t t ts _ (SameJob-refl t) (cancel_scan-ShrinksIfOk req ts req a))
    | inr (left', e) ↦
        rw e (ShrinksIfOk-report t ts _ (cancel_scan-ShrinksIfOk req ts left' (give f t a)))
  ]

  pub update_scan-ShrinksIfOk :
      (now : ℕ) (alive : AccessPoint → Bool) (timeout : ℕ) (ts : List Resources) (a : Amounts)
      → ShrinksIfOk ts (update_scan f now alive timeout ts a)
  unfolding update_scan
  update_scan-ShrinksIfOk now alive timeout [] a = done
  update_scan-ShrinksIfOk now alive timeout (t ∷ ts) a =
      elim (Bool-cases (is_over now alive timeout t)) [
        | inl e ↦
            rw e (
              ShrinksIfOk-report t ts _ (update_scan-ShrinksIfOk now alive timeout ts (give f t a)))
        | inr e ↦ rw e (
            ShrinksIfOk-keep t (refreshed now t) ts _ (refreshed-SameJob now t)
              (update_scan-ShrinksIfOk now alive timeout ts a))
      ]

  pub end_scan-Shrinks :
      (pop_app_id : List ℕ) (ts : List Resources) (a : Amounts)
      → Shrinks ts (end_scan f pop_app_id ts a).1
  unfolding end_scan
  end_scan-Shrinks pop_app_id [] a = done
  end_scan-Shrinks pop_app_id (t ∷ ts) a = elim (Bool-cases (equal_text t.pop_app_id pop_app_id)) [
    | inl e ↦ rw e (drop (end_scan-Shrinks pop_app_id ts (give f t a)))
    | inr e ↦ rw e (stay (SameJob-refl t) (end_scan-Shrinks pop_app_id ts a))
  ]

  pub release_scan-ShrinksIfReleased :
      (id : ℕ) (ts : List Resources) (a : Amounts) → ShrinksIfReleased ts (release_scan f id ts a)
  unfolding release_scan
  release_scan-ShrinksIfReleased id [] a = done
  release_scan-ShrinksIfReleased id (t ∷ ts) a =
      elim (Bool-cases ((t.id == id) && not (is_reserved t))) [
        | inl e ↦ rw e (ShrinksIfReleased-report t (give f t a) ts)
        | inr e ↦ rw e (ShrinksIfReleased-keep t ts _ (release_scan-ShrinksIfReleased id ts a))
      ]
