-- ===== src/JobMgr/Account.antt =====
-- The account of a JobMgr, as a ledger of the shares that its jobs hold.
use pop_cpp.Base.{
  ℕ, suc, ◌+◌, ◌≡◌, refl, sym, ap, Bool, true, Bool-cases, Option-cases, inl, inr, not, List, [],
  ◌∷◌, ◌++◌, Result, ok, err, ◌>>=◌, ltb, ◌&&◌, ◌==◌,
}
use pop_cpp.Base.Floats.{Floats}
use mathlib.Core.Path.{subst}
use pop_cpp.AccessPoint.{AccessPoint, equal_text}
use pop_cpp.JobMgr.{Resources, Amounts, is_reserved}
use pop_cpp.JobMgr.Release.{
  report, keep, Stock, after_match, give, cancel_scan, release_scan, update_scan, is_over,
  refreshed, end_scan, validate_scan,
}

-- What a job holds of the machine.
abbrev pub share : Resources → Amounts
share t = record { flops = t.flops; mem = t.mem; bandwidth = t.bandwidth }

abbrev pub held : List Resources → List Amounts
held [] = []
held (t ∷ ts) = share t ∷ held ts

pub held-snoc :
    (ts : List Resources) (t : Resources) → held (ts ++ t ∷ []) ≡ held ts ++ share t ∷ []
held-snoc [] t = refl
held-snoc (x ∷ ts) t = ap (◌∷◌ (share x)) (held-snoc ts t)

module _ (f : Floats) where
  -- Each amount with the other's added, or subtracted.
  abbrev pub plus : Amounts → Amounts → Amounts
  plus a h = record {
    flops = f.add a.flops h.flops;
    mem = f.add a.mem h.mem;
    bandwidth = f.add a.bandwidth h.bandwidth;
  }

  abbrev pub minus : Amounts → Amounts → Amounts
  minus a h = record {
    flops = f.sub a.flops h.flops;
    mem = f.sub a.mem h.mem;
    bandwidth = f.sub a.bandwidth h.bandwidth;
  }

  -- Some shares are given back, one after the other in their order; the others stay as they are.
  pub data Settles : Amounts → List Amounts → Amounts → List Amounts → Type 0 where
    at_rest : (a : Amounts) (hs : List Amounts) → Settles a hs a hs
    gives :
        {a a' : Amounts} {hs hs' : List Amounts} (h : Amounts)
        → Settles (plus a h) hs a' hs'
        → Settles a (h ∷ hs) a' hs'
    stays :
        {a a' : Amounts} {hs hs' : List Amounts} (h : Amounts)
        → Settles a hs a' hs'
        → Settles a (h ∷ hs) a' (h ∷ hs')

  -- The account of a machine: what is available, and the shares that are held. A share that is
  -- handed out is subtracted from what is available, but for those that have leaked, of which the
  -- first number is the count; a share that is given back is added.
  pub data Ledger (total : Amounts) : ℕ → Amounts → List Amounts → Type 0 where
    opened : Ledger total 0 total []
    takes :
        {n : ℕ} {a : Amounts} {hs : List Amounts} (h : Amounts)
        → Ledger total n a hs
        → Ledger total n (minus a h) (hs ++ h ∷ [])
    leaks :
        {n : ℕ} {a : Amounts} {hs : List Amounts} (h : Amounts)
        → Ledger total n a hs
        → Ledger total (suc n) a (hs ++ h ∷ [])
    settles :
        {n : ℕ} {a a' : Amounts} {hs hs' : List Amounts}
        → Ledger total n a hs
        → Settles a hs a' hs'
        → Ledger total n a' hs'

  -- A scan of the list that ends well settles shares.
  abbrev pub Keeps : Amounts → List Resources → Stock → Type 0
  Keeps a ts (a', ts') = Settles a (held ts) a' (held ts')

  abbrev pub KeepsIfOk : Amounts → List Resources → Result Stock → Type 0
  KeepsIfOk a ts (ok s) = Keeps a ts s
  KeepsIfOk a ts (err e) = Unit

  Keeps-give :
      (t : Resources) (a : Amounts) (ts : List Resources) (s : Stock)
      → Keeps (give f t a) ts s
      → Keeps a (t ∷ ts) s
  Keeps-give t a ts s k = gives (share t) k

  KeepsIfOk-report :
      (t : Resources) (a : Amounts) (ts : List Resources) (r : Result Stock)
      → KeepsIfOk (give f t a) ts r
      → KeepsIfOk a (t ∷ ts) (report ts r)
  KeepsIfOk-report t a [] r k = tt
  KeepsIfOk-report t a (u ∷ ts) (ok s) k = Keeps-give t a (u ∷ ts) s k
  KeepsIfOk-report t a (u ∷ ts) (err e) k = tt

  -- An entry that stays, perhaps with another start or contact.
  KeepsIfOk-keep :
      (t t' : Resources) (a : Amounts) (ts : List Resources) (r : Result Stock)
      → share t' ≡ share t
      → KeepsIfOk a ts r
      → KeepsIfOk a (t ∷ ts) (keep t' r)
  KeepsIfOk-keep t t' a ts (ok (a', ts')) same k =
      subst (λ h. Settles a (share t ∷ held ts) a' (h ∷ held ts')) (sym same) (stays (share t) k)
  KeepsIfOk-keep t t' a ts (err x) same k = tt

  pub cancel_scan-KeepsIfOk :
      (req : List ℕ) (ts : List Resources) (left : List ℕ) (a : Amounts)
      → KeepsIfOk a ts (cancel_scan f req ts left a)
  unfolding cancel_scan
  cancel_scan-KeepsIfOk req [] left a = at_rest a _
  cancel_scan-KeepsIfOk req (t ∷ ts) left a = elim (Option-cases (after_match t left)) [
    | inl e ↦ rw e (KeepsIfOk-keep t t a ts _ refl (cancel_scan-KeepsIfOk req ts req a))
    | inr (left', e) ↦
        rw e (KeepsIfOk-report t a ts _ (cancel_scan-KeepsIfOk req ts left' (give f t a)))
  ]

  refreshed-same : (now : ℕ) (t : Resources) → share (refreshed now t) ≡ share t
  refreshed-same now t = elim (Bool-cases (not (is_reserved t) && ltb (t.start + 5) now)) [
    | inl e ↦ rw e refl
    | inr e ↦ rw e refl
  ]

  pub update_scan-KeepsIfOk :
      (now : ℕ) (alive : AccessPoint → Bool) (timeout : ℕ) (ts : List Resources) (a : Amounts)
      → KeepsIfOk a ts (update_scan f now alive timeout ts a)
  unfolding update_scan
  update_scan-KeepsIfOk now alive timeout [] a = at_rest a _
  update_scan-KeepsIfOk now alive timeout (t ∷ ts) a =
      elim (Bool-cases (is_over now alive timeout t)) [
        | inl e ↦
            rw e
              (KeepsIfOk-report t a ts _ (update_scan-KeepsIfOk now alive timeout ts (give f t a)))
        | inr e ↦ rw e (
            KeepsIfOk-keep t (refreshed now t) a ts _ (refreshed-same now t)
              (update_scan-KeepsIfOk now alive timeout ts a))
      ]

  pub end_scan-Keeps :
      (pop_app_id : List ℕ) (ts : List Resources) (a : Amounts)
      → Keeps a ts (end_scan f pop_app_id ts a)
  unfolding end_scan
  end_scan-Keeps pop_app_id [] a = at_rest a _
  end_scan-Keeps pop_app_id (t ∷ ts) a = elim (Bool-cases (equal_text t.pop_app_id pop_app_id)) [
    | inl e ↦ rw e (Keeps-give t a ts _ (end_scan-Keeps pop_app_id ts (give f t a)))
    | inr e ↦ rw e (stays (share t) (end_scan-Keeps pop_app_id ts a))
  ]

  abbrev pub KeepsIfReleased : Amounts → List Resources → Result (Bool × Stock) → Type 0
  KeepsIfReleased a ts (ok (b, s)) = Keeps a ts s
  KeepsIfReleased a ts (err e) = Unit

  KeepsIfReleased-report :
      (t : Resources) (a : Amounts) (ts : List Resources)
      → KeepsIfReleased a (t ∷ ts) (report ts (ok (true, (give f t a, ts))))
  KeepsIfReleased-report t a [] = tt
  KeepsIfReleased-report t a (u ∷ ts) = Keeps-give t a (u ∷ ts) (give f t a, u ∷ ts) (at_rest _ _)

  KeepsIfReleased-keep :
      (t : Resources) (a : Amounts) (ts : List Resources) (r : Result (Bool × Stock))
      → KeepsIfReleased a ts r
      → KeepsIfReleased a (t ∷ ts) (r >>= λ r. ok (r.0, (r.1.0, t ∷ r.1.1)))
  KeepsIfReleased-keep t a ts (ok (b, (a', ts'))) k = stays (share t) k
  KeepsIfReleased-keep t a ts (err x) k = tt

  pub release_scan-KeepsIfReleased :
      (id : ℕ) (ts : List Resources) (a : Amounts) → KeepsIfReleased a ts (release_scan f id ts a)
  unfolding release_scan
  release_scan-KeepsIfReleased id [] a = at_rest a _
  release_scan-KeepsIfReleased id (t ∷ ts) a =
      elim (Bool-cases ((t.id == id) && not (is_reserved t))) [
        | inl e ↦ rw e (KeepsIfReleased-report t a ts)
        | inr e ↦ rw e (KeepsIfReleased-keep t a ts _ (release_scan-KeepsIfReleased id ts a))
      ]

pub validate_scan-held :
    (now id : ℕ) (objcontact appserv : AccessPoint) (ts : List Resources)
    → held (validate_scan now id objcontact appserv ts).1 ≡ held ts
unfolding validate_scan
validate_scan-held now id objcontact appserv [] = refl
validate_scan-held now id objcontact appserv (t ∷ ts) = elim (Bool-cases (t.id == id)) [
  | inl e ↦ rw e refl
  | inr e ↦ rw e (ap (◌∷◌ (share t)) (validate_scan-held now id objcontact appserv ts))
]
