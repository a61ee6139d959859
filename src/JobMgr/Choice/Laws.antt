-- ===== src/JobMgr/Choice/Laws.antt =====
-- What MatchAndReserve does for several objects.
use pop_cpp.Base.{
  ℕ, zero, suc, ◌≡◌, refl, sym, ap, Bool, true, false, Bool-cases, inl, inr, List, [], ◌∷◌, Option,
  none, some, length, leb, ◌&&◌, and_then-some, then_none-some,
}
use mathlib.Core.Path.{subst}
use pop_cpp.Base.Bytes.{is_positive}
use pop_cpp.Base.Floats.{Floats, IsOrdered}
use pop_cpp.AccessPoint.{AccessPoint}
use pop_cpp.Od.{Od, is_empty}
use pop_cpp.Exception.Codes.{codes}
use pop_cpp.JobMgr.{Manager, query_info}
use pop_cpp.JobMgr.Reserve.{
  Grant, min, is_weak, power_grant, memory_fitness, memory_grant, least, walltime_grant, Offer,
  demands, offer, matched, match_and_reserve,
}
use pop_cpp.JobMgr.Choice.{
  Slot, slot_at, set_slot, Choice, settled, attempt, onward, choose, match_and_reserve_all,
  sort_index, iota, backwards, fitness_at,
}

module _ (f : Floats) (order : IsOrdered f) where
  abbrev fitness_of : Option Grant → ℕ
  fitness_of none = 0
  fitness_of (some g) = g.fitness

  abbrev offer_fitness_of : Option (Offer f) → ℕ
  offer_fitness_of none = 0
  offer_fitness_of (some o) = o.fitness

  power_grant-fitness :
      (guarded : Bool) (require lower available limit wanted : ℕ) (g : Grant)
      → f.le wanted f.one ≡ true
      → power_grant f guarded require lower available limit wanted ≡ some g
      → f.le wanted g.fitness ≡ true
  unfolding power_grant
  power_grant-fitness guarded require lower available limit wanted g w e =
      elim (Bool-cases (f.less f.nought require)) [
        | inl y ↦
            let strong =
              then_none-some (is_weak f guarded require lower available limit) _ g (rw y at e) in
            let fit =
              then_none-some (f.less (f.div (min f available limit) require) wanted) _ g strong.1 in
            subst (λ n. f.le wanted n ≡ true) (ap fitness_of fit.1)
              (order.le_of_not_less (f.div (min f available limit) require) wanted fit.0)
        | inr n ↦ subst (λ n. f.le wanted n ≡ true) (ap fitness_of (rw n at e)) w
      ]

  memory_grant-fitness :
      (require lower available wanted fitness : ℕ) (g : Grant)
      → f.le wanted fitness ≡ true
      → memory_grant f require lower available wanted fitness ≡ some g
      → f.le wanted g.fitness ≡ true
  unfolding memory_grant
  memory_grant-fitness require lower available wanted fitness g w e =
      elim (Bool-cases (f.less f.nought require)) [
        | inl y ↦
            let strong =
              then_none-some (f.less available (least f require lower)) _ g (rw y at e) in
            let fit =
              then_none-some
                (f.less (memory_fitness f require available) fitness
                  && f.less (memory_fitness f require available) wanted)
                _ g strong.1 in
            subst (λ n. f.le wanted n ≡ true) (ap fitness_of fit.1)
              (elim (Bool-cases (f.less (memory_fitness f require available) fitness)) [
                | inl less ↦ rw less (order.le_of_not_less _ wanted (rw less at fit.0))
                | inr more ↦ rw more w
              ])
        | inr n ↦ subst (λ n. f.le wanted n ≡ true) (ap fitness_of (rw n at e)) w
      ]

  demands-fitness :
      (guarded : Bool) (od : Od) (wanted : ℕ) (s : Manager) (o : Offer f)
      → f.le wanted f.one ≡ true
      → demands f guarded od wanted s ≡ some o
      → f.le wanted o.fitness ≡ true
  unfolding demands
  demands-fitness guarded od wanted s o w e =
      let p = and_then-some _ _ o e in
      let m = and_then-some _ _ o p.2 in
      let t =
        and_then-some (walltime_grant f od.time (query_info (codes "walltime") s.info))
          (λ w.
            some (record {
              flops = p.0.amount;
              mem = m.0.amount;
              walltime = w;
              fitness = m.0.fitness;
            }))
          o m.2 in
      let good = power_grant-fitness guarded _ _ _ _ wanted p.0 w p.1 in
      subst (λ n. f.le wanted n ≡ true) (ap offer_fitness_of t.2)
        (memory_grant-fitness _ _ _ wanted p.0.fitness m.0 good m.1)

  offer-fitness :
      (guarded : Bool) (od : Od) (wanted : ℕ) (s : Manager) (o : Offer f)
      → f.le wanted f.one ≡ true
      → offer f guarded od wanted s ≡ some o
      → f.le wanted o.fitness ≡ true
  unfolding offer
  offer-fitness guarded od wanted s o w e =
      let r = then_none-some (leb s.maxjobs (length s.jobs)) _ o e in
      elim (Bool-cases (is_empty f od)) [
        | inl y ↦ subst (λ n. f.le wanted n ≡ true) (ap offer_fitness_of (rw y at r.1)) w
        | inr n ↦ demands-fitness guarded od wanted s o w (rw n at r.1)
      ]

  matched-fitness :
      (now wanted : ℕ) (od : Od) (s : Manager) (o : Option (Offer f))
      → f.le wanted f.one ≡ true
      → offer f true od wanted s ≡ o
      → f.le wanted (matched f now wanted s o).1 ≡ true
  matched-fitness now wanted od s none w e = order.le_refl wanted
  matched-fitness now wanted od s (some o) w e = offer-fitness true od wanted s o w e

  -- Every object has a fitness that is no lower.
  abbrev pub AreNotWorse : List Slot → List Slot → Type 0
  AreNotWorse [] [] = Unit
  AreNotWorse (t ∷ ts) (u ∷ us) = (f.le t.fitness u.fitness ≡ true) × AreNotWorse ts us
  AreNotWorse _ _ = ⊥

  AreNotWorse-refl : (ts : List Slot) → AreNotWorse ts ts
  AreNotWorse-refl [] = tt
  AreNotWorse-refl (t ∷ ts) = (order.le_refl t.fitness, AreNotWorse-refl ts)

  AreNotWorse-trans :
      (ts us vs : List Slot) → AreNotWorse ts us → AreNotWorse us vs → AreNotWorse ts vs
  AreNotWorse-trans [] [] [] p q = tt
  AreNotWorse-trans [] [] (v ∷ vs) p q = elim q [ ]
  AreNotWorse-trans [] (u ∷ us) vs p q = elim p [ ]
  AreNotWorse-trans (t ∷ ts) [] vs p q = elim p [ ]
  AreNotWorse-trans (t ∷ ts) (u ∷ us) [] p q = elim q [ ]
  AreNotWorse-trans (t ∷ ts) (u ∷ us) (v ∷ vs) (p, ps) (q, qs) =
      (order.le_trans t.fitness u.fitness v.fitness p q, AreNotWorse-trans ts us vs ps qs)

  set_slot-AreNotWorse :
      (i : ℕ) (t u : Slot) (ts : List Slot)
      → slot_at i ts ≡ some t
      → f.le t.fitness u.fitness ≡ true
      → AreNotWorse ts (set_slot i u ts)
  unfolding slot_at set_slot
  set_slot-AreNotWorse i t u [] e h = tt
  set_slot-AreNotWorse zero t u (v ∷ vs) e h =
      let same : v ≡ t = cc in
      (subst (λ (w : Slot). f.le w.fitness u.fitness ≡ true) (sym same) h, AreNotWorse-refl vs)
  set_slot-AreNotWorse (suc i) t u (v ∷ vs) e h =
      (order.le_refl v.fitness, set_slot-AreNotWorse i t u vs e h)

  settled-AreNotWorse :
      (self : AccessPoint) (pos : ℕ) (t : Slot) (r : ℕ × ℕ × Manager) (c : Choice)
      → slot_at pos c.slots ≡ some t
      → f.le t.fitness r.1 ≡ true
      → AreNotWorse c.slots (settled f self pos t r c).1.slots
  settled-AreNotWorse self pos t (id, fitness, s) c e h = elim (Bool-cases (is_positive id)) [
    | inl y ↦ rw y (set_slot-AreNotWorse pos t _ c.slots e h)
    | inr n ↦ rw n (set_slot-AreNotWorse pos t _ c.slots e h)
  ]

  attempt-AreNotWorse :
      (now : ℕ) (od : Od) (self : AccessPoint) (pos : ℕ) (o : Option Slot) (c : Choice)
      → slot_at pos c.slots ≡ o
      → AreNotWorse c.slots (attempt f now od self pos o c).1.slots
  unfolding match_and_reserve
  attempt-AreNotWorse now od self pos none c e = AreNotWorse-refl c.slots
  attempt-AreNotWorse now od self pos (some t) c e = elim (Bool-cases (f.le f.one t.fitness)) [
    | inl y ↦ rw y (AreNotWorse-refl c.slots)
    | inr n ↦ rw n (
        settled-AreNotWorse self pos t (match_and_reserve f now od t.fitness c.manager) c e (
          matched-fitness now t.fitness od c.manager _ (order.le_of_not_le f.one t.fitness n) refl))
  ]

  onward-AreNotWorse :
      (ts : List Slot) (go : Choice → Choice) (r : Bool × Choice)
      → AreNotWorse ts r.1.slots
      → ((c : Choice) → AreNotWorse c.slots (go c).slots)
      → AreNotWorse ts (onward f go r).slots
  onward-AreNotWorse ts go (true, c) h next = AreNotWorse-trans ts c.slots (go c).slots h (next c)
  onward-AreNotWorse ts go (false, c) h next = h

  choose-AreNotWorse :
      (clock : ℕ → ℕ) (od : Od) (self : AccessPoint) (ps : List ℕ) (c : Choice)
      → AreNotWorse c.slots (choose f clock od self ps c).slots
  unfolding choose
  choose-AreNotWorse clock od self [] c = AreNotWorse-refl c.slots
  choose-AreNotWorse clock od self (pos ∷ ps) c =
      onward-AreNotWorse c.slots (choose f clock od self ps)
        (attempt f (clock pos) od self pos (slot_at pos c.slots) c)
        (attempt-AreNotWorse (clock pos) od self pos (slot_at pos c.slots) c refl)
        (choose-AreNotWorse clock od self ps)

  -- MatchAndReserve for several objects gives no object a lower fitness than it has had, and keeps
  -- their number.
  pub match_and_reserve_all-AreNotWorse :
      (clock : ℕ → ℕ) (od : Od) (self : AccessPoint) (slots : List Slot) (s : Manager)
      → AreNotWorse slots (match_and_reserve_all f clock od self slots s).slots
  unfolding match_and_reserve_all
  match_and_reserve_all-AreNotWorse clock od self slots s =
      let index = sort_index f (fitness_at slots) (length slots) (iota 0 (length slots)) in
      choose-AreNotWorse clock od self (backwards index)
        (record { ret = false; slots = slots; manager = s; cancelled = [] })
