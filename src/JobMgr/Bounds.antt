-- ===== src/JobMgr/Bounds.antt =====
-- What a JobMgr grants, by its available amounts and limits and by the demand.
use pop_cpp.Base.{
  or-false, ℕ, ◌≡◌, sym, ap, inl, inr, Bool, true, false, ◌&&◌, ◌||◌, Option, none, some,
  Bool-cases, and_then-some, then_none-some, leb, length,
}
use mathlib.Core.Path.{subst}
use pop_cpp.Base.Floats.{Floats, IsOrdered}
use pop_cpp.Exception.Codes.{codes}
use pop_cpp.Od.{Od, is_empty}
use pop_cpp.JobMgr.{Manager, query_info}
use pop_cpp.JobMgr.Reserve.{
  Grant, is_weak, cut, memory_fitness, min, least, power_grant, memory_grant, walltime_grant, Offer,
  demands, offer,
}

module _ (f : Floats) (order : IsOrdered f) where
  min-le : (a b : ℕ) → (f.le (min f a b) a ≡ true) × (f.le (min f a b) b ≡ true)
  min-le a b = elim (Bool-cases (f.less a b)) [
    | inl e ↦ rw e (order.le_refl a, order.le_of_less a b e)
    | inr e ↦ rw e (order.le_of_not_less a b e, order.le_refl b)
  ]

  min-ge : (x a b : ℕ) → f.le x a ≡ true → f.le x b ≡ true → f.le x (min f a b) ≡ true
  min-ge x a b p q = elim (Bool-cases (f.less a b)) [ inl e ↦ rw e p | inr e ↦ rw e q ]

  -- The amount of a grant that there is.
  abbrev amount_of : Option Grant → ℕ
  amount_of none = 0
  amount_of (some t) = t.amount

  -- An amount is within what there is, and a bound is within the amount.
  abbrev Holds : ℕ → ℕ → ℕ → ℕ → Type 0
  Holds x g available limit = (f.le x g ≡ true) × (f.le g available ≡ true) × (f.le g limit ≡ true)

  cut-Holds :
      (x require available limit : ℕ)
      → f.le x require ≡ true
      → f.le x available ≡ true
      → f.le x limit ≡ true
      → Holds x (cut f require available limit) available limit
  cut-Holds x require available limit p q r =
      elim (Bool-cases (f.less available require || f.less limit require)) [
        | inl e ↦ let m = min-le available limit in rw e (min-ge x available limit q r, m.0, m.1)
        | inr e ↦
            let n = or-false _ _ e in
            rw e (
              p,
              order.le_of_not_less available require n.0,
              order.le_of_not_less limit require n.1,
            )
      ]

  power_grant-Holds :
      (require lower available limit wanted : ℕ) (g : Grant)
      → f.less f.nought require ≡ true
      → f.less require (least f require lower) ≡ false
      → power_grant f true require lower available limit wanted ≡ some g
      → Holds (least f require lower) g.amount available limit
  unfolding power_grant
  power_grant-Holds require lower available limit wanted g p q e =
      let strong = then_none-some (is_weak f true require lower available limit) _ g (rw p at e) in
      let fit =
        then_none-some (f.less (f.div (min f available limit) require) wanted) _ g strong.1 in
      let enough = or-false _ _ strong.0 in
      subst (λ n. Holds (least f require lower) n available limit) (ap amount_of fit.1)
        (cut-Holds (least f require lower) require available limit
          (order.le_of_not_less require (least f require lower) q)
          (order.le_of_not_less available (least f require lower) enough.0)
          (order.le_of_not_less limit (least f require lower) enough.1))

  memory_grant-Holds :
      (require lower available wanted fitness : ℕ) (g : Grant)
      → f.less f.nought require ≡ true
      → f.less require (least f require lower) ≡ false
      → memory_grant f require lower available wanted fitness ≡ some g
      → Holds (least f require lower) g.amount available require
  unfolding memory_grant
  memory_grant-Holds require lower available wanted fitness g p q e =
      let strong = then_none-some (f.less available (least f require lower)) _ g (rw p at e) in
      let fit =
        then_none-some
          (f.less (memory_fitness f require available) fitness
            && f.less (memory_fitness f require available) wanted)
          _ g strong.1 in
      subst (λ n. Holds (least f require lower) n available require) (ap amount_of fit.1)
        (elim (Bool-cases (f.less available require)) [
          | inl short ↦ rw short (
            order.le_of_not_less available (least f require lower) strong.0,
            order.le_refl available,
            order.le_of_less available require short,
          )
          | inr enough ↦ rw enough (
            order.le_of_not_less require (least f require lower) q,
            order.le_of_not_less available require enough,
            order.le_refl require,
          )
        ])

  abbrev flops_of : Option (Offer f) → ℕ
  flops_of none = 0
  flops_of (some o) = o.flops

  abbrev mem_of : Option (Offer f) → ℕ
  mem_of none = 0
  mem_of (some o) = o.mem

  -- What an offer for a demand has been made of.
  demands-parts :
      (guarded : Bool) (od : Od) (wanted : ℕ) (s : Manager) (o : Offer f)
      → demands f guarded od wanted s ≡ some o
      → (p : Grant) × (m : Grant) × (power_grant f guarded od.mflops od.min_mflops s.available.flops
            s.limit.flops wanted
          ≡ some p)
        × (memory_grant f od.ram od.min_ram s.available.mem wanted p.fitness ≡ some m)
        × (o.flops ≡ p.amount)
        × (o.mem ≡ m.amount)
  unfolding demands
  demands-parts guarded od wanted s o e =
      let p = and_then-some _ _ o e in
      let m = and_then-some _ _ o p.2 in
      let w =
        and_then-some (walltime_grant f od.time (query_info (codes "walltime") s.info))
          (λ w.
            some (record {
              flops = p.0.amount;
              mem = m.0.amount;
              walltime = w;
              fitness = m.0.fitness;
            }))
          o m.2 in
      (p.0, m.0, p.1, m.1, sym (ap flops_of w.2), sym (ap mem_of w.2))

  offer-demands :
      (guarded : Bool) (od : Od) (wanted : ℕ) (s : Manager) (o : Offer f)
      → is_empty f od ≡ false
      → offer f guarded od wanted s ≡ some o
      → (leb s.maxjobs (length s.jobs) ≡ false) × (demands f guarded od wanted s ≡ some o)
  unfolding offer
  offer-demands guarded od wanted s o n e =
      let r = then_none-some (leb s.maxjobs (length s.jobs)) _ o e in (r.0, rw n at r.1)

  -- The power that MatchAndReserve sets aside for an object that needs some is what the machine
  -- has and allows at most, and what the object needs at least.
  pub offer-power :
      (od : Od) (wanted : ℕ) (s : Manager) (o : Offer f)
      → is_empty f od ≡ false
      → f.less f.nought od.mflops ≡ true
      → f.less od.mflops (least f od.mflops od.min_mflops) ≡ false
      → offer f true od wanted s ≡ some o
      → (f.le (least f od.mflops od.min_mflops) o.flops ≡ true)
        × (f.le o.flops s.available.flops ≡ true)
        × (f.le o.flops s.limit.flops ≡ true)
  offer-power od wanted s o n p q e =
      let d = demands-parts true od wanted s o (offer-demands true od wanted s o n e).1 in
      rw d.4 (
        power_grant-Holds od.mflops od.min_mflops s.available.flops s.limit.flops wanted d.0 p q
          d.2)

  -- The memory that Reserve or MatchAndReserve sets aside for an object that needs some is what
  -- the machine has and the object asks for at most, and what the object needs at least.
  pub offer-memory :
      (guarded : Bool) (od : Od) (wanted : ℕ) (s : Manager) (o : Offer f)
      → is_empty f od ≡ false
      → f.less f.nought od.ram ≡ true
      → f.less od.ram (least f od.ram od.min_ram) ≡ false
      → offer f guarded od wanted s ≡ some o
      → (f.le (least f od.ram od.min_ram) o.mem ≡ true)
        × (f.le o.mem s.available.mem ≡ true)
        × (f.le o.mem od.ram ≡ true)
  offer-memory guarded od wanted s o n p q e =
      let d = demands-parts guarded od wanted s o (offer-demands guarded od wanted s o n e).1 in
      rw d.5 (memory_grant-Holds od.ram od.min_ram s.available.mem wanted d.0.fitness d.1 p q d.3)
