-- ===== src/Search/Complete.antt =====
-- What MatchWildcard accepts of what a wildcard stands for (lib/dynamic/utils.cc).
use pop_cpp.Base.{
  ℕ, ◌≡◌, refl, sym, Bool, true, false, Bool-cases, inl, inr, List, [], ◌∷◌, ◌==◌, ◌&&◌, ◌||◌,
  if◌then◌else◌, arith, ◌↔◌,
}
use mathlib.Core.Path.{subst}
use pop_cpp.AccessPoint.{equal_text}
use pop_cpp.Search.Wildcard.{
  star, fits, skip_stars, is_nil, leading, searching, called, search, loop, match_wildcard, Matches,
  nothing, same, no_more, one_more, match_wildcard-Matches,
}

abbrev pub ends_in_star : List ℕ → Bool
ends_in_star [] = false
ends_in_star (x ∷ w) = if is_nil w then x == star else ends_in_star w

ends_in_star-tail : (x : ℕ) (w : List ℕ) → ends_in_star (x ∷ w) ≡ false → ends_in_star w ≡ false
ends_in_star-tail x [] e = refl
ends_in_star-tail x (y ∷ w) e = e

ends_in_star-skip_stars :
    (w : List ℕ) → ends_in_star w ≡ false → ends_in_star (skip_stars w) ≡ false
unfolding skip_stars
ends_in_star-skip_stars [] e = refl
ends_in_star-skip_stars (x ∷ w) e = elim (Bool-cases (x == star)) [
  | inl y ↦ rw y (ends_in_star-skip_stars w (ends_in_star-tail x w e))
  | inr n ↦ rw n e
]

-- The empty text.
Matches-nil : (w : List ℕ) → Matches [] w → ends_in_star w ≡ false → w ≡ []
Matches-nil [] m e = refl
Matches-nil (x ∷ w) (no_more y m) e =
    let rest = Matches-nil w m (ends_in_star-tail x w e) in
    let e' = subst (λ v. ends_in_star (x ∷ v) ≡ false) rest e in absurd (cc)

one_star :
    (x z : ℕ) (s w : List ℕ)
    → (x == star) ≡ true
    → (z == star) ≡ true
    → Matches s (x ∷ z ∷ w)
    → Matches s (x ∷ w)
one_star x z _ w a b (same f n m) = absurd (cc)
one_star x z s w a b (no_more e m) =
    let eq : z ≡ x = ground (arith, a, b) in subst (λ y. Matches s (y ∷ w)) eq m
one_star x z (c ∷ s) w a b (one_more e m) = one_more e (one_star x z s w a b m)

-- The first star and those after it.
Matches-skip_stars :
    (x : ℕ) (s w : List ℕ) → (x == star) ≡ true → Matches s (x ∷ w) → Matches s (x ∷ skip_stars w)
unfolding skip_stars
Matches-skip_stars x s [] e m = m
Matches-skip_stars x s (z ∷ w) e m = elim (Bool-cases (z == star)) [
  | inl y ↦ rw y (Matches-skip_stars x s w e (one_star x z s w e y m))
  | inr n ↦ rw n m
]

Matches-end : (s w : List ℕ) → Matches s w → w ≡ [] → s ≡ []
Matches-end _ _ nothing e = refl
Matches-end _ _ (same f n m) e = absurd (cc)
Matches-end _ _ (no_more y m) e = absurd (cc)
Matches-end _ _ (one_more y m) e = absurd (cc)

called-true :
    (s w : List ℕ) (led : Bool)
    → Matches s w
    → ends_in_star w ≡ false
    → led ≡ true
    → called s w led ≡ true
called-true [] [] led m e l = refl
called-true [] (x ∷ w) led m e l = let n = Matches-nil (x ∷ w) m e in absurd (cc)
called-true (c ∷ s) [] led m e l = let n = Matches-end (c ∷ s) [] m refl in absurd (cc)
called-true (c ∷ s) (x ∷ w) led m e l = elim (Bool-cases (equal_text (c ∷ s) (x ∷ w))) [
  | inl y ↦ rw y refl
  | inr n ↦ rw n l
]

skip_stars-head : (w v : List ℕ) (y : ℕ) → skip_stars w ≡ y ∷ v → (y == star) ≡ false
unfolding skip_stars
skip_stars-head [] v y e = absurd (cc)
skip_stars-head (x ∷ w) v y e = elim (Bool-cases (x == star)) [
  | inl h ↦ skip_stars-head w v y (rw h at e)
  | inr n ↦ let same : x ≡ y = cc (rw n at e) in rw (sym same) n
]

or_true : (b : Bool) → (b || true) ≡ true
or_true true = refl
or_true false = refl

-- Behind a star: the place is here, or further on.
search-true :
    (c y x : ℕ) (s w : List ℕ) (call go_on : List ℕ → Bool)
    → (x == star) ≡ true
    → (y == star) ≡ false
    → (Matches s w → call w ≡ true)
    → (Matches s (x ∷ y ∷ w) → go_on (y ∷ w) ≡ true)
    → Matches (c ∷ s) (x ∷ y ∷ w)
    → search c (y ∷ w) call go_on ≡ true
search-true c y x s w call go_on e n found later (same f z m) = absurd (cc)
search-true c y x s w call go_on e n found later (no_more h (same f z m)) = rw (f, found m) refl
search-true c y x s w call go_on e n found later (no_more h (no_more k m)) = absurd (cc)
search-true c y x s w call go_on e n found later (no_more h (one_more k m)) = absurd (cc)
search-true c y x s w call go_on e n found later (one_more h m) =
    rw (later m) (or_true (fits c y && call w))

abbrev IsFound : List ℕ → Type 0
IsFound s = (w : List ℕ) → ends_in_star w ≡ false → Matches s w → loop s leading w ≡ true

abbrev IsFoundLater : List ℕ → Type 0
IsFoundLater s =
    (y : ℕ) (w : List ℕ)
    → (y == star) ≡ false
    → ends_in_star (y ∷ w) ≡ false
    → Matches s (star ∷ y ∷ w)
    → loop s searching (y ∷ w) ≡ true

-- What stands in front of the first star.
same-parts :
    (c x : ℕ) (s w : List ℕ)
    → (x == star) ≡ false
    → Matches (c ∷ s) (x ∷ w)
    → (fits c x ≡ true) × Matches s w
same-parts c x s w n (same f z m) = (f, m)
same-parts c x s w n (no_more e m) = absurd (cc)
same-parts c x s w n (one_more e m) = absurd (cc)

module _ (c : ℕ) (s : List ℕ) (call go_on : List ℕ → Bool)
    (found : (v : List ℕ) → ends_in_star v ≡ false → Matches s v → call v ≡ true)
    (later : (y : ℕ) (v : List ℕ)
      → (y == star) ≡ false
      → ends_in_star (y ∷ v) ≡ false
      → Matches s (star ∷ y ∷ v)
      → go_on (y ∷ v) ≡ true) where
  search-Matches :
      (u : List ℕ)
      → ((v : List ℕ) (y : ℕ) → u ≡ y ∷ v → (y == star) ≡ false)
      → ends_in_star u ≡ false
      → Matches (c ∷ s) (star ∷ u)
      → search c u call go_on ≡ true
  search-Matches [] head e m = refl
  search-Matches (y ∷ v) head e m =
      let n = head v y refl in
      search-true c y star s v call go_on refl n (found v (ends_in_star-tail y v e)) (later y v n e)
        m

  leading-true :
      (x : ℕ) (w : List ℕ) (next : Bool)
      → ends_in_star (x ∷ w) ≡ false
      → (ends_in_star w ≡ false → Matches s w → next ≡ true)
      → Matches (c ∷ s) (x ∷ w)
      → (if x == star then search c (skip_stars w) call go_on else if fits c x then next else false)
        ≡ true
  leading-true x w next e more m = elim (Bool-cases (x == star)) [
    | inl y ↦
        let same : x ≡ star = ground (arith, y) in
        rw y (
          search-Matches (skip_stars w) (skip_stars-head w)
            (ends_in_star-skip_stars w (ends_in_star-tail x w e))
            (subst (λ z. Matches (c ∷ s) (z ∷ skip_stars w)) same
              (Matches-skip_stars x (c ∷ s) w y m)))
    | inr n ↦ let (f, m') = same-parts c x s w n m in rw (n, f) (more (ends_in_star-tail x w e) m')
  ]

module _ (c : ℕ) (s : List ℕ) (now : IsFound s) (later : IsFoundLater s) where
  abbrev call : List ℕ → Bool
  call v = called s v (loop s leading v)

  call-true : (v : List ℕ) → ends_in_star v ≡ false → Matches s v → call v ≡ true
  call-true v e m = called-true s v (loop s leading v) m e (now v e m)

  IsFound-cons : IsFound (c ∷ s)
  unfolding loop
  IsFound-cons [] e m = let end = Matches-end (c ∷ s) [] m refl in absurd (cc)
  IsFound-cons (x ∷ w) e m =
      leading-true c s call (loop s searching) call-true later x w (loop s leading w) e (now w) m

  IsFoundLater-cons : IsFoundLater (c ∷ s)
  unfolding loop
  IsFoundLater-cons y w n e m =
      search-true c y star s w call (loop s searching) refl n
        (call-true w (ends_in_star-tail y w e)) (later y w n e) m

loop-true : (s : List ℕ) → IsFound s × IsFoundLater s
unfolding loop skip_stars
loop-true [] = (
  λ w e m. rw (Matches-nil w m e) refl,
  λ y w n e m. let none = Matches-nil (star ∷ y ∷ w) m e in absurd (cc),
)
loop-true (c ∷ s) = (
  IsFound-cons c s (loop-true s).0 (loop-true s).1,
  IsFoundLater-cons c s (loop-true s).0 (loop-true s).1,
)

-- MatchWildcard accepts a text exactly if the wildcard stands for it, for a wildcard that does not
-- end in a star.
pub match_wildcard_iff :
    (s w : List ℕ) → ends_in_star w ≡ false → (match_wildcard s w ≡ true) ↔ Matches s w
unfolding match_wildcard
match_wildcard_iff s w e = (
  match_wildcard-Matches s w,
  λ m. called-true s w (loop s leading w) m e ((loop-true s).0 w e m),
)
