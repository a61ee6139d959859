-- ===== src/Search/Wildcard.antt =====
-- pop_utils::MatchWildcard (lib/dynamic/utils.cc) and the language of the wildcards.
use pop_cpp.Base.{
  ℕ, ◌≡◌, refl, Bool, true, false, Bool-cases, inl, inr, ◌⊎◌, List, [], ◌∷◌, ◌==◌, ◌&&◌, ◌||◌,
  if◌then◌else◌, arith,
}
use mathlib.Core.Path.{subst}
use pop_cpp.AccessPoint.{equal_text}
use pop_cpp.AccessPoint.Texts.{equal_text-true}

-- '*' and '?'.
abbrev pub star : ℕ
star = 42

abbrev pub question : ℕ
question = 63

abbrev pub fits : ℕ → ℕ → Bool
fits c x = (c == x) || (x == question)

unfoldable pub skip_stars : List ℕ → List ℕ
skip_stars [] = []
skip_stars (x ∷ w) = let rest = skip_stars w in if x == star then rest else x ∷ w

abbrev pub is_nil : List ℕ → Bool
is_nil [] = true
is_nil (x ∷ xs) = false

-- The two loops of the function: over what stands in front of the first star, and the search for
-- the place where what follows the stars goes on.
pub data Loop : Type 0 where
  leading : Loop
  searching : Loop

-- The call of the function itself, with what the first loop says.
abbrev pub called : List ℕ → List ℕ → Bool → Bool
called str wildcard led =
    if equal_text str wildcard then true else if is_nil str || is_nil wildcard then false else led

-- One turn of the search: the rest of the text for a call, and for the search.
abbrev pub search : ℕ → List ℕ → (List ℕ → Bool) → (List ℕ → Bool) → Bool
search c [] call go_on = true
search c (y ∷ w) call go_on = (fits c y && call w) || go_on (y ∷ w)

unfoldable pub loop : List ℕ → Loop → List ℕ → Bool
loop [] leading wildcard = is_nil (skip_stars wildcard)
loop [] searching wildcard = false
loop (c ∷ str) leading [] = false
loop (c ∷ str) leading (x ∷ w) =
    let call = λ (v : List ℕ). called str v (loop str leading v) in
    let go_on = loop str searching in
    let next = loop str leading w in
    if x == star then search c (skip_stars w) call go_on else if fits c x then next else false
loop (c ∷ str) searching [] = false
loop (c ∷ str) searching (y ∷ w) =
    let call = λ (v : List ℕ). called str v (loop str leading v) in
    search c (y ∷ w) call (loop str searching)

unfoldable pub match_wildcard : List ℕ → List ℕ → Bool
match_wildcard str wildcard = called str wildcard (loop str leading wildcard)

-- What a wildcard stands for.
pub data Matches : List ℕ → List ℕ → Type 0 where
  nothing : Matches [] []
  same :
      {c x : ℕ} {s w : List ℕ}
      → fits c x ≡ true
      → (x == star) ≡ false
      → Matches s w
      → Matches (c ∷ s) (x ∷ w)
  no_more : {x : ℕ} {s w : List ℕ} → (x == star) ≡ true → Matches s w → Matches s (x ∷ w)
  one_more :
      {c x : ℕ} {s w : List ℕ} → (x == star) ≡ true → Matches s (x ∷ w) → Matches (c ∷ s) (x ∷ w)

fits-Matches : (c x : ℕ) (s w : List ℕ) → fits c x ≡ true → Matches s w → Matches (c ∷ s) (x ∷ w)
fits-Matches c x s w f m = elim (Bool-cases (x == star)) [
  | inl e ↦ one_more e (no_more e m)
  | inr n ↦ same f n m
]

Matches-refl : (s : List ℕ) → Matches s s
Matches-refl [] = nothing
Matches-refl (c ∷ s) = fits-Matches c c s s (ground arith) (Matches-refl s)

pub two_stars :
    (y x : ℕ) (s w : List ℕ)
    → (y == star) ≡ true
    → (x == star) ≡ true
    → Matches s (y ∷ w)
    → Matches s (y ∷ x ∷ w)
two_stars y x _ w a b (same f n m) = absurd (cc)
two_stars y x s w a b (no_more e m) = no_more e (no_more b m)
two_stars y x (c ∷ s) w a b (one_more e m) = one_more e (two_stars y x s w a b m)

-- Several stars are as good as one.
skip_stars-Matches : (s w : List ℕ) → Matches s (star ∷ skip_stars w) → Matches s (star ∷ w)
unfolding skip_stars
skip_stars-Matches s [] m = m
skip_stars-Matches s (x ∷ w) m = elim (Bool-cases (x == star)) [
  | inl e ↦ two_stars star x s w refl e (skip_stars-Matches s w (rw e at m))
  | inr n ↦ rw n at m
]

called-Matches :
    (s w : List ℕ) (led : Bool) → (led ≡ true → Matches s w) → called s w led ≡ true → Matches s w
called-Matches s w led sound e = elim (Bool-cases (equal_text s w)) [
  | inl y ↦ subst (Matches s) (equal_text-true s w y) (Matches-refl s)
  | inr n ↦ elim (Bool-cases (is_nil s || is_nil w)) [
    | inl y ↦ let e' = rw (n, y) at e in absurd (cc)
    | inr z ↦ sound (rw (n, z) at e)
  ]
]

or-true : (a b : Bool) → (a || b) ≡ true → (a ≡ true) ⊎ (b ≡ true)
or-true true b e = inl refl
or-true false b e = inr e

and-true : (a b : Bool) → (a && b) ≡ true → (a ≡ true) × (b ≡ true)
and-true true b e = (refl, e)
and-true false b e = absurd (cc)

-- A text that is all skipped.
stars-Matches : (s : List ℕ) → Matches s (star ∷ [])
stars-Matches [] = no_more refl nothing
stars-Matches (c ∷ s) = one_more refl (stars-Matches s)

search-Matches :
    (c : ℕ) (s w : List ℕ) (call go_on : List ℕ → Bool)
    → ((v : List ℕ) → call v ≡ true → Matches s v)
    → ((v : List ℕ) → go_on v ≡ true → Matches s (star ∷ v))
    → search c w call go_on ≡ true
    → Matches (c ∷ s) (star ∷ w)
search-Matches c s [] call go_on sound later e = stars-Matches (c ∷ s)
search-Matches c s (y ∷ w) call go_on sound later e =
    elim (or-true (fits c y && call w) (go_on (y ∷ w)) e) [
      | inl here ↦
          let (f, m) = and-true (fits c y) (call w) here in
          no_more refl (fits-Matches c y s w f (sound w m))
      | inr there ↦ one_more refl (later (y ∷ w) there)
    ]

nil-Matches : (w : List ℕ) → is_nil (skip_stars w) ≡ true → Matches [] w
unfolding skip_stars
nil-Matches [] e = nothing
nil-Matches (x ∷ w) e = elim (Bool-cases (x == star)) [
  | inl y ↦ no_more y (nil-Matches w (rw y at e))
  | inr n ↦ let e' = rw n at e in absurd (cc)
]

-- Whether one star or the first of several is skipped.
star-Matches :
    (x : ℕ) (s w : List ℕ)
    → (x == star) ≡ true
    → Matches s (star ∷ skip_stars w)
    → Matches s (x ∷ w)
star-Matches x s w e m =
    let same : star ≡ x = ground (arith, e) in
    subst (λ y. Matches s (y ∷ w)) same (skip_stars-Matches s w m)

leading-Matches :
    (c x : ℕ) (s w : List ℕ) (call go_on : List ℕ → Bool) (next : Bool)
    → ((v : List ℕ) → call v ≡ true → Matches s v)
    → ((v : List ℕ) → go_on v ≡ true → Matches s (star ∷ v))
    → (next ≡ true → Matches s w)
    → (if x == star then search c (skip_stars w) call go_on else if fits c x then next else false)
      ≡ true
    → Matches (c ∷ s) (x ∷ w)
leading-Matches c x s w call go_on next sound later rest e = elim (Bool-cases (x == star)) [
  | inl y ↦
      star-Matches x (c ∷ s) w y
        (search-Matches c s (skip_stars w) call go_on sound later (rw y at e))
  | inr n ↦ elim (Bool-cases (fits c x)) [
    | inl f ↦ same f n (rest (rw (n, f) at e))
    | inr z ↦ let e' = rw (n, z) at e in absurd (cc)
  ]
]

loop-Matches :
    (s w : List ℕ)
    → (loop s leading w ≡ true → Matches s w) × (loop s searching w ≡ true → Matches s (star ∷ w))
unfolding loop
loop-Matches [] w = (nil-Matches w, λ e. absurd (cc))
loop-Matches (c ∷ s) [] = (λ e. absurd (cc), λ e. absurd (cc))
loop-Matches (c ∷ s) (x ∷ w) =
    let sound = λ (v : List ℕ). called-Matches s v (loop s leading v) (loop-Matches s v).0 in
    let later = λ (v : List ℕ). (loop-Matches s v).1 in
    (
      leading-Matches c x s w (λ v. called s v (loop s leading v)) (loop s searching)
          (loop s leading w) sound later (loop-Matches s w).0,
      search-Matches c s (x ∷ w) (λ v. called s v (loop s leading v)) (loop s searching) sound
          later,
    )

-- What MatchWildcard accepts is what the wildcard stands for.
pub match_wildcard-Matches : (s w : List ℕ) → match_wildcard s w ≡ true → Matches s w
unfolding match_wildcard
match_wildcard-Matches s w e = called-Matches s w (loop s leading w) (loop-Matches s w).0 e
