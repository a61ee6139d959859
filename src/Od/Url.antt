-- ===== src/Od/Url.antt =====
-- The address that an object asks for (pop_od::url in lib/core/od.cc).
use pop_cpp.Base.{
  ℕ, ◌≡◌, ◌<◌, refl, ap, ◌∙◌, Bool, true, false, Bool-cases, inl, inr, List, [], ◌∷◌, ◌++◌, All,
  length, Option, none, some, Result, ok, err, undefined, ◌>>=◌, ◌==◌, ◌||◌, ltb, lt→ltb, arith,
  if◌then◌else◌,
}
use pop_cpp.AccessPoint.{equal_text}
use pop_cpp.Exception.Codes.{codes}
use pop_cpp.Od.{Od}

-- strchr: what stands before the first `c`, and behind it.
unfoldable pub split : ℕ → List ℕ → Option (List ℕ × List ℕ)
split c [] = none
split c (x ∷ xs) =
    let later = split c xs in
    if x == c
    then some ([], xs)
    else elim later [ none ↦ none | some (before, after) ↦ some (x ∷ before, after) ]

unfoldable pub run_local : Bool → Od → Od
run_local b od = record od { is_local = b }

-- What stands before '@' is the user, and the rest is moved to the front by a strcpy between
-- overlapping parts of the array, which is undefined.
abbrev pub with_user : List ℕ → Od → Option (List ℕ × List ℕ) → Result (List ℕ × Od)
with_user h od none = ok (h, od)
with_user h od (some (user, rest)) = err undefined

abbrev pub user_part : List ℕ → Od → Result (List ℕ × Od)
user_part h od = with_user h od (split 64 h)

-- The core is what stands between '{' and '}'; the name ends before '{'.
abbrev pub closed : List ℕ → Od → Option (List ℕ × List ℕ) → List ℕ × Od
closed name od none = (name, od)
closed name od (some (core, after)) = (name, record od { hostcore = core })

abbrev pub with_core : List ℕ → Od → Option (List ℕ × List ℕ) → List ℕ × Od
with_core h od none = (h, od)
with_core h od (some (name, rest)) = closed name od (split 125 rest)

abbrev pub core_part : List ℕ × Od → List ℕ × Od
core_part (h, od) = with_core h od (split 123 h)

abbrev pub name_part : List ℕ × Od → Od
name_part (h, od) =
    let named : Od = record od { hostname = h } in
    if equal_text h (codes "localhost") then run_local true named else named

-- For a text without a zero: it is copied to an array of 256 characters, so a longer one is written
-- past the end.
unfoldable pub url : List ℕ → Od → Result Od
url str od =
    if ltb (length str) 256
    then (user_part str od >>= λ p. ok (name_part (core_part p)))
    else err undefined

-- The text does not hold the character.
abbrev pub IsWithout : ℕ → List ℕ → Type 0
IsWithout c s = All (λ x. (x == c) ≡ false) s

same_character : (c : ℕ) → (c == c) ≡ true
same_character c = ground arith

split-found : (c : ℕ) (s t : List ℕ) → IsWithout c s → split c (s ++ c ∷ t) ≡ some (s, t)
unfolding split
split-found c [] t h = rw (same_character c) refl
split-found c (x ∷ s) t h = rw (h.0, split-found c s t h.1) refl

split-missing : (c : ℕ) (s : List ℕ) → IsWithout c s → split c s ≡ none
unfolding split
split-missing c [] h = refl
split-missing c (x ∷ s) h = rw (h.0, split-missing c s h.1) refl

core_part-found :
    (h name core rest after : List ℕ) (od : Od)
    → split 123 h ≡ some (name, rest)
    → split 125 rest ≡ some (core, after)
    → core_part (h, od) ≡ (name, record od { hostcore = core })
core_part-found h name core rest after od e e' = ap (with_core h od) e ∙ ap (closed name od) e'

name_part_lem :
    (h : List ℕ) (od : Od)
    → name_part (h, od)
      ≡ record od { hostname = h; is_local = equal_text h (codes "localhost") || od.is_local }
unfolding run_local
name_part_lem h od = elim (Bool-cases (equal_text h (codes "localhost"))) [
  | inl e ↦ rw e refl
  | inr e ↦ rw e refl
]

-- name{core} and what follows.
abbrev pub address : List ℕ → List ℕ → List ℕ → List ℕ
address name core rest = name ++ (123 ∷ (core ++ (125 ∷ rest)))

-- An address of fewer than 256 characters, without a user, that has a name, a core in braces and
-- anything behind them gives the two parts; what stands behind the core, a port for example, is
-- dropped. The local machine is chosen for the name "localhost", and otherwise the choice is left
-- as it was.
pub url_parts :
    (name core rest : List ℕ) (od : Od)
    → IsWithout 123 name
    → IsWithout 125 core
    → IsWithout 64 (address name core rest)
    → length (address name core rest) < 256
    → url (address name core rest) od
      ≡ ok (record od {
        hostcore = core;
        hostname = name;
        is_local = equal_text name (codes "localhost") || od.is_local;
      })
unfolding url
url_parts name core rest od n k u short =
    let inner =
      core_part-found _ name core _ rest od (split-found 123 name _ n)
        (split-found 125 core rest k) in
    rw (lt→ltb _ _ short, split-missing 64 (address name core rest) u)
      (ap ok (ap name_part inner ∙ name_part_lem name (record od { hostcore = core })))
