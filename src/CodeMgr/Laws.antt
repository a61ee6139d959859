-- ===== src/CodeMgr/Laws.antt =====
-- What QueryCode finds after RegisterCode.
use pop_cpp.Base.{
  ℕ, ◌≡◌, refl, true, false, Bool-cases, inl, inr, List, [], ◌∷◌, Option, none, some, ok, All, ◌⊎◌,
}
use mathlib.Core.Path.{subst}
use pop_cpp.AccessPoint.{equal_text}
use pop_cpp.AccessPoint.Texts.{equal_text_refl, equal_text-true}
use pop_cpp.Search.Wildcard.{match_wildcard}
use pop_cpp.CodeMgr.{
  Code, CodeDb, is_long, set_code, register, register_code, element, code_for, query_code,
}

-- The entries of an object; none if it has no entry.
abbrev pub codes_of : Option (List Code) → List Code
codes_of none = []
codes_of (some ts) = ts

element-register :
    (objname : List ℕ) (t : Code) (info : List CodeDb)
    → element objname (register objname t info)
      ≡ some (set_code t (codes_of (element objname info)))
unfolding element register
element-register objname t [] = rw (equal_text_refl objname) refl
element-register objname t (x ∷ xs) = elim (Bool-cases (equal_text objname x.objname)) [
  | inl y ↦ rw (y, y) refl
  | inr n ↦ rw (n, n) (element-register objname t xs)
]

element-other :
    (objname other : List ℕ) (t : Code) (info : List CodeDb)
    → equal_text other objname ≡ false
    → element other (register objname t info) ≡ element other info
unfolding element register
element-other objname other t [] n = rw n refl
element-other objname other t (x ∷ xs) n = elim (Bool-cases (equal_text objname x.objname)) [
  | inl y ↦
      let same = equal_text-true objname x.objname y in
      let far = subst (λ k. equal_text other k ≡ false) same n in rw y (rw far refl)
  | inr z ↦ rw z (elim (Bool-cases (equal_text other x.objname)) [
    | inl y ↦ rw y refl
    | inr w ↦ rw w (element-other objname other t xs n)
  ])
]

-- Nothing of another platform that comes first is matched.
abbrev pub IsFirst : List ℕ → List ℕ → List Code → Type 0
IsFirst asked platform ts =
    All (λ u. (equal_text platform u.platform ≡ true) ⊎ (match_wildcard asked u.platform ≡ false))
      ts

code_for-set_code :
    (asked : List ℕ) (t : Code) (ts : List Code)
    → match_wildcard asked t.platform ≡ true
    → IsFirst asked t.platform ts
    → code_for asked (set_code t ts) ≡ some t.codefile
unfolding code_for set_code
code_for-set_code asked t [] m i = rw m refl
code_for-set_code asked t (u ∷ us) m (h, i) = elim (Bool-cases (equal_text t.platform u.platform)) [
  | inl y ↦ rw (y, m) refl
  | inr n ↦ elim h [
    | inl y ↦ absurd (cc)
    | inr far ↦ rw (n, far) (code_for-set_code asked t us m i)
  ]
]

-- A code file that is registered for an object and a platform, under names of fewer than 1024
-- characters, is found for every platform that matches the registered one by MatchWildcard and none
-- of the object's other platforms; and what is found for other objects stays.
pub query_code-register_code :
    (objname platform codefile asked other of_other : List ℕ) (info : List CodeDb)
    → is_long objname ≡ false
    → is_long platform ≡ false
    → is_long codefile ≡ false
    → match_wildcard asked platform ≡ true
    → IsFirst asked platform (codes_of (element objname info))
    → equal_text other objname ≡ false
    → (info' : List CodeDb) × (register_code objname platform codefile info ≡ ok info')
      × (query_code objname asked info' ≡ some codefile)
      × (query_code other of_other info' ≡ query_code other of_other info)
unfolding register_code query_code
query_code-register_code objname platform codefile asked other of_other info a b c m i n =
    let t : Code = record { platform = platform; codefile = codefile } in
    (
      register objname t info,
      rw (a, b, c) refl,
      rw (element-register objname t info)
          (code_for-set_code asked t (codes_of (element objname info)) m i),
      rw (element-other objname other t info n) refl,
    )
