-- ===== src/AccessPoint/Texts.antt =====
-- What strcmp says of two texts (include/core/pop_accesspoint.h and its callers).
use pop_cpp.Base.{ℕ, ◌≡◌, refl, true, false, Bool-cases, inl, inr, List, [], ◌∷◌, arith}
use pop_cpp.AccessPoint.{equal_text}

pub equal_text_refl : (s : List ℕ) → equal_text s s ≡ true
equal_text_refl [] = refl
equal_text_refl (x ∷ xs) = ground (arith, equal_text_refl xs)

pub equal_text-true : (s t : List ℕ) → equal_text s t ≡ true → s ≡ t
equal_text-true [] [] h = refl
equal_text-true [] (y ∷ t) h = absurd (cc)
equal_text-true (x ∷ s) [] h = absurd (cc)
equal_text-true (x ∷ s) (y ∷ t) h =
    let same : x ≡ y = ground (arith, h) in
    let rest : equal_text s t ≡ true = ground (arith, h) in
    let tail = equal_text-true s t rest in cc

-- Two texts differ if a third is one of them and not the other.
pub equal_text-differ :
    (s t u : List ℕ) → equal_text s t ≡ true → equal_text s u ≡ false → equal_text u t ≡ false
equal_text-differ s t u e n = elim (Bool-cases (equal_text u t)) [
  | inl h ↦
      let same = equal_text-true s t e in
      let other = equal_text-true u t h in
      let same' : s ≡ u = cc in let r = equal_text_refl u in let n' = rw same' at n in absurd (cc)
  | inr h ↦ h
]
