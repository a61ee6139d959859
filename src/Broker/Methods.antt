-- ===== src/Broker/Methods.antt =====
-- The table of method names of a broker (lib/core/broker.cc).
use pop_cpp.Base.{
  ℕ, ◌≡◌, refl, sym, ap, ◌∙◌, true, false, List, [], ◌∷◌, ◌++◌, Option, none, some, All, Bool-cases,
  Option-cases, inl, inr, ◌==◌, if◌then◌else◌, arith,
}
use pop_cpp.AccessPoint.{equal_text}
use pop_cpp.AccessPoint.Texts.{equal_text-true}

pub record MethodInfo : Type 0 where
  pub mid : ℕ
  pub name : List ℕ

pub record ClassInfo : Type 0 where
  pub cid : ℕ
  pub methods : List MethodInfo

-- AddMethodInfo: a class without methods is not added.
unfoldable pub add_method_info : ℕ → List MethodInfo → List ClassInfo → List ClassInfo
add_method_info cid [] table = table
add_method_info cid (m ∷ ms) table = table ++ record { cid = cid; methods = m ∷ ms } ∷ []

-- FindMethodName, the inner loop and the outer one.
unfoldable pub name_in : ℕ → List MethodInfo → Option (List ℕ)
name_in method_id [] = none
name_in method_id (m ∷ ms) =
    let later = name_in method_id ms in if m.mid == method_id then some m.name else later

unfoldable pub find_method_name : ℕ → ℕ → List ClassInfo → Option (List ℕ)
find_method_name class_id method_id [] = none
find_method_name class_id method_id (t ∷ ts) =
    let later = find_method_name class_id method_id ts in
    if t.cid == class_id
    then elim (name_in method_id t.methods) [ none ↦ later | some n ↦ some n ]
    else later

-- FindMethodInfo for a name that is no null pointer: the inner loop, and the outer one, which
-- gives the class and the method.
unfoldable pub id_in : List ℕ → List MethodInfo → Option ℕ
id_in name [] = none
id_in name (m ∷ ms) =
    let later = id_in name ms in if equal_text name m.name then some m.mid else later

unfoldable pub find_method_info : List ℕ → List ClassInfo → Option (ℕ × ℕ)
find_method_info name [] = none
find_method_info name (t ∷ ts) =
    let later = find_method_info name ts in
    elim (id_in name t.methods) [ none ↦ later | some m ↦ some (t.cid, m) ]

some_injective {ℓ} : {A : Type ℓ} {x y : A} → some x ≡ some y → x ≡ y
some_injective h = cc

-- In a table whose classes have different numbers, and whose methods of a class have different
-- numbers, every method is found under its name.
abbrev pub HasOther : ℕ → List MethodInfo → Type 0
HasOther n ms = All (λ m. (m.mid == n) ≡ false) ms

abbrev pub AreDistinct : List MethodInfo → Type 0
AreDistinct [] = Unit
AreDistinct (m ∷ ms) = HasOther m.mid ms × AreDistinct ms

abbrev pub HasOtherClass : ℕ → List ClassInfo → Type 0
HasOtherClass n ts = All (λ t. (t.cid == n) ≡ false) ts

unfoldable pub IsTable : List ClassInfo → Type 0
IsTable [] = Unit
IsTable (t ∷ ts) = AreDistinct t.methods × HasOtherClass t.cid ts × IsTable ts

same_number : (n : ℕ) → (n == n) ≡ true
same_number n = ground arith

other_number : (n m : ℕ) → (n == m) ≡ false → (m == n) ≡ false
other_number n m h = ground (arith, h)

id_in-other :
    (n m : ℕ) (name : List ℕ) (ms : List MethodInfo)
    → HasOther n ms
    → id_in name ms ≡ some m
    → (m == n) ≡ false
unfolding id_in
id_in-other n m name [] other h = absurd (cc)
id_in-other n m name (x ∷ ms) other h = elim (Bool-cases (equal_text name x.name)) [
  | inl e ↦ let same : x.mid ≡ m = some_injective (rw e at h) in rw (← same) other.0
  | inr e ↦ id_in-other n m name ms other.1 (rw e at h)
]

name_in-id_in :
    (m : ℕ) (name : List ℕ) (ms : List MethodInfo)
    → AreDistinct ms
    → id_in name ms ≡ some m
    → name_in m ms ≡ some name
unfolding id_in name_in
name_in-id_in m name [] distinct h = absurd (cc)
name_in-id_in m name (x ∷ ms) distinct h = elim (Bool-cases (equal_text name x.name)) [
  | inl e ↦
      let same : x.mid ≡ m = some_injective (rw e at h) in
      rw (← same, same_number x.mid) (ap some (sym (equal_text-true name x.name e)))
  | inr e ↦
      let later : id_in name ms ≡ some m = rw e at h in
      rw (other_number _ _ (id_in-other x.mid m name ms distinct.0 later))
        (name_in-id_in m name ms distinct.1 later)
]

find_method_info-miss :
    (name : List ℕ) (t : ClassInfo) (ts : List ClassInfo)
    → id_in name t.methods ≡ none
    → find_method_info name (t ∷ ts) ≡ find_method_info name ts
unfolding find_method_info
find_method_info-miss name t ts e = rw (e, find_method_info) refl

find_method_info-hit :
    (name : List ℕ) (t : ClassInfo) (ts : List ClassInfo) (m : ℕ)
    → id_in name t.methods ≡ some m
    → find_method_info name (t ∷ ts) ≡ some (t.cid, m)
unfolding find_method_info
find_method_info-hit name t ts m e = rw (e, find_method_info) refl

find_method_info-other :
    (n class_id m : ℕ) (name : List ℕ) (ts : List ClassInfo)
    → HasOtherClass n ts
    → find_method_info name ts ≡ some (class_id, m)
    → (class_id == n) ≡ false
unfolding find_method_info
find_method_info-other n class_id m name [] other h = absurd (cc)
find_method_info-other n class_id m name (t ∷ ts) other h =
    elim (Option-cases (id_in name t.methods)) [
      | inl e ↦
          find_method_info-other n class_id m name ts other.1
            (sym (find_method_info-miss name t ts e) ∙ h)
      | inr (m', e) ↦
          let same : t.cid ≡ class_id =
            ap (λ p. p.0) (some_injective (sym (find_method_info-hit name t ts m' e) ∙ h)) in
          rw (← same) other.0
    ]

-- In a table whose classes have different numbers, and whose methods of a class have different
-- numbers, the class and the method that FindMethodInfo gives for a name have this name for
-- FindMethodName.
pub find_method_name-find_method_info :
    (class_id m : ℕ) (name : List ℕ) (ts : List ClassInfo)
    → IsTable ts
    → find_method_info name ts ≡ some (class_id, m)
    → find_method_name class_id m ts ≡ some name
unfolding find_method_info find_method_name IsTable
find_method_name-find_method_info class_id m name [] table h = absurd (cc)
find_method_name-find_method_info class_id m name (t ∷ ts) table h =
    elim (Option-cases (id_in name t.methods)) [
      | inl e ↦
          let later : find_method_info name ts ≡ some (class_id, m) =
            sym (find_method_info-miss name t ts e) ∙ h in
          rw (other_number _ _ (find_method_info-other t.cid class_id m name ts table.1 later))
            (find_method_name-find_method_info class_id m name ts table.2 later)
      | inr (m', e) ↦
          let found = some_injective (sym (find_method_info-hit name t ts m' e) ∙ h) in
          let same : t.cid ≡ class_id = ap (λ p. p.0) found in
          let same' : m' ≡ m = ap (λ p. p.1) found in
          rw (← same, same_number t.cid, ← same', name_in-id_in m' name t.methods table.0 e) refl
    ]

-- The first of the two that is there.
abbrev pub or_else {ℓ} : {A : Type ℓ} → Option A → Option A → Option A
or_else none y = y
or_else (some x) y = some x

or_none {ℓ} : {A : Type ℓ} (x : Option A) → x ≡ or_else x none
or_none none = refl
or_none (some x) = refl

find_method_name-one :
    (class_id m : ℕ) (t : ClassInfo)
    → find_method_name class_id m (t ∷ [])
      ≡ (if t.cid == class_id then name_in m t.methods else none)
unfolding find_method_name
find_method_name-one class_id m t = elim (Bool-cases (t.cid == class_id)) [
  | inl e ↦ elim (Option-cases (name_in m t.methods)) [
    | inl k ↦ rw (e, k) refl
    | inr (n, k) ↦ rw (e, k) refl
  ]
  | inr e ↦ rw e refl
]

find_method_name-append :
    (class_id m : ℕ) (ts : List ClassInfo) (t : ClassInfo)
    → find_method_name class_id m (ts ++ t ∷ [])
      ≡ or_else (find_method_name class_id m ts) (find_method_name class_id m (t ∷ []))
unfolding find_method_name
find_method_name-append class_id m [] t = refl
find_method_name-append class_id m (u ∷ ts) t = elim (Bool-cases (u.cid == class_id)) [
  | inl e ↦ elim (Option-cases (name_in m u.methods)) [
    | inl k ↦ rw (e, k) (find_method_name-append class_id m ts t)
    | inr (n, k) ↦ rw (e, k) refl
  ]
  | inr e ↦ rw e (find_method_name-append class_id m ts t)
]

-- AddMethodInfo keeps every name that FindMethodName gives, and adds those of the new class where
-- there was none.
pub find_method_name-add_method_info :
    (cid : ℕ) (ms : List MethodInfo) (ts : List ClassInfo) (class_id m : ℕ)
    → find_method_name class_id m (add_method_info cid ms ts)
      ≡ or_else (find_method_name class_id m ts) (if cid == class_id then name_in m ms else none)
unfolding name_in add_method_info
find_method_name-add_method_info cid [] ts class_id m = elim (Bool-cases (cid == class_id)) [
  | inl e ↦ rw e (or_none (find_method_name class_id m ts))
  | inr e ↦ rw e (or_none (find_method_name class_id m ts))
]
find_method_name-add_method_info cid (x ∷ ms) ts class_id m =
    find_method_name-append class_id m ts (record { cid = cid; methods = x ∷ ms })
    ∙ ap (or_else (find_method_name class_id m ts))
        (find_method_name-one class_id m (record { cid = cid; methods = x ∷ ms }))
