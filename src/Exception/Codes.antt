-- ===== src/Exception/Codes.antt =====
-- Error codes and the text of a pop_exception (lib/core/exception.cc, include/core/pop_exception.h).
use Prim.Native.Char.{Char}
use Prim.Native.Char
use Prim.Native.String.{String}
use pop_cpp.Base.{
  ℕ, zero, suc, ◌+◌, ◌-◌, ◌^◌, ◌<◌, ◌≡◌, refl, List, [], ◌∷◌, ◌++◌, length, Option, none, some,
  arith, ltb, ◌==◌, leb, Bool, true, false, ◌&&◌, Bool-cases, inl, inr, if◌then◌else◌,
}

pub record PopException : Type 0 where
  pub errcode : ℕ
  pub info : List ℕ

-- The bytes of a text.
abbrev pub codes : String → List ℕ
codes String.[] = []
codes (String.◌∷◌ c s) = Char.code c ∷ codes s

abbrev pub user_define_error : ℕ
user_define_error = 10000

abbrev pub unknown_exception : ℕ
unknown_exception = 10017

abbrev pub user_define_lasterror : ℕ
user_define_lasterror = 10017

abbrev pub paroc_errstr : List String
paroc_errstr =
    "Out of resource" ∷ "Fail to bind to the remote object broker" ∷ "Mismatch remote method id"
    ∷ "Can not access code service" ∷ "Object allocation failed" ∷ "No parallel object executable"
    ∷ "Bad paroc package format" ∷ "Local application service failed" ∷ "Job Manager service failed"
    ∷ "Execution of object code failed" ∷ "Bad binding reply" ∷ "No support protocol"
    ∷ "No support data encoding" ∷ "Standard exception" ∷ "Acknowledgement not received"
    ∷ "Network configuration error" ∷ "Unknown exception" ∷ []

abbrev pub get_elem? {ℓ} : {A : Type ℓ} → List A → ℕ → Option A
get_elem? [] i = none
get_elem? (x ∷ xs) zero = some x
get_elem? (x ∷ xs) (suc i) = get_elem? xs i

-- A read outside the table has no value.
abbrev pub entry : ℕ → Option (List ℕ)
entry i = elim (get_elem? paroc_errstr i) [ none ↦ none | some s ↦ some (codes s) ]

-- paroc_errstr[code - USER_DEFINE_ERROR - 1], whose index is negative for a code that is not above
-- USER_DEFINE_ERROR.
abbrev pub text_at : ℕ → Option (List ℕ)
text_at code =
    if leb (user_define_error + 1) code then entry (code - user_define_error - 1) else none

-- `bound <= code` on `int`s, for a bound that is not negative.
abbrev pub at_least : ℕ → ℕ → Bool
at_least bound code = leb bound code && ltb code (2 ^ 31)

-- pop_exception(int code): none stands for a read outside the table. The text that the system has
-- for an error number is a parameter.
unfoldable pub of_code : (ℕ → List ℕ) → ℕ → Option PopException
of_code strerror code =
    if code == unknown_exception
    then some (record { errcode = code; info = [] })
    else if at_least user_define_lasterror code
    then some (record { errcode = code; info = [] })
    else if at_least (user_define_error + 1) code
    then elim (text_at code) [
      | none ↦ none
      | some text ↦ some (record { errcode = code; info = text })
    ]
    else some
        (record { errcode = code; info = (codes "System error(" ++ strerror code) ++ codes ")" })

-- AddInfo
unfoldable pub add_info : List ℕ → PopException → PopException
add_info str e = record e {
  info = if length e.info == 0 then str else (e.info ++ codes ": ") ++ str;
}

-- pop_exception(int, const std::string &, const std::string &)
unfoldable pub of_reasons : (ℕ → List ℕ) → ℕ → List ℕ → List ℕ → Option PopException
of_reasons strerror code reason1 reason2 =
    let add =
      λ (reason : List ℕ) (e : PopException). if length reason == 0 then e else add_info reason e in
    elim (of_code strerror code) [ none ↦ none | some e ↦ some (add reason2 (add reason1 e)) ]

get_elem?-lt {ℓ} :
    {A : Type ℓ} (xs : List A) (i : ℕ) → i < length xs → (x : A) × (get_elem? xs i ≡ some x)
get_elem?-lt [] i h = elim h [ ]
get_elem?-lt (x ∷ xs) zero h = (x, refl)
get_elem?-lt (x ∷ xs) (suc i) h = get_elem?-lt xs i (omega arith)

entry_in_table : (i : ℕ) → i < 17 → (text : List ℕ) × (entry i ≡ some text)
entry_in_table i h = let (s, e) = get_elem?-lt paroc_errstr i h in (codes s, rw e)

index_in_table :
    (code : ℕ)
    → at_least user_define_lasterror code ≡ false
    → at_least (user_define_error + 1) code ≡ true
    → (leb (user_define_error + 1) code ≡ true) × (code - user_define_error - 1 < 17)
index_in_table code h k = (ground arith, ground arith)

text_in_table :
    (code : ℕ)
    → at_least user_define_lasterror code ≡ false
    → at_least (user_define_error + 1) code ≡ true
    → (text : List ℕ) × (text_at code ≡ some text)
text_in_table code h k =
    let (above, small) = index_in_table code h k in
    let (text, e) = entry_in_table _ small in (text, rw (above, e) refl)

-- Every error code has an exception with that code: the table is never read outside its 17 entries.
pub of_code_total :
    (strerror : ℕ → List ℕ) (code : ℕ)
    → (e : PopException) × (of_code strerror code ≡ some e) × (e.errcode ≡ code)
unfolding of_code
of_code_total strerror number = elim (Bool-cases (number == unknown_exception)) [
  | inl p ↦ (record { errcode = number; info = [] }, rw p, refl)
  | inr p ↦ elim (Bool-cases (at_least user_define_lasterror number)) [
    | inl q ↦ (record { errcode = number; info = [] }, rw (p, q), refl)
    | inr q ↦ elim (Bool-cases (at_least (user_define_error + 1) number)) [
      | inl r ↦
          let (text, e) = text_in_table number q r in
          (record { errcode = number; info = text }, rw (p, q, r, e), refl)
      | inr r ↦ (
        record { errcode = number; info = (codes "System error(" ++ strerror number) ++ codes ")" },
        rw (p, q, r),
        refl,
      )
    ]
  ]
]
