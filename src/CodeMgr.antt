-- ===== src/CodeMgr.antt =====
-- The service that knows the executables of parallel objects (services/lib/codemgr.cc,
-- services/lib/codemgr.ph). A text has no character 0, so that c_str() is the whole of it.
pub mod Laws
mod Examples
use pop_cpp.Base.{
  ℕ, Bool, true, false, List, [], ◌∷◌, ◌++◌, length, Option, none, some, Result, ok, err, thrown,
  leb, ◌||◌, and_then, if◌then◌else◌,
}
use pop_cpp.AccessPoint.{equal_text}
use pop_cpp.Exception.Codes.{unknown_exception}
use pop_cpp.Search.Wildcard.{match_wildcard}

pub record Code : Type 0 where
  pub platform : List ℕ
  pub codefile : List ℕ

pub record CodeDb : Type 0 where
  pub objname : List ℕ
  pub platforms : List Code

abbrev pub code_max_string_size : ℕ
code_max_string_size = 1024

abbrev pub is_long : List ℕ → Bool
is_long s = leb code_max_string_size (length s)

-- An entry of this platform is changed, or one is added at the end.
unfoldable pub set_code : Code → List Code → List Code
set_code t [] = t ∷ []
set_code t (u ∷ us) =
    let later = set_code t us in if equal_text t.platform u.platform then t ∷ us else u ∷ later

-- The entry of the object, or a new one at the end, is given the code file.
unfoldable pub register : List ℕ → Code → List CodeDb → List CodeDb
register objname t [] = record { objname = objname; platforms = set_code t [] } ∷ []
register objname t (x ∷ xs) =
    let later = register objname t xs in
    if equal_text objname x.objname
    then record x { platforms = set_code t x.platforms } ∷ xs
    else x ∷ later

unfoldable pub register_code : List ℕ → List ℕ → List ℕ → List CodeDb → Result (List CodeDb)
register_code objname platform codefile info =
    if is_long objname || (is_long platform || is_long codefile)
    then err (thrown unknown_exception)
    else ok (register objname (record { platform = platform; codefile = codefile }) info)

-- The first entry of this object.
unfoldable pub element : List ℕ → List CodeDb → Option (List Code)
element objname [] = none
element objname (x ∷ xs) =
    let later = element objname xs in
    if equal_text objname x.objname then some x.platforms else later

-- The first entry whose platform, with its wildcards, the platform asked for matches.
unfoldable pub code_for : List ℕ → List Code → Option (List ℕ)
code_for platform [] = none
code_for platform (t ∷ ts) =
    let later = code_for platform ts in
    if match_wildcard platform t.platform then some t.codefile else later

-- No code file is an answer of 0 with an empty text.
unfoldable pub query_code : List ℕ → List ℕ → List CodeDb → Option (List ℕ)
query_code objname platform info = and_then (element objname info) (code_for platform)
