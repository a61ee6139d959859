-- ===== src/CodeMgr/Examples.antt =====
-- The theorem on a CodeMgr at a concrete input.
use pop_cpp.Base.{◌≡◌, refl, List, [], ◌∷◌, some, ok, inr}
use pop_cpp.Exception.Codes.{codes}
use pop_cpp.Search.Wildcard.{match_wildcard, loop, skip_stars}
use pop_cpp.CodeMgr.{CodeDb, register_code, query_code, element}
use pop_cpp.CodeMgr.Laws.{query_code-register_code}

abbrev known : List CodeDb
known =
    record {
      objname = codes "Matrix";
      platforms = record { platform = codes "win*"; codefile = codes "m.exe" } ∷ [];
    }
    ∷ []

query_code-register_code_example :
    (info' : List CodeDb) × (register_code (codes "Matrix") (codes "linux-*") (codes "m.out") known
      ≡ ok info')
    × (query_code (codes "Matrix") (codes "linux-x64") info' ≡ some (codes "m.out"))
    × (query_code (codes "Other") (codes "linux-x64") info'
        ≡ query_code (codes "Other") (codes "linux-x64") known)
unfolding match_wildcard loop skip_stars element
query_code-register_code_example =
    query_code-register_code (codes "Matrix") (codes "linux-*") (codes "m.out") (codes "linux-x64")
      (codes "Other") (codes "linux-x64") known refl refl refl refl (inr refl, tt) refl
