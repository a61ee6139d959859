-- ===== src/Search/Texts.antt =====
-- strstr, and the tests on texts of lib/dynamic/utils.cc.
use pop_cpp.Base.{
  ℕ, Bool, true, false, List, [], ◌∷◌, Option, none, some, ◌==◌, ◌&&◌, if◌then◌else◌,
}

-- A text begins with another.
unfoldable pub is_prefix : List ℕ → List ℕ → Bool
is_prefix [] ys = true
is_prefix (x ∷ xs) [] = false
is_prefix (x ∷ xs) (y ∷ ys) = (x == y) && is_prefix xs ys

-- strstr: the text from where another is first found in it.
unfoldable pub find_text : List ℕ → List ℕ → Option (List ℕ)
find_text word [] = if is_prefix word [] then some [] else none
find_text word (c ∷ cs) =
    let later = find_text word cs in if is_prefix word (c ∷ cs) then some (c ∷ cs) else later
