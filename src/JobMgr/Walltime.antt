-- ===== src/JobMgr/Walltime.antt =====
-- The limit of the wall time that a machine is configured with: "days:hours:minutes:seconds" or a
-- shorter form (in Reserve and MatchAndReserve of services/lib/jobmgr.cc).
use pop_cpp.Base.{
  ℕ, zero, suc, ◌+◌, ◌-◌, ◌*◌, Bool, false, List, [], ◌∷◌, ◌++◌, length, Option, none, some, ◌==◌,
  leb, ◌&&◌, ◌||◌, replicate, if◌then◌else◌,
}
use pop_cpp.Base.Int.{ℤ, pos, ◌+ℤ◌, scale, sub_ℕ}

abbrev pub is_space : ℕ → Bool
is_space c = (c == 32) || (leb 9 c && leb c 13)

abbrev pub is_digit : ℕ → Bool
is_digit c = leb 48 c && leb c 57

unfoldable pub skip_spaces : List ℕ → List ℕ
skip_spaces [] = []
skip_spaces (c ∷ cs) = let rest = skip_spaces cs in if is_space c then rest else c ∷ cs

-- The digits at the front, as a number, and what follows; none without a digit.
unfoldable pub digits : ℕ → List ℕ → ℕ × List ℕ
digits n [] = (n, [])
digits n (c ∷ cs) =
    let rest = digits (10 * n + (c - 48)) cs in if is_digit c then rest else (n, c ∷ cs)

abbrev pub starts_with_digit : List ℕ → Bool
starts_with_digit [] = false
starts_with_digit (c ∷ cs) = is_digit c

abbrev pub unsigned : List ℕ → Option (ℕ × List ℕ)
unsigned cs = if starts_with_digit cs then some (digits 0 cs) else none

abbrev pub with_sign : (ℕ → ℤ) → Option (ℕ × List ℕ) → Option (ℤ × List ℕ)
with_sign sign none = none
with_sign sign (some (n, rest)) = some (sign n, rest)

-- %d of sscanf.
unfoldable pub scan_int : List ℕ → Option (ℤ × List ℕ)
scan_int cs = elim (skip_spaces cs) [
  | [] ↦ none
  | (c ∷ rest) ↦
      if c == 45
      then with_sign (sub_ℕ 0) (unsigned rest)
      else if c == 43
      then with_sign pos (unsigned rest)
      else with_sign pos (unsigned (c ∷ rest))
]

-- The numbers that "%d:%d:...", with `n` conversions, stores.
unfoldable pub scan_list : ℕ → List ℕ → List ℤ
scan_list zero cs = []
scan_list (suc n) cs = elim (scan_int cs) [
  | none ↦ []
  | some (x, []) ↦ x ∷ []
  | some (x, (c ∷ rest)) ↦ let more = scan_list n rest in if c == 58 then x ∷ more else x ∷ []
]

-- Shifted to the end of four, with zeros in front.
unfoldable pub four : List ℤ → List ℤ
four xs = replicate (4 - length xs) (pos 0) ++ xs

unfoldable pub in_seconds : List ℤ → ℤ
in_seconds (d ∷ h ∷ m ∷ s ∷ []) = (s +ℤ scale 60 m) +ℤ scale 3600 (h +ℤ scale 24 d)
in_seconds _ = pos 0

-- maxwalltime, or none for a bad expression.
unfoldable pub max_walltime : List ℕ → Option ℤ
max_walltime cs = elim (scan_list 4 cs) [ [] ↦ none | (x ∷ xs) ↦ some (in_seconds (four (x ∷ xs))) ]
