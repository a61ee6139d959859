-- ===== src/JobMgr/Pause.antt =====
-- The applications that a JobMgr is asked to pause: Pause and CheckPauseList
-- (services/lib/jobmgr.cc).
use pop_cpp.Base.{
  ℕ, zero, suc, ◌≡◌, refl, sym, ◌<◌, Bool, true, false, Bool-cases, inl, inr, List, [], ◌∷◌, ◌++◌,
  length, Option, none, some, ◌||◌, if◌then◌else◌, arith,
}
use mathlib.Core.Path.{subst}
use pop_cpp.Base.Floats.{Floats}
use pop_cpp.AccessPoint.{AccessPoint, equal_text}

pub record PauseInfo : Type 0 where
  pub until_time : ℕ
  pub app : AccessPoint

module _ (f : Floats) where
  unfoldable pub pause : ℕ → ℕ → AccessPoint → List PauseInfo → List PauseInfo
  pause now duration app pause_apps =
      pause_apps ++ record { until_time = f.add now duration; app = app } ∷ []

  -- `t.app.IsEmpty() || t.app == app`
  abbrev pub pauses : AccessPoint → PauseInfo → Bool
  pauses app t = equal_text t.app.endpoint [] || equal_text t.app.endpoint app.endpoint

  -- One turn of the loop: the entries left, or the answer.
  abbrev pub Turn : Type 0
  Turn = List PauseInfo × Option Bool

  unfoldable pub turn : ℕ → AccessPoint → List PauseInfo → Turn
  turn now app [] = ([], some false)
  turn now app (t ∷ ts) =
      if f.less t.until_time now
      then (ts, none)
      else if pauses app t
      then (t ∷ ts, some true)
      else (t ∷ ts, none)

  -- The loop for a number of turns; none if it has not ended by then. The iterator stands at the
  -- first entry from the start to the end.
  abbrev pub go_on {ℓ} :
      {A : Type ℓ} → (List PauseInfo → A) → (List PauseInfo → Bool → A) → Turn → A
  go_on more stop (ts, none) = more ts
  go_on more stop (ts, some b) = stop ts b

  unfoldable pub check_pause_list :
      ℕ → ℕ → AccessPoint → List PauseInfo → Option (Bool × List PauseInfo)
  check_pause_list zero now app pause_apps = none
  check_pause_list (suc turns) now app pause_apps =
      go_on (check_pause_list turns now app) (λ ts b. some (b, ts)) (turn now app pause_apps)

  -- The entry at which the loop stays: the first that has not run out.
  unfoldable pub live : ℕ → List PauseInfo → List PauseInfo
  live now [] = []
  live now (t ∷ ts) = let later = live now ts in if f.less t.until_time now then later else t ∷ ts

  -- What the loop decides, from the first live entry.
  abbrev pub decision : AccessPoint → List PauseInfo → Option (Bool × List PauseInfo)
  decision app [] = some (false, [])
  decision app (t ∷ ts) = if pauses app t then some (true, t ∷ ts) else none

  stays :
      (turns now : ℕ) (app : AccessPoint) (t : PauseInfo) (ts : List PauseInfo)
      → f.less t.until_time now ≡ false
      → pauses app t ≡ false
      → check_pause_list turns now app (t ∷ ts) ≡ none
  unfolding check_pause_list turn
  stays zero now app t ts e q = refl
  stays (suc n) now app t ts e q = rw (e, q) (stays n now app t ts e q)

  -- Entries that have run out are erased, one a turn, until the loop is at the first live entry.
  -- It ends there if there is none (the answer is no) or if that entry is of this application or of
  -- all (the answer is yes).
  pub check_pause_list-live :
      (turns now : ℕ) (app : AccessPoint) (pause_apps : List PauseInfo)
      → length pause_apps < turns
      → check_pause_list turns now app pause_apps ≡ decision app (live now pause_apps)
  unfolding check_pause_list turn live
  check_pause_list-live zero now app ts h = absurd (omega arith)
  check_pause_list-live (suc n) now app [] h = refl
  check_pause_list-live (suc n) now app (t ∷ ts) h = elim (Bool-cases (f.less t.until_time now)) [
    | inl e ↦ rw e (check_pause_list-live n now app ts (omega arith))
    | inr e ↦ rw e (elim (Bool-cases (pauses app t)) [
      | inl p ↦ rw p refl
      | inr q ↦ rw q (stays n now app t ts e q)
    ])
  ]

  -- If the first live entry is of another application, CheckPauseList never ends.
  pub check_pause_list-stuck :
      (turns now : ℕ) (app : AccessPoint) (pause_apps : List PauseInfo) (t : PauseInfo)
      (ts : List PauseInfo)
      → live now pause_apps ≡ t ∷ ts
      → pauses app t ≡ false
      → check_pause_list turns now app pause_apps ≡ none
  unfolding check_pause_list turn live
  check_pause_list-stuck zero now app us t ts e q = refl
  check_pause_list-stuck (suc n) now app [] t ts e q = absurd (cc)
  check_pause_list-stuck (suc n) now app (u ∷ us) t ts e q =
      elim (Bool-cases (f.less u.until_time now)) [
        | inl y ↦ rw y (check_pause_list-stuck n now app us t ts (rw y at e) q)
        | inr z ↦
            let whole : u ∷ us ≡ t ∷ ts = rw z at e in
            let first : u ≡ t = cc in
            let other = subst (λ v. pauses app v ≡ false) (sym first) q in
            rw (z, other) (stays n now app u us z other)
      ]
