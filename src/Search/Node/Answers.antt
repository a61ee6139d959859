-- ===== src/Search/Node/Answers.antt =====
-- What the discovery of a request returns, and what a node remembers.
use pop_cpp.Base.{
  ℕ, ◌≡◌, refl, sym, ap, ◌∙◌, Bool, true, false, Bool-cases, inl, inr, List, [], ◌∷◌, ◌++◌,
  append_assoc, append-nil, ◌||◌, if◌then◌else◌,
}
use mathlib.Core.Path.{subst}
use pop_cpp.AccessPoint.{equal_text}
use pop_cpp.AccessPoint.Texts.{equal_text_refl, equal_text-true}
use pop_cpp.Search.Node.{Info, Place, open_place, callback_result, results_of, close_place}

-- A response: the request that it names, and the info.
abbrev pub Answer : Type 0
Answer = List ℕ × Info

unfoldable pub callbacks : List Answer → List Place → List Place
callbacks [] m = m
callbacks (r ∷ rs) m = callbacks rs (callback_result r.0 r.1 m)

-- The infos of the responses that name a request, in the order in which they have come.
abbrev pub named : List ℕ → List Answer → List Info
named id [] = []
named id (r ∷ rs) = if equal_text r.0 id then r.1 ∷ named id rs else named id rs

abbrev pub has_place : List ℕ → List Place → Bool
has_place id [] = false
has_place id (t ∷ ts) = equal_text t.id id || has_place id ts

results_of-open_place :
    (id : List ℕ) (m : List Place)
    → (results_of id (open_place id m) ≡ []) × (has_place id (open_place id m) ≡ true)
unfolding results_of open_place
results_of-open_place id [] = rw (equal_text_refl id) (refl, refl)
results_of-open_place id (t ∷ ts) = elim (Bool-cases (equal_text t.id id)) [
  | inl y ↦ rw (y, y) (refl, refl)
  | inr n ↦ rw (n, n) (results_of-open_place id ts)
]

-- A response for this request is added at the end.
results_of-callback_result :
    (id : List ℕ) (info : Info) (m : List Place)
    → has_place id m ≡ true
    → (results_of id (callback_result id info m) ≡ results_of id m ++ info ∷ [])
      × (has_place id (callback_result id info m) ≡ true)
unfolding results_of callback_result
results_of-callback_result id info [] h = absurd (cc)
results_of-callback_result id info (t ∷ ts) h = elim (Bool-cases (equal_text t.id id)) [
  | inl y ↦ rw (y, y) (refl, refl)
  | inr n ↦ rw (n, n) (results_of-callback_result id info ts (rw n at h))
]

-- A response for another one changes nothing here.
results_of-other :
    (id other : List ℕ) (info : Info) (m : List Place)
    → equal_text other id ≡ false
    → (results_of id (callback_result other info m) ≡ results_of id m)
      × (has_place id (callback_result other info m) ≡ has_place id m)
unfolding results_of callback_result
results_of-other id other info [] n = (refl, refl)
results_of-other id other info (t ∷ ts) n = elim (Bool-cases (equal_text t.id other)) [
  | inl y ↦
      let same = equal_text-true t.id other y in
      let far = subst (λ k. equal_text k id ≡ false) (sym same) n in rw (y, far) (refl, refl)
  | inr z ↦
      let (e, k) = results_of-other id other info ts n in
      rw z (elim (Bool-cases (equal_text t.id id)) [
        | inl y ↦ rw y (refl, refl)
        | inr x ↦ rw (x, e, k) (refl, refl)
      ])
]

results_of-callbacks :
    (id : List ℕ) (rs : List Answer) (m : List Place)
    → has_place id m ≡ true
    → results_of id (callbacks rs m) ≡ results_of id m ++ named id rs
unfolding callbacks
results_of-callbacks id [] m h = sym (append-nil (results_of id m))
results_of-callbacks id (r ∷ rs) m h = elim (Bool-cases (equal_text r.0 id)) [
  | inl y ↦
      let same = equal_text-true r.0 id y in
      let (e, k) = results_of-callback_result id r.1 m h in
      let next = results_of-callbacks id rs (callback_result id r.1 m) k in
      rw (y, same)
        (next
          ∙ ap (λ (l : List Info). l ++ named id rs) e
          ∙ append_assoc (results_of id m) (r.1 ∷ []) (named id rs))
  | inr n ↦
      let (e, k) = results_of-other id r.0 r.1 m n in
      rw n (
        results_of-callbacks id rs (callback_result r.0 r.1 m) (k ∙ h)
        ∙ ap (λ (l : List Info). l ++ named id rs) e)
]

-- A discovery returns the infos of the responses to its request that come between its start and
-- its end, in the order in which they come, and nothing of other requests.
pub close_place-callbacks :
    (id : List ℕ) (rs : List Answer) (m : List Place)
    → (close_place id (callbacks rs (open_place id m))).0 ≡ named id rs
unfolding close_place
close_place-callbacks id rs m =
    let (e, k) = results_of-open_place id m in
    results_of-callbacks id rs (open_place id m) k ∙ ap (λ (l : List Info). l ++ named id rs) e
