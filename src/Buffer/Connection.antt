-- ===== src/Buffer/Connection.antt =====
-- The side of a connection that a buffer reads from: pop_combox::Recv (include/core/pop_combox.h) is
-- virtual, and one call may deliver fewer bytes than are asked for. The loops that call it again
-- until all are there are those of pop_buffer_raw::Recv and pop_buffer_xdr::Recv.
use pop_cpp.Base.{
  ℕ, zero, suc, ◌-◌, ◌≤◌, ◌<◌, ◌≡◌, ◌≢◌, refl, sym, ap, List, [], ◌∷◌, ◌++◌, length, length-append,
  Option, none, some, arith, Option-cases, inl, inr,
}

-- `recv n st` is one call of Recv for `n` bytes: none, if it returns 0 or less.
pub record ComboxReader : Type 1 where
  pub State : Type 0
  pub recv : ℕ → State → Option (List ℕ × State)

-- A working combox: it hands out the bytes under way in order, at least one and at most as many
-- as are asked for.
pub record ComboxLaws (c : ComboxReader) : Type 1 where
  pub Delivers : c.State → List ℕ → Type 0
  pub progress :
      (n : ℕ) (st : c.State) (bytes : List ℕ)
      → 0 < n
      → 0 < length bytes
      → Delivers st bytes
      → (got rest : List ℕ) × (st' : c.State) × (c.recv n st ≡ some (got, st'))
        × (bytes ≡ got ++ rest)
        × (0 < length got)
        × (length got ≤ n)
        × Delivers st' rest

-- `failed` is the early `return false`; `stuck` is no outcome of the code: the fuel ran out.
pub data Received (A : Type 0) : Type 0 where
  done : A → Received A
  failed : Received A
  stuck : Received A

infixl 5 ◌>>=◌
abbrev pub ◌>>=◌ : {A B : Type 0} → Received A → (A → Received B) → Received B
done a >>= f = f a
failed >>= f = failed
stuck >>= f = stuck

-- The bytes of one call in front of those of the calls that follow.
abbrev pub prepend : {S : Type 0} → List ℕ → Received (List ℕ × S) → Received (List ℕ × S)
prepend got (done (bytes, st)) = done (got ++ bytes, st)
prepend got failed = failed
prepend got stuck = stuck

prepend-ne-stuck :
    {S : Type 0} (got : List ℕ) (r : Received (List ℕ × S)) → r ≢ stuck → prepend got r ≢ stuck
prepend-ne-stuck got (done x) k = λ f. cc
prepend-ne-stuck got failed k = λ f. cc
prepend-ne-stuck got stuck k = absurd (k refl)

module _ (c : ComboxReader) where
  -- `while (n) { i = Recv(dat, n); if (i <= 0) return false; n -= i; dat += i; }`
  pub recv_loop : ℕ → ℕ → c.State → Received (List ℕ × c.State)
  recv_loop fuel zero st = done ([], st)
  recv_loop zero (suc n) st = stuck
  recv_loop (suc fuel) (suc n) st = elim (c.recv (suc n) st) [
    | none ↦ failed
    | some (got, st') ↦ prepend got (recv_loop fuel (suc n - length got) st')
  ]

  module _ (fuel n : ℕ) (st : c.State) where
    recv_loop_step :
        (got : List ℕ) (st' : c.State)
        → c.recv (suc n) st ≡ some (got, st')
        → recv_loop (suc fuel) (suc n) st ≡ prepend got (recv_loop fuel (suc n - length got) st')
    unfolding recv_loop
    recv_loop_step got st' e = rw (e, recv_loop)

    recv_loop_done :
        (got tail xs : List ℕ) (st' st'' : c.State)
        → c.recv (suc n) st ≡ some (got, st')
        → recv_loop fuel (suc n - length got) st' ≡ done (tail, st'')
        → xs ≡ got ++ tail
        → recv_loop (suc fuel) (suc n) st ≡ done (xs, st'')
    recv_loop_done got tail xs st' st'' e e' p = rw (recv_loop_step got st' e, e', p)

    recv_loop_fail : c.recv (suc n) st ≡ none → recv_loop (suc fuel) (suc n) st ≡ failed
    unfolding recv_loop
    recv_loop_fail e = rw (e, recv_loop)

  -- As many rounds as bytes are enough, whatever the peer sends, if each call that succeeds
  -- delivers a byte.
  pub recv_loop-ne-stuck :
      ((n : ℕ) (st : c.State) (got : List ℕ) (st' : c.State)
        → 0 < n
        → c.recv n st ≡ some (got, st')
        → 0 < length got)
      → (fuel n : ℕ) (st : c.State) → n ≤ fuel
      → recv_loop fuel n st ≢ stuck
  recv_loop-ne-stuck some_bytes fuel zero st h = unfold recv_loop in λ e. cc
  recv_loop-ne-stuck some_bytes zero (suc n) st h = absurd (omega arith)
  recv_loop-ne-stuck some_bytes (suc fuel) (suc n) st h = elim (Option-cases (c.recv (suc n) st)) [
    | inl e ↦ rw (recv_loop_fail fuel n st e) (λ f. cc)
    | inr ((got, st'), e) ↦
        let rest =
          recv_loop-ne-stuck some_bytes fuel (suc n - length got) st'
            (omega (arith, some_bytes (suc n) _ _ _ (omega arith) e)) in
        rw (recv_loop_step fuel n st got st' e) (prepend-ne-stuck got _ rest)
  ]

-- Where one sequence is cut in two ways, the shorter front is a part of the longer.
split_front :
    (got rest xs more : List ℕ)
    → xs ++ more ≡ got ++ rest
    → length got ≤ length xs
    → (tail : List ℕ) × (xs ≡ got ++ tail) × (rest ≡ tail ++ more)
split_front [] rest xs more e h = (xs, refl, sym e)
split_front (g ∷ got) rest [] more e h = elim h [ ]
split_front (g ∷ got) rest (x ∷ xs) more e h =
    let (tail, p, q) = split_front got rest xs more (cc) (omega arith) in (tail, cc, q)

module _ (c : ComboxReader) (laws : ComboxLaws c) where
  -- However the combox cuts the bytes into pieces, the loop collects exactly the next `n`.
  pub recv_loop_delivered :
      (fuel n : ℕ) (st : c.State) (xs more : List ℕ)
      → length xs ≡ n
      → n ≤ fuel
      → laws.Delivers st (xs ++ more)
      → (st' : c.State) × (recv_loop c fuel n st ≡ done (xs, st')) × laws.Delivers st' more
  recv_loop_delivered fuel zero st [] more len h d = (st, unfold recv_loop in refl, d)
  recv_loop_delivered fuel zero st (x ∷ xs) more len h d = absurd (omega arith)
  recv_loop_delivered zero (suc n) st xs more len h d = absurd (omega arith)
  recv_loop_delivered (suc fuel) (suc n) st xs more len h d =
      let (got, rest, st', e, cut, some_bytes, few, d') =
        laws.progress (suc n) st (xs ++ more) (omega arith) (omega (arith, length-append xs more))
          d in
      let (tail, p, q) = split_front got rest xs more cut (omega arith) in
      let (st'', e', d'') =
        recv_loop_delivered fuel (suc n - length got) st' tail more
          (omega (arith, ap length p, length-append got tail)) (omega arith) (rw q at d') in
      (st'', recv_loop_done c fuel n st got tail xs st' st'' e e' p, d'')
