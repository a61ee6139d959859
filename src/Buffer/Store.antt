-- ===== src/Buffer/Store.antt =====
-- `std::vector<char>` as the buffers use it, and the test that guards every read
-- (pop_buffer_raw::CheckUnPack and pop_buffer_xdr::CheckUnPack).
use pop_cpp.Base.{
  ℕ, zero, suc, ◌+◌, ◌-◌, ◌*◌, ◌/◌, ◌^◌, ◌≤◌, ◌<◌, ◌≡◌, refl, sym, ap, ◌∙◌, List, [], ◌∷◌, ◌++◌,
  append_assoc, length, length-append, take, drop, replicate, length-replicate, length-take,
  take-append_length, drop-append_length, arith, ltb, if◌then◌else◌, Result, ok, err, buffer_format,
}
use pop_cpp.Base.Bytes.{wrap32, to_size}
use pop_cpp.Buffer.Types.{Buffer}

-- `v.resize(n)`: cut, or filled up with zeros.
unfoldable pub resize : ℕ → List ℕ → List ℕ
resize n v = take n v ++ replicate (n - length v) 0

-- `memcpy(v.data() + t, src, length src)`, inside the vector.
unfoldable pub write : ℕ → List ℕ → List ℕ → List ℕ
write t src v = take t v ++ (src ++ drop (t + length src) v)

-- `((n - 1) / 4 + 1) * 4`, for n > 0.
unfoldable pub round4 : ℕ → ℕ
round4 n = ((n - 1) / 4 + 1) * 4

unfoldable pub check_unpack : ℕ → Buffer → Result (Unit {0})
check_unpack sz b =
    if ltb (length b.packeddata) (to_size (wrap32 (sz + b.unpackpos)))
    then err buffer_format
    else ok tt

-- What has been packed is `front ++ rest`, and the reader stands behind `front`.
abbrev pub Pending : Buffer → List ℕ → Type 0
Pending b rest = (front : List ℕ) × (b.packeddata ≡ front ++ rest) × (length front ≡ b.unpackpos)

abbrev pub append : Buffer → List ℕ → Buffer
append b p = record b { packeddata = b.packeddata ++ p }

abbrev pub advance : Buffer → ℕ → Buffer
advance b n = record b { unpackpos = b.unpackpos + n }

-- An `int` can count the bytes of the buffer.
abbrev pub IsSmall : Buffer → Type 0
IsSmall b = length b.packeddata < 2 ^ 31

pub take_all : (n : ℕ) (v : List ℕ) → length v ≤ n → take n v ≡ v
take_all zero [] h = refl
take_all zero (x ∷ v) h = elim h [ ]
take_all (suc n) [] h = refl
take_all (suc n) (x ∷ v) h = ap (◌∷◌ x) (take_all n v (omega arith))

pub resize-grow : (v : List ℕ) (m : ℕ) → resize (length v + m) v ≡ v ++ replicate m 0
unfolding resize
resize-grow v m =
    rw (take_all (length v + m) v (omega arith)) (ap (λ (k : ℕ). v ++ replicate k 0) (omega arith))

drop_past : (v w : List ℕ) (n : ℕ) → drop (length v + n) (v ++ w) ≡ drop n w
drop_past [] w n = ap (λ (k : ℕ). drop k w) {x = 0 + n} {y = n} (omega arith)
drop_past (x ∷ v) w n =
    ap (λ (k : ℕ). drop k (x ∷ (v ++ w))) {x = suc (length v) + n} {y = suc (length v + n)}
      (omega arith)
    ∙ drop_past v w n

drop-replicate : (n m : ℕ) (x : ℕ) → drop n (replicate m x) ≡ replicate (m - n) x
drop-replicate zero m x = ap (λ (k : ℕ). replicate k x) (omega arith)
drop-replicate (suc n) zero x = ap (λ (k : ℕ). replicate k x) {x = 0} {y = 0 - suc n} (omega arith)
drop-replicate (suc n) (suc m) x =
    drop-replicate n m x
    ∙ ap (λ (k : ℕ). replicate k x) {x = m - n} {y = suc m - suc n} (omega arith)

pub write-resize :
    (v src : List ℕ) (m : ℕ)
    → length src ≤ m
    → write (length v) src (resize (length v + m) v) ≡ v ++ (src ++ replicate (m - length src) 0)
unfolding write
write-resize v src m h = rw (
  resize-grow v m,
  take-append_length v (replicate m 0),
  drop_past v (replicate m 0) (length src),
  drop-replicate (length src) m 0,
)

pub length-resize : (n : ℕ) (v : List ℕ) → length (resize n v) ≡ n
unfolding resize
length-resize n v = omega (
  arith,
  length-append (take n v) (replicate (n - length v) 0),
  length-take n v,
  length-replicate {A = ℕ} (n - length v) 0,
)

module _ (b : Buffer) (p q : List ℕ) (h : Pending b (p ++ q)) where
  -- The bytes from the reading position on.
  pub window : drop b.unpackpos b.packeddata ≡ p ++ q
  window = rw (h.1, ← h.2) (drop-append_length h.0 (p ++ q))

  pub window_take : take (length p) (drop b.unpackpos b.packeddata) ≡ p
  window_take = rw window (take-append_length p q)

  pub length-packed : length b.packeddata ≡ b.unpackpos + length p + length q
  length-packed = omega (arith, ap length h.1, length-append h.0 (p ++ q), length-append p q, h.2)

  -- A read inside what is pending passes the test.
  pub check_unpack_passes : (sz : ℕ) → sz ≤ length p → IsSmall b → check_unpack sz b ≡ ok tt
  unfolding check_unpack
  check_unpack_passes sz le small = ground (arith, length-packed)

  pub Pending-advance : Pending (advance b (length p)) q
  Pending-advance =
      (h.0 ++ p, h.1 ∙ sym (append_assoc h.0 p q), omega (arith, length-append h.0 p, h.2))

-- A read past the end is refused: for every count that an `int` can hold.
pub check_unpack_refuses :
    (sz : ℕ) (b : Buffer)
    → sz < 2 ^ 31
    → b.unpackpos ≤ length b.packeddata
    → IsSmall b
    → length b.packeddata < b.unpackpos + sz
    → check_unpack sz b ≡ err buffer_format
unfolding check_unpack
check_unpack_refuses sz b hs hp small h = ground arith

pub Pending-append :
    (b : Buffer) (rest p : List ℕ) → Pending b rest → Pending (append b p) (rest ++ p)
Pending-append b rest p h = (h.0, ap (λ (v : List ℕ). v ++ p) h.1 ∙ append_assoc h.0 rest p, h.2)

pub round4_ge : (n : ℕ) → 0 < n → (n ≤ round4 n) × (round4 n < n + 4)
unfolding round4
round4_ge n h = (omega arith, omega arith)
