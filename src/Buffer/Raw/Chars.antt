-- ===== src/Buffer/Raw/Chars.antt =====
-- Arrays of bytes in a buffer: what `pack_chars` writes and `unpack_chars` reads back.
use pop_cpp.Base.{
  ℕ, ◌+◌, ◌-◌, ◌^◌, ◌<◌, ◌≡◌, refl, sym, ap, ◌∙◌, Bool, true, false, List, [], ◌∷◌, ◌++◌, map,
  length, append-nil, append_assoc, replicate, length-replicate, length-append, ok, arith,
}
use pop_cpp.Base.Bytes.{is_positive, wrap32}
use pop_cpp.Buffer.Types.{Buffer}
use pop_cpp.Buffer.Store.{
  write-resize, round4, round4_ge, check_unpack_passes, window_take, Pending, IsSmall, append,
  advance, take_all, length-packed,
}
use pop_cpp.Buffer.Raw.{pack_chars, unpack_chars, bool_byte, byte_bool}

-- What `n` bytes become: filled up to a multiple of 4.
abbrev pub padded : List ℕ → List ℕ
padded [] = []
padded (c ∷ cs) = (c ∷ cs) ++ replicate (round4 (length (c ∷ cs)) - length (c ∷ cs)) 0

pub length-padded : (cs : List ℕ) → 0 < length cs → length (padded cs) ≡ round4 (length cs)
length-padded [] h = absurd (omega arith)
length-padded (c ∷ cs) h = omega (
  arith,
  length-append (c ∷ cs) (replicate (round4 (length (c ∷ cs)) - length (c ∷ cs)) 0),
  length-replicate {A = ℕ} (round4 (length (c ∷ cs)) - length (c ∷ cs)) 0,
  round4_ge (length (c ∷ cs)),
)

pub wrap32-small : (n : ℕ) → n < 2 ^ 31 → wrap32 n ≡ n
wrap32-small n h = omega arith

pub is_positive-true : (n : ℕ) → 0 < n → n < 2 ^ 31 → is_positive n ≡ true
is_positive-true n h k = ground arith

pub pack_chars_lem :
    (cs : List ℕ) (b : Buffer)
    → length cs < 2 ^ 31
    → pack_chars cs (wrap32 (length cs)) b ≡ append b (padded cs)
unfolding pack_chars
pack_chars_lem [] b h =
    ap (λ (v : List ℕ). record b { packeddata = v }) (sym (append-nil b.packeddata))
pack_chars_lem (c ∷ cs) b h =
    rw
      (
        wrap32-small (length (c ∷ cs)) h,
        is_positive-true (length (c ∷ cs)) (omega arith) h,
        take_all (length (c ∷ cs)) (c ∷ cs) (omega arith),
      )
      (ap (λ (v : List ℕ). record b { packeddata = v })
        (write-resize b.packeddata (c ∷ cs) (round4 (length (c ∷ cs)))
          (round4_ge _ (omega arith)).0))

pub unpack_chars_lem :
    (cs : List ℕ) (b : Buffer) (q : List ℕ)
    → length cs < 2 ^ 31
    → Pending b (padded cs ++ q)
    → IsSmall b
    → unpack_chars (wrap32 (length cs)) b ≡ ok (cs, advance b (length (padded cs)))
unfolding unpack_chars
unpack_chars_lem [] b q h p small =
    ap (λ (u : ℕ). ok ([], record b { unpackpos = u })) (omega arith)
unpack_chars_lem (c ∷ cs) b q h p small =
    rw
      (
        wrap32-small (length (c ∷ cs)) h,
        is_positive-true (length (c ∷ cs)) (omega arith) h,
        check_unpack_passes b (c ∷ cs) (fill ++ q) front (length (c ∷ cs)) (omega arith) small,
        window_take b (c ∷ cs) (fill ++ q) front,
      )
      (ap (λ (u : ℕ). ok (c ∷ cs, record b { unpackpos = u })) position)
  where
    fill : List ℕ
    fill = replicate (round4 (length (c ∷ cs)) - length (c ∷ cs)) 0

    front : Pending b ((c ∷ cs) ++ (fill ++ q))
    front = (p.0, p.1 ∙ ap (◌++◌ p.0) (append_assoc (c ∷ cs) fill q), p.2)

    position :
        wrap32 (b.unpackpos + round4 (length (c ∷ cs))) ≡ b.unpackpos + length (padded (c ∷ cs))
    position = omega (arith, length-padded (c ∷ cs), length-packed b (padded (c ∷ cs)) q p)

module _ (cs : List ℕ) (n : ℕ) (b : Buffer) (counted : length cs ≡ n) (h : n < 2 ^ 31) where
  pub pack_memory : pack_chars cs (wrap32 n) b ≡ append b (padded cs)
  pack_memory = rw (← counted) (pack_chars_lem cs b (omega arith))

  pub unpack_memory :
      (q : List ℕ)
      → Pending b (padded cs ++ q)
      → IsSmall b
      → unpack_chars (wrap32 n) b ≡ ok (cs, advance b (length (padded cs)))
  unpack_memory q p small = rw (← counted) (unpack_chars_lem cs b q (omega arith) p small)

pub byte_bool-bool_byte : (bs : List Bool) → map byte_bool (map bool_byte bs) ≡ bs
byte_bool-bool_byte [] = refl
byte_bool-bool_byte (true ∷ bs) = ap (◌∷◌ true) (byte_bool-bool_byte bs)
byte_bool-bool_byte (false ∷ bs) = ap (◌∷◌ false) (byte_bool-bool_byte bs)
