-- ===== src/Buffer/Xdr/Bools.antt =====
-- Arrays of `bool` in the XDR buffer: UnPack(bool *, int) moves the position by 4, whatever the
-- length of the array.
use pop_cpp.Base.{
  ℕ, ◌+◌, ◌-◌, ◌^◌, ◌≤◌, ◌<◌, ◌≡◌, refl, sym, ap, ◌∙◌, Bool, true, false, List, [], ◌∷◌, ◌++◌, map,
  append-nil, append_assoc, length, replicate, length-append, length-map, ok, arith,
}
use pop_cpp.Base.Bytes.{wrap32}
use pop_cpp.Base.Int.{pos, pos_part, negsuc, ◌+ℤ◌, ◌-ℤ◌}
use pop_cpp.Buffer.Types.{Buffer, Item, Shape}
use pop_cpp.Buffer.Store.{
  round4, round4_ge, check_unpack_passes, window, Pending, IsSmall, append, advance, length-packed,
}
use pop_cpp.Buffer.Raw.{bool_byte}
use pop_cpp.Buffer.Raw.Chars.{padded, pack_memory, is_positive-true, length-padded}
use pop_cpp.Buffer.Xdr.{read_bools, loop_step, unpack_bools, pack, unpack}
use pop_cpp.Buffer.Xdr.Library.{XdrLibrary}

-- The loop reads `n` values and leaves -1 in `n`.
pub read_bools_lem :
    (bs : List Bool) (rest : List ℕ)
    → read_bools (length bs) (map bool_byte bs ++ rest) ≡ (bs, negsuc 0)
unfolding read_bools ◌-ℤ◌
read_bools_lem [] rest = refl
read_bools_lem (true ∷ bs) rest = rw (read_bools_lem bs rest)
read_bools_lem (false ∷ bs) rest = rw (read_bools_lem bs rest)

loop_step_done : loop_step (negsuc 0) ≡ pos 4
unfolding loop_step ◌-ℤ◌ ◌+ℤ◌
loop_step_done = refl

position_add : (u : ℕ) → pos_part (pos u +ℤ pos 4) ≡ u + 4
unfolding ◌+ℤ◌
position_add u = ground arith

padded_front :
    (cs q : List ℕ)
    → 0 < length cs
    → padded cs ++ q ≡ cs ++ (replicate (round4 (length cs) - length cs) 0 ++ q)
padded_front [] q h = absurd (omega arith)
padded_front (c ∷ cs) q h = append_assoc (c ∷ cs) _ q

padded_room : (cs : List ℕ) → 0 < length cs → 4 ≤ length (padded cs)
unfolding round4
padded_room cs h = omega (arith, length-padded cs h)

-- For any number of values, the position moves by 4.
pub unpack_bools_lem :
    (bs : List Bool) (b : Buffer) (q : List ℕ)
    → 0 < length bs
    → length bs < 2 ^ 31
    → Pending b (padded (map bool_byte bs) ++ q)
    → IsSmall b
    → unpack_bools (length bs) b ≡ ok (bs, advance b 4)
unfolding unpack_bools
unpack_bools_lem bs b q some_bools h p small =
    rw
      (
        is_positive-true (length bs) some_bools h,
        check_unpack_passes b (padded (map bool_byte bs)) q p (length bs) room small,
        window b (padded (map bool_byte bs)) q p,
        behind,
        read_bools_lem bs (fill ++ q),
        loop_step_done,
      )
      (ap (λ (u : ℕ). ok (bs, record b { unpackpos = u })) position)
  where
    fill : List ℕ
    fill = replicate (round4 (length (map bool_byte bs)) - length (map bool_byte bs)) 0

    behind : padded (map bool_byte bs) ++ q ≡ map bool_byte bs ++ (fill ++ q)
    behind = padded_front (map bool_byte bs) q (omega (arith, length-map bs bool_byte))

    room : length bs ≤ length (padded (map bool_byte bs))
    room = omega (
      arith,
      length-padded (map bool_byte bs),
      length-map bs bool_byte,
      round4_ge (length (map bool_byte bs)),
    )

    position : wrap32 (pos_part (pos b.unpackpos +ℤ pos 4)) ≡ b.unpackpos + 4
    position = ground (
      arith,
      length-packed b (padded (map bool_byte bs)) q p,
      room,
      position_add b.unpackpos,
      padded_room (map bool_byte bs),
      length-map bs bool_byte,
    )

pub unpack_no_bools : (b : Buffer) → unpack_bools 0 b ≡ ok ([], advance b 0)
unfolding unpack_bools
unpack_no_bools b = ap (λ (u : ℕ). ok ([], record b { unpackpos = u })) (omega arith)

pub padded_four : (cs : List ℕ) → 0 < length cs → length cs ≤ 4 → 4 ≡ length (padded cs)
unfolding round4
padded_four cs h k = omega (arith, length-padded cs h)

padded_long : (cs : List ℕ) → 4 < length cs → 8 ≤ length (padded cs)
unfolding round4
padded_long cs h = omega (arith, length-padded cs)

padded_bound : (cs : List ℕ) → 0 < length cs → length (padded cs) < length cs + 4
unfolding round4
padded_bound cs h = omega (arith, length-padded cs)

module _ (lib : XdrLibrary) where
  -- An array of more than four `bool`s that is packed at the end of a read buffer comes back right,
  -- but at least four of its bytes are left before the reading position's end: what is unpacked
  -- next is read from inside the array.
  pub bools_left_over :
      (bs : List Bool) (b : Buffer)
      → 4 < length bs
      → Pending b []
      → length b.packeddata + length bs + 4 < 2 ^ 31
      → (b' b'' : Buffer) × (pack lib (Item.bools bs) b ≡ ok b')
        × (unpack lib (Shape.bools (length bs)) b' ≡ ok (Item.bools bs, b''))
        × (b''.unpackpos + 4 ≤ length b''.packeddata)
  unfolding pack unpack
  bools_left_over bs b long read small = (
    append b image,
    advance (append b image) 4,
    ap ok (pack_memory _ _ b (length-map bs bool_byte) (omega arith)),
    rw (unpack_bools_lem bs (append b image) [] (omega arith) (omega arith) pending short),
    omega (arith, length-packed (append b image) image [] pending, long_image),
  )
    where
      image : List ℕ
      image = padded (map bool_byte bs)

      long_image : 8 ≤ length image
      long_image = padded_long (map bool_byte bs) (omega (arith, length-map bs bool_byte))

      pending : Pending (append b image) (image ++ [])
      pending = (
        read.0,
        ap (λ (v : List ℕ). v ++ image) (read.1 ∙ append-nil read.0)
            ∙ ap (◌++◌ read.0) (sym (append-nil image)),
        read.2,
      )

      short : IsSmall (append b image)
      short = omega (
        arith,
        length-append b.packeddata image,
        padded_bound (map bool_byte bs) (omega (arith, length-map bs bool_byte)),
        length-map bs bool_byte,
      )
