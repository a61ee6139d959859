-- ===== src/Buffer/Text/Chain.antt =====
-- Writers and readers of a buffer one after another.
use pop_cpp.Base.{◌∙◌, List, ◌++◌, append_assoc, Result, ◌>>=◌}
use pop_cpp.Buffer.Types.{Buffer, Item}
use pop_cpp.Buffer.Store.{IsSmall}
use pop_cpp.Buffer.Queue.{BufferClass, BufferLaws, Grows-trans}
use pop_cpp.Buffer.Text.Laws.{Adds, Takes}

module _ (c : BufferClass) (laws : BufferLaws c) where
  -- One writer after another.
  pub chain-Adds :
      (xs is js : List Item) {b : Buffer} {x : Result Buffer} {f : Buffer → Result Buffer}
      → Adds c laws xs is b x
      → ((b' : Buffer) → laws.Holds b' (xs ++ is) → Adds c laws (xs ++ is) js b' (f b'))
      → Adds c laws xs (is ++ js) b (x >>= f)
  chain-Adds xs is js (b', e, h, g) next =
      let (b'', e', h', g') = next b' h in (b'', rw e e', rw append_assoc at h', Grows-trans g g')

  -- One reader after another.
  pub chain-Takes :
      {A B : Type 0} {a : A} {z : B} {rest rest' : List Item} {x : Result (A × Buffer)} (b : Buffer)
      (f : A × Buffer → Result (B × Buffer))
      → IsSmall b
      → Takes c laws a rest b x
      → ((b' : Buffer) → IsSmall b' → laws.Holds b' rest → Takes c laws z rest' b' (f (a, b')))
      → Takes c laws z rest' b (x >>= f)
  chain-Takes b f small (b', e, h, same, k) next =
      let (b'', e', h', same', k') = next b' (rw same small) h in
      (b'', rw e e', h', same' ∙ same, k' ∙ k)
