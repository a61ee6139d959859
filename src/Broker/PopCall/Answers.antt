-- ===== src/Broker/PopCall/Answers.antt =====
-- PopCall gives the expected answers.
use pop_cpp.Base.{
  ℕ, zero, suc, ◌^◌, ◌<◌, ◌≡◌, refl, sym, ap, ◌∙◌, Bool, true, false, not, ◌||◌, List, [], ◌∷◌,
  ◌++◌, append-nil, Option, none, some, Result, ok, ◌==◌, Bool-cases, inl, inr, if◌then◌else◌,
  arith,
}
use pop_cpp.AccessPoint.{equal_text}
use pop_cpp.AccessPoint.Texts.{equal_text_refl, equal_text-true}
use pop_cpp.Buffer.Types.{Buffer, MessageHeader, Item, Scalar}
use pop_cpp.Buffer.Store.{IsSmall}
use pop_cpp.Buffer.Header.{request_header, response_header, assign}
use pop_cpp.Buffer.Queue.{BufferClass, BufferLaws}
use pop_cpp.Buffer.Text.Laws.{
  IsText, Adds, strings_items, pack_int-Adds, pack_strings-Adds, unpack_strings-Takes,
}
use pop_cpp.Exception.Codes.{codes}
use pop_cpp.Broker.{Request, is_sync, invoke_sync}
use pop_cpp.Broker.Threads.{increment, decrement}
use pop_cpp.Broker.PopCall.{
  Object, add_ref, dec_ref, find_factory, encoding_list, Site, Outcome, refuses, accepts, exits,
  blank, response, send, bind_status, ref_call, negotiate, negotiated, kill, object_alive, pop_call,
}
use pop_cpp.Broker.PopCall.Expected.{
  Answer, refused, done, ended, joined, IsChosen, is_active, answered, named_response, bind_header,
  one_bool, counted, chosen, killed, alive, expected, IsSite,
}

differs : (s name : List ℕ) → equal_text s name ≡ false → ¬ (s ≡ name)
differs s name n e = let same = rw e at n in let refl_name = equal_text_refl name in absurd (cc)

IsChosen-cons :
    (s name : List ℕ) (ss : List (List ℕ)) (found : Option ℕ)
    → ¬ (s ≡ name)
    → IsChosen name ss found
    → IsChosen name (s ∷ ss) (elim found [ none ↦ none | some i ↦ some (suc i) ])
IsChosen-cons s name ss none n all = (n, all)
IsChosen-cons s name ss (some i) n (before, after, e, k, all) =
    (s ∷ before, after, ap (◌∷◌ s) e, ap suc k, (n, all))

-- FindFactory finds the first encoding of this name.
find_factory-IsChosen :
    (name : List ℕ) (ss : List (List ℕ)) → IsChosen name ss (find_factory name ss)
unfolding find_factory
find_factory-IsChosen name [] = tt
find_factory-IsChosen name (s ∷ ss) = elim (Bool-cases (equal_text s name)) [
  | inl e ↦ rw e ([], ss, ap (λ t. t ∷ ss) (equal_text-true s name e), refl, tt)
  | inr n ↦ rw n (
      IsChosen-cons s name ss (find_factory name ss) (differs s name n)
        (find_factory-IsChosen name ss))
]

encoding_list-joined : (ss : List (List ℕ)) → encoding_list ss ≡ joined ss
unfolding encoding_list
encoding_list-joined [] = refl
encoding_list-joined (s ∷ []) = sym (append-nil s)
encoding_list-joined (s ∷ t ∷ ss) = ap (λ u. s ++ 32 ∷ u) (encoding_list-joined (t ∷ ss))

is_active_lem : (m n : ℕ) → (not (m == 0) || not (n == 0)) ≡ is_active m n
is_active_lem zero zero = refl
is_active_lem zero (suc n) = ground arith
is_active_lem (suc m) n = ground arith

module _ (c : BufferClass) (laws : BufferLaws c) (storage : MessageHeader) (site : Site) where
  -- The outcome stands for the answer: the buffer that is sent has its header and holds its items.
  abbrev pub Promise : Answer → Result Outcome → Type 0
  Promise refused x = x ≡ ok refuses
  Promise (done o f none) x = x ≡ ok (accepts o f none)
  Promise (done o f (some (h, items))) x =
      (b : Buffer) × (x ≡ ok (accepts o f (some b))) × (b.header ≡ h) × laws.Holds b items
  Promise ended x = x ≡ ok exits

  -- The answer to BindStatus.
  abbrev pub binding_items : List Item
  binding_items =
      Item.scalars Scalar.int (0 ∷ []) ∷ strings_items c laws (site.platform ∷ [])
      ++ strings_items c laws (joined site.factories ∷ [])

  moved_header :
      (h : MessageHeader) (b : Buffer) → laws.Holds (record (c.reset b) { header = h }) []
  moved_header h b =
      laws.Holds-moved (c.reset b) _ [] (laws.reset-Holds b) (laws.reset_position b)
        (laws.reset_position b) (omega (arith, laws.reset_size b)) refl

  -- Reset keeps the header, and operator= sets the type and the name.
  response_lem :
      (r : Request) (name : List ℕ)
      → (blank c storage site (response c storage site name) r.buf).header
        ≡ named_response site r name
  unfolding assign response_header
  response_lem r name =
      ap (λ (h : MessageHeader). record h { type = 1; method_name = some name })
        (laws.reset_header r.buf)

  send-Promise :
      (r : Request) (o : Option Object) (f : ℕ) (h : MessageHeader) (items : List Item) (b : Buffer)
      (x : Result Buffer)
      → b.header ≡ h
      → Adds c laws [] items b x
      → Promise
          (answered site r o f h items)
          (if is_sync r then send c storage site o f x else ok (accepts o f none))
  send-Promise r o f h items b x k (b', e, holds, g) = elim (Bool-cases (is_sync r)) [
    | inl s ↦ rw s (b', rw e refl, g.same_header ∙ k, holds)
    | inr s ↦ rw s refl
  ]

  ref_call-Promise :
      (r : Request) (count : Object → Object) (next : ℕ → ℕ) (name : List ℕ) (obj : Option Object)
      → site.obj ≡ obj
      → ((o : Object) → count o ≡ record o { refcount = next o.refcount })
      → ((n : ℕ) → next n < 2 ^ 32)
      → Promise (counted site r name next obj) (ref_call c storage site count name r)
  unfolding ref_call
  ref_call-Promise r count next name none e same word = rw e refl
  ref_call-Promise r count next name (some o) e same word =
      rw (e, same o)
        (send-Promise r _ site.factory _ _ _ _ (response_lem r name)
          (pack_int-Adds c laws [] (next o.refcount) _ (word o.refcount) (moved_header _ r.buf)))

  bool-Promise :
      (r : Request) (o : Option Object) (f : ℕ) (h : MessageHeader) (v : Bool) (b : Buffer)
      → b.header ≡ h
      → laws.Holds b []
      → Promise (answered site r o f h (one_bool site r v)) (
          if is_sync r
          then send c storage site o f (c.pack (Item.bools (v ∷ [])) b)
          else ok (accepts o f none))
  bool-Promise r o f h v b k holds =
      send-Promise r o f h _ _ _ k (laws.pack-Holds _ b [] (laws.Fits-bool v) holds)

  bind_status-Promise :
      (r : Request)
      → IsSite site
      → Promise
          (answered site r site.obj site.factory (bind_header site r) binding_items)
          (bind_status c storage site r)
  unfolding bind_status assign request_header
  bind_status-Promise r v =
      let (b₁, e₁, h₁, g₁) =
        pack_int-Adds c laws [] 0
          (blank c storage site (request_header storage 0 0 invoke_sync (some (codes "BindStatus")))
            r.buf)
          (omega arith) (moved_header _ r.buf) in
      let (b₂, e₂, h₂, g₂) =
        pack_strings-Adds c laws _ (site.platform ∷ []) b₁ (v.platform_text, tt) h₁ in
      let (b₃, e₃, h₃, g₃) =
        pack_strings-Adds c laws _ (joined site.factories ∷ []) b₂ (v.encodings_text, tt) h₂ in
      let old =
        ap
          (λ (h : MessageHeader). record h {
            type = 0;
            class_id = 0;
            method_id = 0;
            semantics = 1;
            method_name = some (codes "BindStatus");
          })
          (laws.reset_header r.buf) in
      elim (Bool-cases (is_sync r)) [
        | inl s ↦ rw s (
          b₃,
          rw (encoding_list-joined site.factories, e₁, e₂, e₃) refl,
          g₃.same_header ∙ g₂.same_header ∙ g₁.same_header ∙ old,
          h₃,
        )
        | inr s ↦ rw s refl
      ]

  -- The header is set before the buffer is reset.
  encoding_header :
      (r : Request) (b : Buffer)
      → b.header ≡ r.buf.header
      → (c.reset (record b {
        header = assign b.header (response c storage site (codes "Encoding"));
      })).header
        ≡ named_response site r (codes "Encoding")
  unfolding assign response_header
  encoding_header r b e =
      laws.reset_header _
      ∙ ap (λ (h : MessageHeader). record h { type = 1; method_name = some (codes "Encoding") }) e

  negotiated-Promise :
      (r : Request) (found : Option ℕ) (b : Buffer)
      → b.header ≡ r.buf.header
      → Promise (chosen site r found) (negotiated c storage site found r b)
  negotiated-Promise r none b e =
      bool-Promise r site.obj site.factory _ false _ (encoding_header r b e) (laws.reset-Holds _)
  negotiated-Promise r (some i) b e =
      bool-Promise r site.obj i _ true _ (encoding_header r b e) (laws.reset-Holds _)

  negotiate-Promise :
      (r : Request) (name : List ℕ)
      → IsText name
      → IsSmall r.buf
      → laws.Holds r.buf (strings_items c laws (name ∷ []))
      → Promise (chosen site r (find_factory name site.factories)) (negotiate c storage site r)
  unfolding negotiate
  negotiate-Promise r name t small h =
      let (b, e, _, _, k) =
        unpack_strings-Takes c laws (name ∷ []) [] r.buf (t, tt) small (rw append-nil h) in
      rw e (negotiated-Promise r (find_factory name site.factories) b k)

  kill-Promise :
      (r : Request) (obj : Option Object)
      → site.obj ≡ obj
      → Promise (killed site r obj) (kill c storage site)
  unfolding kill
  kill-Promise r none e = rw e refl
  kill-Promise r (some o) e = elim (Bool-cases (Object.can_kill o)) [
    | inl k ↦ rw (e, k) refl
    | inr k ↦ rw (e, k) refl
  ]

  object_alive-Promise :
      (r : Request) (obj : Option Object)
      → site.obj ≡ obj
      → Promise (alive site r obj) (object_alive c storage site r)
  unfolding object_alive
  object_alive-Promise r none e = rw e refl
  object_alive-Promise r (some o) e =
      rw (e, is_active_lem site.instance_count site.queue_size)
        (bool-Promise r (some o) site.factory _ _ _ (response_lem r (codes "ObjectActive"))
          (moved_header _ r.buf))

  call_lem :
      (id : ℕ) (r : Request) (name : List ℕ)
      → r.method_id ≡ id
      → IsSite site
      → (id ≡ 3 → IsText name × IsSmall r.buf × laws.Holds r.buf (strings_items c laws (name ∷ [])))
      → Promise
          (expected site r id (find_factory name site.factories) binding_items)
          (pop_call c storage site r)
  unfolding pop_call
  call_lem zero r name e v named = simp e (bind_status-Promise r v)
  call_lem (suc zero) r name e v named = simp e (
      ref_call-Promise r add_ref increment _ site.obj refl (unfold add_ref in λ o. refl)
        (λ n. omega arith))
  call_lem (suc (suc zero)) r name e v named = simp e (
      ref_call-Promise r dec_ref decrement _ site.obj refl (unfold dec_ref in λ o. refl)
        (λ n. omega arith))
  call_lem (suc (suc (suc zero))) r name e v named =
      let (t, small, h) = named refl in simp e (negotiate-Promise r name t small h)
  call_lem (suc (suc (suc (suc zero)))) r name e v named = simp e (kill-Promise r site.obj refl)
  call_lem (suc (suc (suc (suc (suc zero))))) r name e v named =
      simp e (object_alive-Promise r site.obj refl)
  call_lem (suc (suc (suc (suc (suc (suc n)))))) r name e v named = ground (arith, e)

  -- PopCall does what is expected of the six calls, and refuses every other: it counts the
  -- references, chooses the encoding of the connection by its name, and sends back the expected
  -- header and items for a synchronous call only. The chosen encoding is the first of the name that
  -- was asked for, and if there is none the encoding stays. The texts of the site can be sent, and
  -- the buffer of a call that negotiates an encoding (less than 2 ^ 31 bytes) holds its name.
  pub pop_call_lem :
      (r : Request) (name : List ℕ)
      → IsSite site
      → (r.method_id ≡ 3
          → IsText name × IsSmall r.buf × laws.Holds r.buf (strings_items c laws (name ∷ [])))
      → (found : Option ℕ) × IsChosen name site.factories found
        × Promise (expected site r r.method_id found binding_items) (pop_call c storage site r)
  pop_call_lem r name v named = (
    find_factory name site.factories,
    find_factory-IsChosen name site.factories,
    call_lem r.method_id r name refl v named,
  )
