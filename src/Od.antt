-- ===== src/Od.antt =====
-- pop_od: the description of the machine that a parallel object asks for, and its way into a
-- message (lib/core/od.cc, include/core/pop_od.h).
pub mod Laws
pub mod Message
pub mod Url
mod Examples
use pop_cpp.Base.{
  ℕ, ◌+◌, ◌*◌, Bool, true, false, ◌&&◌, List, [], ◌∷◌, length, Result, ok, ◌>>=◌, if◌then◌else◌,
}
use pop_cpp.Base.Bytes.{wrap32, to_size}
use pop_cpp.Base.Floats.{Floats}
use pop_cpp.AccessPoint.{equal_text}
use pop_cpp.Buffer.Types.{Buffer, Item, Shape, Scalar}
use pop_cpp.Buffer.Queue.{BufferClass}
use pop_cpp.Buffer.Text.{numbers, first, pack_int, unpack_int, pack_strings, unpack_strings}

-- The members of pop_od, for builds without OD_DISCONNECT. A `float` is the word that stands for it; an entry of
-- `keys` and the entry of `values` at its index are one attribute.
pub record Od : Type 0 where
  pub mflops : ℕ
  pub min_mflops : ℕ
  pub ram : ℕ
  pub min_ram : ℕ
  pub net : ℕ
  pub min_net : ℕ
  pub time : ℕ
  pub is_manual : Bool
  pub node_value : ℕ
  pub core_value : ℕ
  pub cwd : List ℕ
  pub search_set : Bool
  pub secure_set : Bool
  pub service_set : Bool
  pub max_depth : ℕ
  pub max_size : ℕ
  pub wait_time : ℕ
  pub hostname : List ℕ
  pub hostuser : List ℕ
  pub hostcore : List ℕ
  pub hostarch : List ℕ
  pub batch_system : List ℕ
  pub jobcontact : List ℕ
  pub codefile : List ℕ
  pub platforms : List ℕ
  pub proto : List ℕ
  pub encode : List ℕ
  pub is_local : Bool
  pub attributes : List (List ℕ × List ℕ)

-- `a > b` on floats.
module _ (greater : ℕ → ℕ → Bool) where
  -- What power, memory and bandwidth keep: the greater value first.
  unfoldable pub ordered : ℕ → ℕ → ℕ × ℕ
  ordered require min = if greater min require then (min, require) else (require, min)

  unfoldable pub power : ℕ → ℕ → Od → Od
  power require min od =
      let kept = ordered require min in record od { mflops = kept.0; min_mflops = kept.1 }

  unfoldable pub memory : ℕ → ℕ → Od → Od
  memory require min od =
      let kept = ordered require min in record od { ram = kept.0; min_ram = kept.1 }

  unfoldable pub bandwidth : ℕ → ℕ → Od → Od
  bandwidth require min od =
      let kept = ordered require min in record od { net = kept.0; min_net = kept.1 }

unfoldable pub walltime : ℕ → Od → Od
walltime t od = record od { time = t }

unfoldable pub search : ℕ → ℕ → ℕ → Od → Od
search maxdepth maxsize waittime od = record od {
  search_set = true;
  max_depth = maxdepth;
  max_size = maxsize;
  wait_time = waittime;
}

-- The texts from `url` to `encoding`, in the order of Serialize.
unfoldable pub texts : Od → List (List ℕ)
texts od =
    od.hostname ∷ od.hostuser ∷ od.hostcore ∷ od.hostarch ∷ od.batch_system ∷ od.jobcontact
    ∷ od.codefile ∷ od.platforms ∷ od.proto ∷ od.encode ∷ []

unfoldable pub set_texts : List (List ℕ) → Od → Od
set_texts (a ∷ b ∷ c ∷ d ∷ e ∷ f ∷ g ∷ h ∷ i ∷ j ∷ []) od = record od {
  hostname = a;
  hostuser = b;
  hostcore = c;
  hostarch = d;
  batch_system = e;
  jobcontact = f;
  codefile = g;
  platforms = h;
  proto = i;
  encode = j;
}
set_texts _ od = od

-- A key, its value, the next key and so on.
unfoldable pub flat : List (List ℕ × List ℕ) → List (List ℕ)
flat [] = []
flat (a ∷ ps) = a.0 ∷ a.1 ∷ flat ps

-- setValue for each key and value.
unfoldable pub pairs : List (List ℕ) → List (List ℕ × List ℕ)
pairs [] = []
pairs (k ∷ []) = []
pairs (k ∷ v ∷ rest) = (k, v) ∷ pairs rest

abbrev pub second : List ℕ → ℕ
second (x ∷ y ∷ xs) = y
second _ = 0

abbrev pub third : List ℕ → ℕ
third (x ∷ y ∷ z ∷ xs) = z
third _ = 0

abbrev pub head : List (List ℕ) → List ℕ
head [] = []
head (s ∷ ss) = s

module _ (c : BufferClass) where
  abbrev pub pack_floats : List ℕ → Buffer → Result Buffer
  pack_floats xs b = c.pack (Item.scalars Scalar.float xs) b

  abbrev pub unpack_list : Scalar → ℕ → Buffer → Result (List ℕ × Buffer)
  unpack_list s n b = c.unpack (Shape.scalars s n) b >>= λ r. ok (numbers r.0, r.1)

  -- Serialize(buf, true)
  unfoldable pub pack_od : Od → Buffer → Result Buffer
  pack_od od b = pack_floats (od.mflops ∷ od.min_mflops ∷ []) b >>= λ b.
      pack_floats (od.ram ∷ od.min_ram ∷ []) b >>= λ b.
      pack_floats (od.net ∷ od.min_net ∷ []) b >>= λ b. pack_floats (od.time ∷ []) b >>= λ b.
      pack_int c (if od.is_manual then 1 else 0) b >>= λ b. pack_strings c (od.cwd ∷ []) b >>= λ b.
      c.pack (Item.scalars Scalar.int (od.max_depth ∷ od.max_size ∷ od.wait_time ∷ [])) b >>= λ b.
      pack_strings c (texts od) b >>= λ b.
      pack_int c (wrap32 (length od.attributes)) b >>= λ b. pack_strings c (flat od.attributes) b

  -- Serialize(buf, false): `manual` is read and dropped.
  unfoldable pub unpack_od : (ℕ → ℕ → Bool) → Od → Buffer → Result (Od × Buffer)
  unpack_od greater old b = unpack_list Scalar.float 2 b >>= λ p.
      unpack_list Scalar.float 2 p.1 >>= λ m. unpack_list Scalar.float 2 m.1 >>= λ n.
      unpack_list Scalar.float 1 n.1 >>= λ t. unpack_int c t.1 >>= λ manual.
      unpack_strings c 1 manual.1 >>= λ dir. unpack_list Scalar.int 3 dir.1 >>= λ s.
      unpack_strings c 10 s.1 >>= λ texts. unpack_int c texts.1 >>= λ count.
      unpack_strings c (2 * to_size count.0) count.1 >>= λ all.
      let demands = power greater (first p.0) (second p.0) (
        memory greater (first m.0) (second m.0)
          (bandwidth greater (first n.0) (second n.0) (walltime (first t.0) old))) in
      let found =
        search (first s.0) (second s.0) (third s.0) (record demands { cwd = head dir.0 }) in
      ok (record (set_texts texts.0 found) { attributes = pairs all.0 }, all.1)

-- IsEmpty
unfoldable pub is_empty : Floats → Od → Bool
is_empty f od =
    f.less od.mflops f.nought
    && f.less od.min_mflops f.nought
    && f.less od.ram f.nought
    && f.less od.min_ram f.nought
    && f.less od.net f.nought
    && f.less od.min_net f.nought
    && f.less od.time f.nought
    && equal_text od.hostname []
