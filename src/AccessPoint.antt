-- ===== src/AccessPoint.antt =====
-- pop_accesspoint: the network address of a parallel object, with the flags that say how it is
-- used (lib/core/accesspoint.cc, include/core/pop_accesspoint.h).
pub mod Laws
pub mod Texts
mod Examples
use pop_cpp.Base.{
  ℕ, Bool, true, false, List, [], ◌∷◌, length, Result, ok, ◌>>=◌, ◌==◌, ◌&&◌, if◌then◌else◌,
}
use pop_cpp.Buffer.Types.{Buffer, Item, Shape}
use pop_cpp.Buffer.Queue.{BufferClass}
use pop_cpp.Buffer.Text.{pack_int, unpack_int, pack_strings, unpack_strings}
use pop_cpp.Exception.{bits, first_bit}

abbrev pub nonsecure : ℕ
nonsecure = 0

abbrev pub secure : ℕ
secure = 1

pub record AccessPoint : Type 0 where
  pub endpoint : List ℕ
  pub security : ℕ
  pub service : Bool
  pub noaddref : Bool

abbrev pub equal_text : List ℕ → List ℕ → Bool
equal_text [] [] = true
equal_text [] (y ∷ ys) = false
equal_text (x ∷ xs) [] = false
equal_text (x ∷ xs) (y ∷ ys) = (x == y) && equal_text xs ys

-- pop_accesspoint(): the text is empty, as a std::string is when it is made.
unfoldable pub new_accesspoint : AccessPoint
new_accesspoint = record { endpoint = []; security = nonsecure; service = false; noaddref = false }

unfoldable pub set_access_string : List ℕ → AccessPoint → AccessPoint
set_access_string hostport a = record a { endpoint = hostport }

unfoldable pub is_empty : AccessPoint → Bool
is_empty a = equal_text a.endpoint []

-- operator==
unfoldable pub same_endpoint : AccessPoint → AccessPoint → Bool
same_endpoint a p = equal_text a.endpoint p.endpoint

unfoldable pub is_secure : AccessPoint → Bool
is_secure a = a.security == secure

unfoldable pub set_secure : AccessPoint → AccessPoint
set_secure a = record a { security = secure }

unfoldable pub set_as_service : AccessPoint → AccessPoint
set_as_service a = record a { service = true }

unfoldable pub set_no_add_ref : AccessPoint → AccessPoint
set_no_add_ref a = record a { noaddref = true }

abbrev pub when : Bool → (AccessPoint → AccessPoint) → AccessPoint → AccessPoint
when b f a = if b then f a else a

-- The copy constructor, in the storage that the copy is made in: `_service` is set only for a
-- service, and `_noaddref` is read from the storage itself.
unfoldable pub copy : AccessPoint → AccessPoint → AccessPoint
copy storage p =
    let named = set_access_string p.endpoint (record storage { endpoint = [] }) in
    let secured = record named { security = if is_secure p then secure else nonsecure } in
    let served = when p.service set_as_service secured in
    record served { noaddref = served.noaddref }

-- operator=: flags are set, never cleared.
unfoldable pub assign : AccessPoint → AccessPoint → AccessPoint
assign this p =
    when p.service set_as_service
      (when (is_secure p) set_secure (set_access_string p.endpoint this))

module _ (c : BufferClass) where
  abbrev pack_bool : Bool → Buffer → Result Buffer
  pack_bool v b = c.pack (Item.bools (v ∷ [])) b

  abbrev unpack_bool : Buffer → Result (Bool × Buffer)
  unpack_bool b = c.unpack (Shape.bools 1) b >>= λ r. ok (first_bit (bits r.0), r.1)

  abbrev first_text : List (List ℕ) → List ℕ
  first_text [] = []
  first_text (s ∷ ss) = s

  -- `s.c_str()`, for a text that an UnPack has made, is the text.
  -- Serialize(buf, true)
  unfoldable pub pack_accesspoint : AccessPoint → Buffer → Result Buffer
  pack_accesspoint a b = pack_strings c (a.endpoint ∷ []) b >>= λ b'.
      pack_int c a.security b' >>= λ b'. pack_bool a.service b' >>= λ b'. pack_bool a.noaddref b'

  -- Serialize(buf, false)
  unfoldable pub unpack_accesspoint : AccessPoint → Buffer → Result (AccessPoint × Buffer)
  unpack_accesspoint a b = unpack_strings c 1 b >>= λ s. unpack_int c s.1 >>= λ sec.
      unpack_bool sec.1 >>= λ serv. unpack_bool serv.1 >>= λ noadd. ok (
        when noadd.0 set_no_add_ref (
            when serv.0 set_as_service
              (when (sec.0 == secure) set_secure (set_access_string (first_text s.0) a))),
        noadd.1,
      )
