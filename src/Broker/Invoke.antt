-- ===== src/Broker/Invoke.antt =====
-- DoInvoke: how a broker answers for a method that throws (lib/core/broker_serve.cc).
pub mod Rethrown
use pop_cpp.Base.{
  ℕ, Bool, true, false, List, [], ◌∷◌, ◌++◌, length, Option, none, some, Result, ok, ◌>>=◌, ◌==◌,
  if◌then◌else◌,
}
use pop_cpp.Base.Bytes.{is_positive}
use pop_cpp.Buffer.Types.{Buffer, MessageHeader}
use pop_cpp.Buffer.Queue.{BufferClass}
use pop_cpp.Exception.{
  Thrown, number, bool, char, uchar, string, exception, object, ObjectCodec, exception_message,
}
use pop_cpp.Exception.Codes.{PopException, codes, unknown_exception, of_code, of_reasons, add_info}
use pop_cpp.Broker.{Request}
use pop_cpp.Broker.PopCall.{Object}

abbrev pub object_mismatch_method : ℕ
object_mismatch_method = 10003

abbrev pub std_exception : ℕ
std_exception = 10014

-- What a method throws: a value of a type that a message carries, a pointer to a std::exception with
-- the text of its what(), a std::exception itself, or anything else. The clause for the last but one
-- copies the base class only, so that what() is that of std::exception, whatever was thrown.
pub data Raised (Obj : Type 0) : Type 0 where
  value : Thrown Obj → Raised Obj
  std_pointer : List ℕ → Raised Obj
  std_value : Raised Obj
  unknown : Raised Obj

-- Invoke returns, true or false, or throws.
pub data Invoked (Obj : Type 0) : Type 0 where
  returned : Bool → Invoked Obj
  raised : Raised Obj → Invoked Obj

-- The class and the access point of the broker.
pub record Place : Type 0 where
  pub classname : List ℕ
  pub endpoint : List ℕ

abbrev pub at_place : Place → List ℕ
at_place p = (p.classname ++ codes "@") ++ p.endpoint

-- `extra`
abbrev pub extra : Place → List ℕ → List ℕ
extra p info = if length info == 0 then at_place p else (at_place p ++ codes ": ") ++ info

-- A new exception of the code, with the text added.
abbrev pub noted : {Obj : Type 0} → List ℕ → Option PopException → Option (Thrown Obj)
noted text none = none
noted text (some e) = some (exception (add_info text e))

-- What the catch clauses send. The texts of a system error and of std::exception::what() are
-- parameters. None stands for a read outside the table of texts.
unfoldable pub answer_of :
    {Obj : Type 0} → (ℕ → List ℕ) → List ℕ → Place → Raised Obj → Option (Thrown Obj)
answer_of strerror base_what p (value (exception e)) =
    some (exception (add_info (extra p e.info) e))
answer_of strerror base_what p (value v) = some v
answer_of strerror base_what p (std_pointer what) =
    noted ((at_place p ++ codes ": ") ++ what) (of_code strerror std_exception)
answer_of strerror base_what p std_value =
    noted ((at_place p ++ codes ": ") ++ base_what) (of_code strerror std_exception)
answer_of strerror base_what p unknown = noted (at_place p) (of_code strerror unknown_exception)

-- The try block: a call that Invoke does not know raises too.
unfoldable pub raised_by : {Obj : Type 0} → (ℕ → List ℕ) → Invoked Obj → Option (Raised Obj)
raised_by strerror (returned true) = none
raised_by strerror (returned false) =
    elim (of_reasons strerror object_mismatch_method (codes "Mismatched method was invoked") []) [
      | none ↦ none
      | some e ↦ some (value (exception e))
    ]
raised_by strerror (raised x) = some x

-- An answer is sent, or nothing, or the broker is told to abort.
pub data Effect : Type 0 where
  silent : Effect
  answers : Buffer → Effect
  aborts : Effect

-- UnhandledException
abbrev pub unhandled : Bool → Effect
unhandled has_appservice = if has_appservice then aborts else silent

-- The object is there and has references.
abbrev pub has_references : Option Object → Bool
has_references none = false
has_references (some o) = is_positive o.refcount

module _ (c : BufferClass) {Obj : Type 0} (objects : ObjectCodec Obj) (strerror : ℕ → List ℕ)
    (base_what : List ℕ) (place : Place) (has_appservice : Bool) where
  -- A catch clause.
  abbrev pub propagate : MessageHeader → Request → Option (Thrown Obj) → Result Effect
  propagate storage r none = ok silent
  propagate storage r (some v) = elim r.from [
    | none ↦ ok (unhandled has_appservice)
    | some conn ↦ exception_message c objects storage r.buf v >>= λ b. ok (answers b)
  ]

  abbrev pub catch : MessageHeader → Request → Option (Raised Obj) → Result Effect
  catch storage r none = ok silent
  catch storage r (some x) = propagate storage r (answer_of strerror base_what place x)

  -- The effect, and what DoInvoke returns for the object that the method leaves.
  unfoldable pub do_invoke :
      MessageHeader → Request → Invoked Obj → Option Object → Result (Effect × Bool)
  do_invoke storage r invoked obj =
      catch storage r (raised_by strerror invoked) >>= λ e. ok (e, has_references obj)
