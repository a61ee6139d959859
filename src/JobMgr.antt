-- ===== src/JobMgr.antt =====
-- JobMgr: the service that reserves the resources of a machine for parallel objects
-- (services/lib/jobmgr.cc, services/lib/jobmgr.ph).
pub mod Walltime
pub mod Reserve
pub mod Release
pub mod Account
pub mod Invariant
pub mod Bounds
pub mod Shrink
pub mod Limits
pub mod Cancel
pub mod Choice
pub mod Nodes
pub mod Pause
pub mod Trace
mod Words
mod Examples
mod NodeExamples
use pop_cpp.Base.{
  ℕ, Bool, true, false, List, [], ◌∷◌, ◌++◌, length, Option, none, some, if◌then◌else◌,
}
use pop_cpp.AccessPoint.{AccessPoint, equal_text}

-- A job: a reservation, and once its object is there the object's contact. The amounts are floats.
pub record Resources : Type 0 where
  pub id : ℕ
  pub flops : ℕ
  pub mem : ℕ
  pub bandwidth : ℕ
  pub walltime : ℕ
  pub pop_app_id : List ℕ
  pub req_id : List ℕ
  pub start : ℕ
  pub contact : AccessPoint
  pub appservice : AccessPoint

pub record HostInfo : Type 0 where
  pub name : List ℕ
  pub val : List ℕ

pub record Amounts : Type 0 where
  pub flops : ℕ
  pub mem : ℕ
  pub bandwidth : ℕ

-- The members of a JobMgr that reservations touch.
pub record Manager : Type 0 where
  pub jobs : List Resources
  pub available : Amounts
  pub limit : Amounts
  pub counter : ℕ
  pub maxjobs : ℕ
  pub reserve_timeout : ℕ
  pub info : List HostInfo

-- Query, for a name that is none of the six it answers itself.
unfoldable pub query_info : List ℕ → List HostInfo → Option (List ℕ)
query_info type [] = none
query_info type (t ∷ ts) =
    let later = query_info type ts in if equal_text type t.name then some t.val else later

-- contact.IsEmpty()
abbrev pub is_reserved : Resources → Bool
is_reserved r = equal_text r.contact.endpoint []
