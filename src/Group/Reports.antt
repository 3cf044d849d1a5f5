-- ===== src/Group/Reports.antt =====
-- src/group.rs, lines 28 to 57, 111 to 119, 185 to 202, 528 to 540 and 605 to 615, and src/introspection.rs:
-- the records that the crate's reports are turned into.
use mathlib.Core.Option
use processkit_py.Common.{
  ℕ, Bool, Option, none, some, List, map, Result, map_ok, map_error, Text, codes,
}
use processkit_py.Errors.{PyErr}

-- `SoftSignal`; `later` is a variant that is not known here.
pub data SoftSignal : Type 0 where
  sent unsupported failed later : SoftSignal

-- The crate's report. A signal may have no name.
pub record CrateReport : Type 0 where
  pub soft_signal : SoftSignal
  pub attempted_signal : Option (Option Text)
  pub members_before : Option ℕ
  pub members_after : Option ℕ
  pub drained_within_grace : Bool
  pub escalated : Bool
  pub elapsed : ℕ

pub record ShutdownReport : Type 0 where
  pub soft_signal : Text
  pub attempted_signal : Option Text
  pub members_before : Option ℕ
  pub members_after : Option ℕ
  pub drained_within_grace : Bool
  pub escalated : Bool
  pub elapsed : ℕ

unfoldable pub soft_signal_str : SoftSignal → Text
soft_signal_str sent = codes "sent"
soft_signal_str unsupported = codes "unsupported"
soft_signal_str failed = codes "failed"
soft_signal_str later = codes "unknown"

named : Option (Option Text) → Option Text
named none = none
named (some name) = name

unfoldable pub shutdown_report : CrateReport → ShutdownReport
unfolding soft_signal_str named
shutdown_report report = record {
  soft_signal = soft_signal_str report.soft_signal;
  attempted_signal = named report.attempted_signal;
  members_before = report.members_before;
  members_after = report.members_after;
  drained_within_grace = report.drained_within_grace;
  escalated = report.escalated;
  elapsed = report.elapsed;
}

-- A member of a group, as the crate has it and as it is passed on.
pub record MemberInfo : Type 0 where
  pub pid : ℕ
  pub ppid : Option ℕ
  pub exe_name : Option Text
  pub start_time : Option ℕ

-- `members_info`, of a group that is open
unfoldable pub members_info :
    {C I : Type 0}
    → (C → PyErr)
    → (I → MemberInfo)
    → Result C (List I)
    → Result PyErr (List MemberInfo)
members_info map_err from infos = map_ok (map from) (map_error map_err infos)

-- `process_info`, which finds no process, or one
unfoldable pub process_info :
    {C I : Type 0}
    → (C → PyErr)
    → (I → MemberInfo)
    → Result C (Option I)
    → Result PyErr (Option MemberInfo)
process_info map_err from found = map_error map_err (map_ok (λ info. Option.map from info) found)

unfoldable pub process_is_alive : {C : Type 0} → (C → PyErr) → Result C Bool → Result PyErr Bool
process_is_alive map_err alive = map_error map_err alive
