-- ===== src/Errors/Tests.antt =====
-- src/errors.rs: a run that a signal ended, and a fragment of a text.
use processkit_py.Common.{All, List, none, ok, ◌++◌, ◌≡◌, refl, true, false, [], ◌∷◌, Text}
use processkit_py.Errors.Json.{truncate_chars}
use processkit_py.Errors.Classes.{
  register, add_all, single_exceptions, dual_exceptions, init_dual_exceptions,
}
use processkit_py.Errors.Classes.Declared.{
  Registered, HasAttribute, stub_attributes, map_err_ref-declared,
}
use processkit_py.Errors.Mapping.{Name, CrateError, signalled_by, map_err_ref}
use processkit_py.Errors.Mapping.Promises.{Documented, class_for}

abbrev killed : CrateError
killed = record {
  is_timeout = false;
  is_not_found = false;
  is_permission_denied = false;
  reason = signalled_by false;
  program = true;
  code = false;
  stdout = true;
  stderr = true;
  stdout_bytes = false;
  diagnostic = false;
}

killed-Documented : Documented killed
killed-Documented = record {
  timeouts = refl;
  missing = refl;
  denied = λ e. e;
  outputs = refl;
  errors = refl;
  codes = λ e. e;
  named = λ e. refl;
}

nothing_refused : register (λ name. none) ≡ ok (single_exceptions ++ dual_exceptions)
unfolding register add_all single_exceptions dual_exceptions init_dual_exceptions
nothing_refused = refl

map_err_ref-declared_example :
    ((map_err_ref true killed).0 ≡ class_for killed.reason killed.is_permission_denied)
    × ((defaults : List Name) × Registered
          (single_exceptions ++ dual_exceptions)
          (map_err_ref true killed).0
          defaults
        × All
            (HasAttribute (map_err_ref true killed).1 defaults)
            (stub_attributes (map_err_ref true killed).0))
map_err_ref-declared_example =
    map_err_ref-declared (λ name. none) (single_exceptions ++ dual_exceptions) killed
      nothing_refused killed-Documented

-- Three characters of one, two and three bytes.
abbrev short_text : Text
short_text = 97 ∷ 233 ∷ 8364 ∷ []

cut_between : truncate_chars short_text 2 ≡ 97 ∷ 0xc3 ∷ 0xa9 ∷ []
unfolding truncate_chars
cut_between = refl
