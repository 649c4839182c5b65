-- ===== src/Access.antt =====
-- The guards with which the core functions begin: a requester who is logged in, and who is an
-- administrator.
use dmp.Base.{Bool, true, false, Option, not}
use dmp.Model.Types.{User, admin}
use dmp.Model.Action.{Action, or_throw, throw_if, not_logged_in, no_permission_error, code_text}

-- `user.type === enumUserTypes.ADMIN`
abbrev pub is_admin : User → Bool
is_admin u = elim u.user_type [ admin ↦ true | _ ↦ false ]

-- `if (!requester) throw …`
abbrev pub logged_in : Option User → Action User
logged_in caller = or_throw caller not_logged_in (code_text not_logged_in)

-- `if (requester.type !== enumUserTypes.ADMIN) throw …`
abbrev pub require_admin : User → Action (Unit {0})
require_admin u = throw_if (not (is_admin u)) no_permission_error (code_text no_permission_error)
