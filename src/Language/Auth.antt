-- ===== src/Language/Auth.antt =====
-- `src/droidos/language/auth.py`: roles, users and the authorizer. An entry of `users.yaml` is the
-- record of the keys that `_load` reads; the configured default user is an argument.
use droid_os.Prelude.{
  or_text, ℕ, leb, ◌==◌, String, ◌^^◌, Bool, true, false, Bool, Option, none, some, List, [], ◌∷◌,
  lookup, insert, str_eq, if◌then◌else◌, is_some,
}

pub data Role : Type 0 where
  guest operator service_technician owner : Role

abbrev pub rank : Role → ℕ
rank guest = 0
rank operator = 1
rank service_technician = 2
rank owner = 3

abbrev pub role_value : Role → String
role_value guest = "guest"
role_value operator = "operator"
role_value service_technician = "service_technician"
role_value owner = "owner"

-- `role.value.title()`
abbrev pub role_title : Role → String
role_title guest = "Guest"
role_title operator = "Operator"
role_title service_technician = "Service_Technician"
role_title owner = "Owner"

pub record User : Type 0 where
  pub name : String
  pub role : Role
  pub display_name : String

-- `Role(text)`, which raises on an unknown text
abbrev pub role_of : String → Option Role
role_of text =
    if str_eq text "guest"
    then some guest
    else if str_eq text "operator"
    then some operator
    else if str_eq text "service_technician"
    then some service_technician
    else if str_eq text "owner"
    then some owner
    else none

pub record Entry : Type 0 where
  pub name : String
  pub role : Option String
  pub display_name : Option String

abbrev or_guest : Option Role → Role
or_guest none = guest
or_guest (some r) = r

unfoldable pub entry_role : Option String → Role
entry_role r = or_guest (role_of (or_text r "guest"))

abbrev pub Users : Type 0
Users = List (String × User)

-- the loop over the entries
unfoldable pub add_entries : List Entry → Users → Users
unfolding entry_role
add_entries [] users = users
add_entries (e ∷ es) users = add_entries es (
    insert e.name
      (record { name = e.name; role = entry_role e.role; display_name = or_text e.display_name "" })
      users)

-- `users.setdefault(role.value, …)`
unfoldable pub set_default : Role → Users → Users
set_default r users =
    if is_some (lookup (role_value r) users)
    then users
    else insert (role_value r)
        (record { name = role_value r; role = r; display_name = role_title r }) users

-- `_load`
unfoldable pub load : List Entry → Users
unfolding add_entries set_default
load es =
    set_default owner (
      set_default service_technician (set_default operator (set_default guest (add_entries es []))))

abbrev operator_user : User
operator_user = record { name = "operator"; role = operator; display_name = "" }

abbrev or_operator : Option User → User
or_operator none = operator_user
or_operator (some u) = u

-- `users.get(default, User("operator", Role.OPERATOR))`
unfoldable pub default_user : Users → Option String → User
default_user users default = or_operator (lookup (or_text default "operator") users)

abbrev or_user : Option User → User → User
or_user none d = d
or_user (some u) d = u

-- no name, or the empty one, is the default user
unfoldable pub resolve : Users → Option String → Option String → User
unfolding default_user
resolve users default none = default_user users default
resolve users default (some name) =
    if str_eq name ""
    then default_user users default
    else or_user (lookup name users) (default_user users default)

-- `_rank_name`
abbrev pub rank_name : ℕ → String
rank_name n =
    if n == 0
    then "guest"
    else if n == 1
    then "operator"
    else if n == 2
    then "service technician"
    else "owner"

unfoldable pub authorize : User → ℕ → Bool × String
authorize u min_role_rank = if leb min_role_rank (rank u.role) then (true, "authorized") else (
  false,
  "requires "
      ^^ rank_name min_role_rank
      ^^ " authorization; "
      ^^ u.name
      ^^ " is "
      ^^ role_value u.role,
)
