-- ===== src/Access.antt =====
-- Who may act on a lodge (backend/src/modules/lodges/lodge-access.service.ts).
use tuljai_stays.Base.{Bool, true, false, ◌&&◌, not, ℕ, ◌==◌, any, if◌then◌else◌}
use tuljai_stays.Base.Results.{Result, ok, forbidden, throw_if}
use tuljai_stays.Store.{Db, Role, owner, staff, admin, super_admin, AuthenticatedUser}

abbrev is_admin_role : Role → Bool
is_admin_role admin = true
is_admin_role super_admin = true
is_admin_role _ = false

abbrev is_member_role : Role → Bool
is_member_role owner = true
is_member_role staff = true
is_member_role _ = false

unfoldable pub is_admin : AuthenticatedUser → Bool
is_admin user = any is_admin_role user.roles

-- an `OWNER` or `STAFF` role, and an active assignment to the lodge
unfoldable pub is_member : Db → AuthenticatedUser → ℕ → Bool
is_member db user lodge_id =
    any is_member_role user.roles
    && any (λ a. not a.is_deleted && a.is_active && a.lodge_id == lodge_id && a.user_id == user.id)
        db.lodge_owners

unfoldable pub assert_can_manage_lodge : Db → AuthenticatedUser → ℕ → Result (Unit {0})
unfolding is_admin is_member
assert_can_manage_lodge db user lodge_id =
    if is_admin user then ok tt else throw_if (not (is_member db user lodge_id)) forbidden
