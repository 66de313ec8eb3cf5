-- ===== src/Auth/Service/Memory.antt =====
-- The memory store behind the interface of the service (cool-next/auth/store.go, identity.go).
use cool_admin_go_next.Auth.Store.{Sessions, get, save, rotate_refresh, revoke}
use cool_admin_go_next.Auth.Service.{Store}

abbrev pub memory : Store Sessions
memory = record { get = get; save = save; rotate_refresh = rotate_refresh; revoke = revoke }
