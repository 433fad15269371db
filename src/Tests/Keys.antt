-- ===== src/Tests/Keys.antt =====
-- A key file (vpn/guard.py).
use coda_node.Prelude.{◌≡◌, ◌↔◌, true, false}
use coda_node.Exec.{connection, ok, err}
use coda_node.Vpn.Permissions.{
  Files, Private, validate_key_permissions, validate_key_permissions_iff,
}

-- A file of mode 0o100600.
abbrev key : Files
key = record { is_windows = false; is_file = err (connection "none"); st_mode = ok 0x8180 }

validate_key_permissions_iff_example : (validate_key_permissions key ≡ ok true) ↔ Private key
validate_key_permissions_iff_example = validate_key_permissions_iff key
