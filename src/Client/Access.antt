-- ===== src/Client/Access.antt =====
-- ext/endpoint_security/client.c, get_client and get_open_client: the checks in front of the
-- methods of a client.
use endpoint_security.Base.{ℕ, not, ◌==◌, if◌then◌else◌}
use endpoint_security.Client.{Client}
use endpoint_security.Ruby.{forked_client_error, client_error, Result, raised, returned}

-- get_client, get_open_client
unfoldable pub get_client : Client → ℕ → Result Client
get_client c pid = if not (c.owner_pid == pid) then raised forked_client_error else returned c

unfoldable pub get_open_client : Client → ℕ → Result Client
unfolding get_client
get_open_client c pid = elim (get_client c pid) [
  | raised e ↦ raised e
  | returned d ↦ if d.closed then raised client_error else returned d
]
