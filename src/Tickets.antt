-- ===== src/Tickets.antt =====
-- internal/comrad/manager_ws.go: the tickets that let an administrator's dashboard open a web socket.
-- The random ticket and the digest are arguments; tickets are kept by their hash, under a lock.
pub mod Once
use comrad.Prelude.{
  ℕ, ◌+◌, String, Bool, true, false, not, List, [], ◌∷◌, Option, none, some, ◌==◌, if◌then◌else◌,
}
use comrad.Prelude.Dict.{Dict, lookup, insert, delete, delete_where}
use comrad.Types.{Time, after}
use comrad.Security.{api_token_hash}

-- 30 seconds in nanoseconds.
abbrev pub admin_state_ws_ticket_ttl : ℕ
admin_state_ws_ticket_ttl = 30000000000

-- The times at which the tickets expire.
abbrev pub Tickets : Type 0
Tickets = Dict Time

unfoldable pub purge_expired_tickets : Time → Tickets → Tickets
purge_expired_tickets now tickets =
    delete_where (λ (expires : Time). not (after expires now)) tickets

module _ (digest : String → String) where
  -- `issueAdminStateWSTicket`: the ticket is `fresh`.
  unfoldable pub issue_ticket : String → Time → Tickets → Tickets
  issue_ticket fresh now tickets =
      insert (api_token_hash digest fresh) (now + admin_state_ws_ticket_ttl)
        (purge_expired_tickets now tickets)

  taken : Option Time → String → Time → Tickets → Tickets × Bool
  taken none hash now tickets = (tickets, false)
  taken (some expires) hash now tickets = (delete hash tickets, after expires now)

  -- `consumeAdminStateWSTicket`.
  unfoldable pub consume_ticket : String → Time → Tickets → Tickets × Bool
  unfolding taken
  consume_ticket ticket now tickets =
      let hash = api_token_hash digest ticket in
      let live = purge_expired_tickets now tickets in
      if ticket == "" then (tickets, false) else taken (lookup hash live) hash now live
