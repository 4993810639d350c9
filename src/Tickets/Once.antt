-- ===== src/Tickets/Once.antt =====
-- internal/comrad/manager_ws.go: a ticket opens one web socket, and only for half a minute.
use comrad.Prelude.{
  ◌+◌, ◌≡◌, refl, String, false, not, none, some, arith, ltb, ◌==◌, eq_refl, Bool-cases, inl, inr,
}
use comrad.Prelude.Dict.{
  lookup, has_key, insert, delete, lookup-insert, lookup-delete, lookup_of_not_has_key,
}
use comrad.Prelude.Distinct.{
  Distinct, Distinct-insert, Distinct-delete_where, lookup-delete_where, has_key-delete_where,
  unless,
}
use comrad.Types.{Time, after}
use comrad.Security.{api_token_hash}
use comrad.Tickets.{
  Tickets, admin_state_ws_ticket_ttl, purge_expired_tickets, issue_ticket, consume_ticket, taken,
}

lookup-purge :
    (now : Time) (hash : String) (tickets : Tickets)
    → Distinct tickets
    → lookup hash (purge_expired_tickets now tickets)
      ≡ unless (λ (e : Time). not (after e now)) (lookup hash tickets)
unfolding purge_expired_tickets
lookup-purge now hash tickets d =
    lookup-delete_where (λ (e : Time). not (after e now)) hash tickets d

Distinct-purge :
    (now : Time) (tickets : Tickets)
    → Distinct tickets
    → Distinct (purge_expired_tickets now tickets)
unfolding purge_expired_tickets
Distinct-purge now tickets d = Distinct-delete_where (λ (e : Time). not (after e now)) tickets d

purge_missing :
    (now : Time) (hash : String) (tickets : Tickets)
    → lookup hash tickets ≡ none
    → lookup hash (purge_expired_tickets now tickets) ≡ none
unfolding purge_expired_tickets has_key
purge_missing now hash tickets h =
    let gone =
      has_key-delete_where (λ (e : Time). not (after e now)) hash tickets (rw (h, has_key) refl) in
    lookup_of_not_has_key hash _ gone

module _ (digest : String → String) where
  consume_missing :
      (ticket : String) (now : Time) (tickets : Tickets)
      → lookup (api_token_hash digest ticket) tickets ≡ none
      → (consume_ticket digest ticket now tickets).1 ≡ false
  unfolding consume_ticket taken
  consume_missing ticket now tickets h =
      let gone = purge_missing now (api_token_hash digest ticket) tickets h in
      elim (Bool-cases (ticket == "")) [ inl e ↦ rw e refl | inr e ↦ rw (e, gone) refl ]

  consume_found :
      (ticket : String) (now expires : Time) (tickets : Tickets)
      → let hash = api_token_hash digest ticket in
        let live = purge_expired_tickets now tickets in
        (ticket == "") ≡ false
        → lookup hash live ≡ some expires
        → consume_ticket digest ticket now tickets ≡ (delete hash live, after expires now)
  unfolding consume_ticket taken
  consume_found ticket now expires tickets given found = rw (given, found) refl

  consume_absent :
      (ticket : String) (now : Time) (tickets : Tickets)
      → let live = purge_expired_tickets now tickets in
        (ticket == "") ≡ false
        → lookup (api_token_hash digest ticket) live ≡ none
        → consume_ticket digest ticket now tickets ≡ (live, false)
  unfolding consume_ticket taken
  consume_absent ticket now tickets given missing = rw (given, missing) refl

  -- The ticket that is issued opens one web socket in the next 30 seconds, and none from then on. It
  -- never opens a second one, however soon. The ticket is not empty, and the tickets that are kept
  -- have distinct hashes.
  pub consume_ticket_once :
      (ticket : String) (issued now later : Time) (tickets : Tickets)
      → (ticket == "") ≡ false
      → Distinct tickets
      → let (used, opened) =
          consume_ticket digest ticket now (issue_ticket digest ticket issued tickets) in
        (opened ≡ ltb now (issued + admin_state_ws_ticket_ttl))
        × ((consume_ticket digest ticket later used).1 ≡ false)
  unfolding issue_ticket
  consume_ticket_once ticket issued now later tickets given d =
      let hash = api_token_hash digest ticket in
      let expires = issued + admin_state_ws_ticket_ttl in
      let kept = purge_expired_tickets issued tickets in
      let with_it = insert hash expires kept in
      let found = lookup-insert hash hash expires kept in
      let distinct = Distinct-insert hash expires kept (Distinct-purge issued tickets d) in
      let live = lookup-purge now hash with_it distinct in
      let still = purge_expired_tickets now with_it in
      elim (Bool-cases (ltb now expires)) [
        | inl e ↦
            let here : lookup hash still ≡ some expires =
              ground (arith, live, found, eq_refl hash, e) in
            let gone : lookup hash (delete hash still) ≡ none =
              ground (arith, lookup-delete hash hash still, eq_refl hash) in
            rw (consume_found ticket now expires with_it given here)
              (refl, consume_missing ticket later (delete hash still) gone)
        | inr e ↦
            let none_left : lookup hash still ≡ none =
              ground (arith, live, found, eq_refl hash, e) in
            rw (consume_absent ticket now with_it given none_left)
              (ground (arith, e), consume_missing ticket later still none_left)
      ]
