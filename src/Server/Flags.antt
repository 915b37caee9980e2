-- ===== src/Server/Flags.antt =====
-- server/session.go: no handler closes a session; only `Close` does.
use kcpq.Server.{
  Server, HandleError, handle_subscribe, handle_unsubscribe, handle_publish, handle_ping,
  handle_message, handle_and_report, other_subjects,
}
use kcpq.Server.Sync.{send_ok-Keeps, send_error-Keeps, send_pong-Keeps, send_to_all-Keeps}
use kcpq.Router
use kcpq.Subscriptions.{SessionId}
use kcpq.Protocol.{Message, new_message_cmd, encode, cmd_msg}
use kcpq.Prelude.{◌≡◌, inl, inr, [], ◌∷◌, ◌++◌, Bytes, codes, arith, Option-cases}

module _ (msg : Message) (id j : SessionId) (w : Server) where
  closed-handle_subscribe : ((handle_subscribe msg id w).session j).closed ≡ (w.session j).closed
  unfolding handle_subscribe
  closed-handle_subscribe = ground (
    arith,
    send_ok-Keeps (codes "subscribed to " ++ msg.subject) (w.session id),
    send_ok-Keeps (codes "subscribed to " ++ msg.subject)
        (record (w.session id) { subjects = (w.session id).subjects ++ msg.subject ∷ [] }),
  )

  closed-handle_unsubscribe :
      ((handle_unsubscribe msg id w).session j).closed ≡ (w.session j).closed
  unfolding handle_unsubscribe
  closed-handle_unsubscribe = ground (
    arith,
    send_ok-Keeps (codes "unsubscribed from " ++ msg.subject)
        (record (w.session id) { subjects = other_subjects msg.subject (w.session id).subjects }),
  )

  closed-handle_publish : ((handle_publish msg w).session j).closed ≡ (w.session j).closed
  unfolding handle_publish
  closed-handle_publish =
      (send_to_all-Keeps (encode (new_message_cmd cmd_msg msg.subject msg.payload))
        (Router.find_subscribers msg.subject w.router) w.session j).1

  closed-handle_ping : ((handle_ping id w).0.session j).closed ≡ (w.session j).closed
  unfolding handle_ping
  closed-handle_ping = ground (arith, send_pong-Keeps (w.session id))

  pub closed-handle_message : ((handle_message msg id w).0.session j).closed ≡ (w.session j).closed
  unfolding handle_message
  closed-handle_message = ground (
    arith, closed-handle_subscribe, closed-handle_unsubscribe, closed-handle_publish,
    closed-handle_ping,
  )

  pub closed-handle_and_report :
      (describe : HandleError → Bytes)
      → ((handle_and_report describe msg id w).session j).closed ≡ (w.session j).closed
  unfolding handle_and_report
  closed-handle_and_report describe = elim (Option-cases (handle_message msg id w).1) [
    | inl fine ↦ ground (arith, closed-handle_message)
    | inr (e, failed) ↦ ground (
      arith,
      closed-handle_message,
      send_error-Keeps (codes "handle error: " ++ describe e)
          ((handle_message msg id w).0.session id),
    )
  ]
