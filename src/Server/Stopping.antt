-- ===== src/Server/Stopping.antt =====
-- server/server.go: `Close` of the server, which examples/server/main.go calls on a signal, after any
-- actions.
use kcpq.Server.{
  Server, HandleError, handle_message, handle_subscribe, handle_unsubscribe, handle_publish,
  handle_ping, handle_and_report, close_session, accept, fresh_server, set_session_backpressure,
  close_server, close_sessions,
}
use kcpq.Server.Running.{Step, accepts, handles, writes, closes, limits, Reach, here, next}
use kcpq.Server.Flags.{closed-handle_and_report}
use kcpq.Server.Lifecycle.{close_server_blocks}
use kcpq.Router.Relation.{contains-without}
use kcpq.Subscriptions.{SessionId, contains}
use kcpq.Session.{new_session, write_next}
use kcpq.Protocol.{Message}
use kcpq.Prelude.{
  ◌≡◌, ◌≢◌, ◌↔◌, refl, sym, ap, subst, ◌∙◌, true, false, none, some, List, [], ◌∷◌, Bytes, arith,
}

-- `Close` of the server has not run, and the sessions of the set are open.
record IsOpen (w : Server) : Type 0 where
  running : w.done ≡ false
  listed : (id : SessionId) → contains id w.sessions ≡ true → (w.session id).closed ≡ false

sessions-handle_and_report :
    (describe : HandleError → Bytes) (msg : Message) (id : SessionId) (w : Server)
    → ((handle_and_report describe msg id w).sessions ≡ w.sessions)
      × ((handle_and_report describe msg id w).done ≡ w.done)
unfolding handle_and_report handle_message handle_subscribe handle_unsubscribe handle_publish
    handle_ping
sessions-handle_and_report describe msg id w = ground arith

Step-IsOpen :
    (describe : HandleError → Bytes) {s t : Server} → Step describe s t → IsOpen s → IsOpen t
unfolding accept new_session contains close_session write_next set_session_backpressure
Step-IsOpen describe {s} (accepts id unused e) v = subst IsOpen (sym e) (record {
  running = v.running;
  listed = λ j h. ground (arith, v.listed j, contains-without id j s.sessions);
})
Step-IsOpen describe {s} (handles id msg is_open fits e) v = subst IsOpen (sym e) (record {
  running = (sessions-handle_and_report describe msg id s).1 ∙ v.running;
  listed = λ j h.
      closed-handle_and_report msg id j s describe
      ∙ v.listed j (ap (contains j) (sym (sessions-handle_and_report describe msg id s).0) ∙ h);
})
Step-IsOpen describe {s} (writes id e) v =
    subst IsOpen (sym e)
      (record { running = v.running; listed = λ j h. ground (arith, v.listed j) })
Step-IsOpen describe {s} (closes id e) v = subst IsOpen (sym e) (record {
  running = ground (arith, v.running);
  listed = λ j h. ground (arith, v.listed j, contains-without id j s.sessions);
})
Step-IsOpen describe {s} (limits a b e) v =
    subst IsOpen (sym e) (record { running = v.running; listed = v.listed })

Reach-IsOpen :
    (describe : HandleError → Bytes) {s t : Server} → IsOpen s → Reach describe s t → IsOpen t
Reach-IsOpen describe v here = v
Reach-IsOpen describe v (next r st) = Step-IsOpen describe st (Reach-IsOpen describe v r)

close_server_cases :
    (w : Server)
    → IsOpen w
    → (l : List SessionId) → w.sessions ≡ l
    → (close_server w ≡ none) ↔ (l ≢ [])
unfolding close_server close_sessions contains
close_server_cases w v [] e = (λ h. absurd (ground (arith, v.running)), λ h. absurd (h refl))
close_server_cases w v (id ∷ ids) e = (
  λ h. λ x. cc,
  λ h. close_server_blocks w id v.running (ground arith) (v.listed id (ground arith)),
)

-- After any actions of a new server, in any order, each handler and each `Close` of a session being one
-- action: `Close` of the server never returns exactly when a session is left in the server's set; with none
-- left it returns, and has changed nothing but that it has run.
pub close_server_returns_iff :
    (describe : HandleError → Bytes) (w : Server)
    → Reach describe fresh_server w
    → ((close_server w ≡ none) ↔ (w.sessions ≢ []))
      × (w.sessions ≡ [] → close_server w ≡ some (record w { done = true }))
unfolding close_server close_sessions
close_server_returns_iff describe w r =
    (close_server_cases w v w.sessions refl, λ e. ground (arith, v.running))
  where
    fresh : IsOpen fresh_server
    fresh = record { running = refl; listed = λ id h. unfold contains in cc }

    v : IsOpen w
    v = Reach-IsOpen describe fresh r
