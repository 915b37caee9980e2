-- ===== src/Server/Order.antt =====
-- server/session.go: `handlePublish` does not depend on the order in which `range` visits the router's map.
use mathlib.Core.Quot
use kcpq.Server.{Server, handle_publish}
use kcpq.Server.Publish.{msg_frame, send_to_all_lem}
use kcpq.Router
use kcpq.Router.Relation.{IsValid}
use kcpq.Router.Delivery.{find_subscribers-Distinct}
use kcpq.Router.Unordered.{Unordered, gets, gets-mk}
use kcpq.Subscriptions.{SessionId}
use kcpq.Session.{send_encoded}
use kcpq.Protocol.{Message}
use kcpq.Prelude.{◌≡◌, sym, ap, ◌∙◌, if◌then◌else◌, arith}

-- The router of a server, with the order forgotten.
abbrev pub unordered : (w : Server) → IsValid w.router → Unordered
unordered w v = Quot.mk (w.router, v)

handle_publish-gets :
    (msg : Message) (w : Server) (v : IsValid w.router) (id : SessionId)
    → (handle_publish msg w).session id ≡ (
        if gets msg.subject id (unordered w v)
        then (send_encoded (msg_frame msg) (w.session id)).0
        else w.session id)
unfolding handle_publish
handle_publish-gets msg w v id =
    send_to_all_lem (msg_frame msg) (Router.find_subscribers msg.subject w.router) w.session id
      (find_subscribers-Distinct w.router msg.subject)
    ∙ ap (λ b. if b then (send_encoded (msg_frame msg) (w.session id)).0 else w.session id)
        (sym (gets-mk msg.subject id (w.router, v)))

-- Where the routers of two servers are well formed and equal but for the order of the map and of its sets,
-- and their sessions are equal, a published message leaves the same in every session.
pub handle_publish-unordered :
    (msg : Message) (w u : Server) (v : IsValid w.router) (v' : IsValid u.router)
    → unordered w v ≡ unordered u v'
    → ((id : SessionId) → w.session id ≡ u.session id)
    → (id : SessionId) → (handle_publish msg w).session id ≡ (handle_publish msg u).session id
handle_publish-unordered msg w u v v' e same id = ground (
  arith,
  handle_publish-gets msg w v id,
  handle_publish-gets msg u v' id,
  ap (gets msg.subject id) e,
  same id,
)
