-- ===== src/Router/Tests.antt =====
-- server/router.go: a router with one subscription of session 1 to "a.*".
use mathlib.Core.Quot
use kcpq.Router.Unordered.{Unordered, perform_unordered, perform_unordered_comm}
use kcpq.Router.Validity.{new_router-IsValid}
use kcpq.Router
use kcpq.Router.{match, find_subscribers}
use kcpq.Router.Matching.{Admits, match_iff}
use kcpq.Router.Relation.{IsValid, is_subscribed, Distinct}
use kcpq.Router.Refinement.{
  Call, subscribes, unsubscribes, removes, perform_all, subscribed_after, perform_all_refines,
}
use kcpq.Subscriptions.{contains}
use kcpq.Prelude.{◌≡◌, ◌↔◌, refl, true, Bytes, codes, List, [], ◌∷◌}

match_iff_example : (match (codes "a.*") (codes "a.b") ≡ true) ↔ Admits (codes "a.*") (codes "a.b")
match_iff_example = match_iff (codes "a.*") (codes "a.b")

-- The last call stands first.
abbrev calls : List Call
calls =
    subscribes (codes "b") 2
    ∷ removes 2
    ∷ unsubscribes (codes "c") 1
    ∷ subscribes (codes "a.*") 1
    ∷ []

perform_all_refines_example :
    let r = perform_all calls in
    IsValid r
    × ((j : Bytes) → is_subscribed r j 1 ≡ subscribed_after calls j 1)
    × Distinct (find_subscribers (codes "a.b") r)
    × ((contains 1 (find_subscribers (codes "a.b") r) ≡ true)
        ↔ ((p : Bytes) × (subscribed_after calls p 1 ≡ true) × Admits p (codes "a.b")))
perform_all_refines_example = perform_all_refines calls (codes "a.b") 1

abbrev nobody : Unordered
nobody = Quot.mk (Router.new_router, new_router-IsValid)

perform_unordered_comm_example :
    perform_unordered (subscribes (codes "a") 1) (perform_unordered (removes 2) nobody)
    ≡ perform_unordered (removes 2) (perform_unordered (subscribes (codes "a") 1) nobody)
perform_unordered_comm_example =
    perform_unordered_comm (subscribes (codes "a") 1) (removes 2) refl nobody
