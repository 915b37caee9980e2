-- ===== src/Server/Races/Soundness.antt =====
-- server/session.go and server/server.go: what holds of the router, the sessions and their queues, however
-- handlers and `Close` come between one another.
use kcpq.Server.Races.{
  resting, Stage, unborn, alive, marked, removed, forgotten, Racing, set, close_from, Step, accepts,
  begins, goes_on, writes, closes, limits, Reach, here, next, fresh_racing,
}
use kcpq.Server.{HandleError, update, has_subject, accept, set_session_backpressure}
use kcpq.Server.Sync.{Keeps}
use kcpq.Server.Queues.{new_session-IsFit, no_server-IsFit, update-IsFit, write_next-IsFit}
use kcpq.Router
use kcpq.Router.Relation.{is_subscribed, is_subscribed-remove_session, contains-without}
use kcpq.Router.Validity.{new_router-IsValid, remove_session-IsValid}
use kcpq.Subscriptions.{SessionId, sessions_at, lookup, contains}
use kcpq.Session.{Session, new_session, write_next}
use kcpq.Prelude.{◌≡◌, inl, inr, refl, sym, subst, true, some, [], Bytes, ◌==◌, arith, Bool-cases}
use kcpq.Server.Races.Invariant.{Fits, IsSound, closed-IsFit, Fits-Keeps}
use kcpq.Server.Races.Handling.{begin-IsSound, go_on-IsSound}

close-IsSound :
    (c : Stage) (id : SessionId) (r : Racing)
    → r.stage id ≡ c
    → IsSound r
    → IsSound (close_from c id r)
close-IsSound unborn id r e v = v
close-IsSound alive id r e v = record {
  router = v.router;
  agree = λ j t open_yet calm. ground (arith, v.agree j t);
  gone = λ j t out on_time. ground (arith, v.gone j t);
  unused = λ j t h. ground (arith, v.unused j t);
  flag = λ j. ground (arith, v.flag j);
  listed = λ j. ground (arith, v.listed j, e);
  fit = update-IsFit r.server.session id _ (closed-IsFit (r.server.session id) (v.fit id)) v.fit;
  fits = λ j.
      Fits-Keeps (r.activity j) (r.server.session j)
        (update r.server.session id (record (r.server.session id) { closed = true }) j)
        (ground arith) (v.fits j);
}
close-IsSound marked id r e v = record {
  router = remove_session-IsValid id r.server.router v.router;
  agree = λ j t open_yet calm.
      ground (arith, v.agree j t, is_subscribed-remove_session r.server.router t id j v.router, e);
  gone = λ j t out on_time.
      ground (arith, v.gone j t, is_subscribed-remove_session r.server.router t id j v.router);
  unused = λ j t h.
      ground (arith, v.unused j t, is_subscribed-remove_session r.server.router t id j v.router);
  flag = λ j. ground (arith, v.flag j, e);
  listed = λ j. ground (arith, v.listed j, e);
  fit = v.fit;
  fits = v.fits;
}
close-IsSound removed id r e v = record {
  router = v.router;
  agree = λ j t open_yet calm. ground (arith, v.agree j t);
  gone = λ j t out on_time. ground (arith, v.gone j t, e);
  unused = λ j t h. ground (arith, v.unused j t);
  flag = λ j. ground (arith, v.flag j, e);
  listed = λ j. ground (arith, v.listed j, contains-without id j r.server.sessions);
  fit = v.fit;
  fits = v.fits;
}
close-IsSound forgotten id r e v = v

accept-IsSound :
    (id : SessionId) (r : Racing)
    → r.stage id ≡ unborn
    → IsSound r
    → IsSound (record r { server = accept id r.server; stage = set r.stage id alive })
unfolding accept new_session has_subject contains
accept-IsSound id r e v = record {
  router = v.router;
  agree = λ j t open_yet calm. ground (arith, v.agree j t, v.unused id t, e);
  gone = λ j t out on_time. ground (arith, v.gone j t);
  unused = λ j t h. ground (arith, v.unused j t);
  flag = λ j. ground (arith, v.flag j);
  listed = λ j. ground (arith, v.listed j, contains-without id j r.server.sessions);
  fit = update-IsFit r.server.session id _ (new_session-IsFit r.server.limits) v.fit;
  fits = λ j. elim (Bool-cases (id == j)) [
    | inl same_id ↦
        let idle : r.activity j ≡ resting = ground (arith, v.unused id [], same_id, e) in
        subst (Fits (update r.server.session id (new_session (some r.server.limits)) j)) (sym idle)
          tt
    | inr other ↦ rw other (v.fits j)
  ];
}

write-IsSound :
    (id : SessionId) (r : Racing)
    → IsSound r
    → IsSound (record r {
      server = record r.server {
        session = update r.server.session id (write_next (r.server.session id)).0;
      };
    })
write-IsSound id r v = record {
  router = v.router;
  agree = λ j t open_yet calm. ground (arith, same, v.agree j t);
  gone = v.gone;
  unused = v.unused;
  flag = λ j. ground (arith, same, v.flag j);
  listed = v.listed;
  fit = update-IsFit r.server.session id _ (write_next-IsFit s (v.fit id)) v.fit;
  fits = λ j.
      Fits-Keeps (r.activity j) (r.server.session j) (update r.server.session id (write_next s).0 j)
        (ground (arith, same)) (v.fits j);
}
  where
    s : Session
    s = r.server.session id

    same : Keeps s (write_next s).0
    same = unfold write_next in ground arith

Step-IsSound :
    (describe : HandleError → Bytes) {r s : Racing} → Step describe r s → IsSound r → IsSound s
unfolding set_session_backpressure
Step-IsSound describe {r} (accepts id new e) v = subst IsSound (sym e) (accept-IsSound id r new v)
Step-IsSound describe {r} (begins id msg known idle sendable e) v =
    subst IsSound (sym e) (begin-IsSound msg id r known idle sendable v)
Step-IsSound describe {r} (goes_on id a at e) v =
    subst IsSound (sym e) (go_on-IsSound describe a id r at v)
Step-IsSound describe {r} (writes id e) v = subst IsSound (sym e) (write-IsSound id r v)
Step-IsSound describe {r} (closes id c at e) v = subst IsSound (sym e) (close-IsSound c id r at v)
Step-IsSound describe {r} (limits max_queued_bytes out_chan_cap e) v =
    subst IsSound (sym e) (record {
      router = v.router;
      agree = v.agree;
      gone = v.gone;
      unused = v.unused;
      flag = v.flag;
      listed = v.listed;
      fit = v.fit;
      fits = v.fits;
    })

fresh_racing-IsSound : IsSound fresh_racing
unfolding is_subscribed Router.new_router sessions_at lookup contains new_session has_subject
fresh_racing-IsSound = record {
  router = new_router-IsValid;
  agree = λ id t open_yet calm. refl;
  gone = λ id t out on_time. refl;
  unused = λ id t h. (refl, refl);
  flag = λ id. refl;
  listed = λ id. refl;
  fit = λ id. no_server-IsFit;
  fits = λ id. tt;
}

-- However handlers, writers and the actions of `Close` come between one another, from a new server on:
-- the router is well formed; of every session that is open it knows exactly the subjects that the
-- session lists, but for the one that a SUB or UNSUB of that session is about at the moment; a session
-- that `Close` has removed from it is in it only if a SUB that was handled late has put it there
-- since; a connection that was not accepted yet has neither a handler nor a subscription; the flag
-- `closed` is set exactly from the first action of `Close` on; the server's set holds exactly the
-- sessions that were accepted and not yet taken out by `Close`; every queue is counted right, within
-- both limits, and holds only whole messages within the limits of the protocol; and a handler that was
-- interrupted still finds its subject listed, for SUB, or not listed, for UNSUB, and its frame whole.
pub Racing-IsSound :
    (describe : HandleError → Bytes) {r : Racing} → Reach describe fresh_racing r → IsSound r
Racing-IsSound describe here = fresh_racing-IsSound
Racing-IsSound describe (next r s) = Step-IsSound describe s (Racing-IsSound describe r)
