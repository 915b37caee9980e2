-- ===== src/Server/Races/Tests.antt =====
-- server/session.go: a session that subscribes to "a.*", with its `Close` begun before the router is told.
use kcpq.Server.Races.{
  Racing, Reach, here, next, begins, goes_on, accepts, closes, entering, alive, begin, go_on_from,
  close_from, fresh_racing, set,
}
use kcpq.Server.Races.Invariant.{IsSound}
use kcpq.Server.Races.Soundness.{Racing-IsSound}
use kcpq.Server.Races.Whole.{IsAfter, begin-handle_and_report}
use kcpq.Server.{HandleError, accept, handle_and_report, has_subject}
use kcpq.Session.{new_session}
use kcpq.Protocol.{Message, new_message_cmd, cmd_sub}
use kcpq.Protocol.RoundTrip.{IsSendable}
use kcpq.Prelude.{refl, [], Bytes, codes, arith}

abbrev silent : HandleError → Bytes
silent e = []

abbrev sub_a : Message
sub_a = new_message_cmd cmd_sub (codes "a.*") []

sub_a-IsSendable : IsSendable sub_a
sub_a-IsSendable = omega arith

abbrev accepted : Racing
accepted = record fresh_racing {
  server = accept 1 fresh_racing.server;
  stage = set fresh_racing.stage 1 alive;
}

accepted-Reach : Reach silent fresh_racing accepted
accepted-Reach = next here (accepts 1 refl refl)

abbrev begun : Racing
begun = begin sub_a 1 accepted

abbrev closing_begun : Racing
closing_begun = close_from alive 1 begun

abbrev entered : Racing
entered = go_on_from silent (entering (codes "a.*")) 1 closing_begun

entered-Reach : Reach silent fresh_racing entered
unfolding accept new_session begin has_subject
entered-Reach =
    next
      (next (next accepted-Reach (begins 1 sub_a refl refl sub_a-IsSendable refl))
        (closes 1 alive refl refl))
      (goes_on 1 (entering (codes "a.*")) refl refl)

Racing-IsSound_example : IsSound entered
Racing-IsSound_example = Racing-IsSound silent entered-Reach

begin-handle_and_report_example :
    (t : Racing) × Reach silent accepted t
    × IsAfter (handle_and_report silent sub_a 1 accepted.server) 1 accepted t
begin-handle_and_report_example =
    begin-handle_and_report silent 1 sub_a accepted refl refl sub_a-IsSendable
