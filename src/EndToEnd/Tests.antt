-- ===== src/EndToEnd/Tests.antt =====
-- The whole way of a message: session 1 has subscribed to "a.*" and its answer is written; a client has a
-- subscription to the same pattern; another publishes to "a.b".
use kcpq.EndToEnd.{queued}
use kcpq.EndToEnd.Ordering.{
  System, publishes, reads, writes, receives, calls, Reach, here, next, handed,
}
use kcpq.EndToEnd.Ordering.Subsequence.{Subsequence}
use kcpq.EndToEnd.Ordering.Delivery.{IsQuiet, called_in_order}
use kcpq.Client.{update}
use kcpq.Server.{HandleError, handle_and_report}
use kcpq.Protocol.{cmd_msg, read_full, parse_body}
use kcpq.Protocol.Words.{uint16, uint32, first_byte}
use kcpq.EndToEnd.{IsReady, IsWaiting, published_message_arrives}
use kcpq.Client.{Client, handle_message}
use kcpq.Client.Lifecycle.{publish}
use kcpq.Client.Processing.{process_next}
use kcpq.Client.Reconnecting.{connected_client, no_subscription}
use kcpq.Server
use kcpq.Server.{Server, fresh_server, accept}
use kcpq.Server.Sync.{IsSynced}
use kcpq.Server.Publish.{msg_frame}
use kcpq.Router
use kcpq.Router.Relation.{is_subscribed, is_subscribed-subscribe}
use kcpq.Router.Validity.{new_router-IsValid, subscribe-IsValid}
use kcpq.Server.{has_subject}
use kcpq.Session.{Session, new_session, write_next}
use kcpq.Subject.{split, has_suffix, has_prefix, segments_match, has_star_segment}
use kcpq.Subscriptions.{SessionId, sessions_at, lookup, contains}
use kcpq.Protocol.{Message, Reader, new_message_cmd, encode, cmd_pub, parsed, parse_from_reader}
use kcpq.Protocol.Words.{put_uint16, put_uint32}
use kcpq.Prelude.{
  ◌≡◌, refl, true, false, none, some, [], ◌∷◌, ◌++◌, Bytes, codes, beq, concat, arith, ◌==◌,
  if◌then◌else◌,
}

abbrev pattern : Bytes
pattern = codes "a.*"

abbrev subject : Bytes
subject = codes "a.b"

abbrev hi : Bytes
hi = codes "hi"

abbrev publisher : Client
publisher = connected_client []

abbrev subscriber : Client
subscriber = record (connected_client []) {
  subscriptions = 0 ∷ [];
  sub = λ id. record no_subscription { subject = pattern; active = true; capacity = 10 };
  next_sub = 1;
}

abbrev server : Server
server = record fresh_server {
  router = Router.subscribe pattern 1 Router.new_router;
  sessions = 1 ∷ 2 ∷ [];
  session = λ id. record (new_session none) { subjects = if 1 == id then pattern ∷ [] else [] };
}

server-is_subscribed : is_subscribed server.router pattern 1 ≡ true
unfolding beq
server-is_subscribed = is_subscribed-subscribe Router.new_router pattern pattern 1 1

server-matches : Router.match pattern subject ≡ true
unfolding Router.match split has_suffix has_prefix segments_match has_star_segment beq
server-matches = refl

server-IsReady : IsReady (server.session 1) (msg_frame (new_message_cmd cmd_pub subject hi))
unfolding new_session encode put_uint32 put_uint16
server-IsReady = record {
  is_open = refl;
  empty = refl;
  bytes = omega arith;
  limited = omega arith;
  slots = omega arith;
}

subscriber-IsWaiting : IsWaiting subscriber 0 pattern
unfolding contains
subscriber-IsWaiting = record {
  alone = (refl, tt);
  listed = refl;
  active = refl;
  subject = refl;
  is_open = refl;
  empty = refl;
  room = omega arith;
}

nothing : (t : Bytes) (id : SessionId) → is_subscribed Router.new_router t id ≡ false
unfolding is_subscribed Router.new_router sessions_at lookup contains
nothing t id = refl

server-IsSynced : IsSynced server
unfolding has_subject
server-IsSynced = record {
  router = subscribe-IsValid pattern 1 Router.new_router new_router-IsValid;
  agree = λ id t h.
      ground (arith, is_subscribed-subscribe Router.new_router pattern t 1 id, nothing t id);
}

published_message_arrives_example :
    (frame : Bytes) × (out : Bytes) × (m : Message) × (m' : Message) × (publish subject hi false
        false publisher
      ≡ (record publisher { written = publisher.written ++ frame ∷ [] }, none))
    × ((r : Reader) (rest : Bytes)
        → concat r ≡ frame ++ rest
        → (r' : Reader) × (parse_from_reader r ≡ parsed m r') × (concat r' ≡ rest))
    × ((write_next ((Server.handle_message m 2 server).0.session 1)).1 ≡ some out)
    × ((r : Reader) (rest : Bytes)
        → concat r ≡ out ++ rest
        → (r' : Reader) × (parse_from_reader r ≡ parsed m' r') × (concat r' ≡ rest))
    × ((process_next ((handle_message m' subscriber).sub 0)).1
        ≡ some (record { subject = subject; body = hi }))
published_message_arrives_example =
    published_message_arrives subject hi pattern publisher subscriber server 2 1 0 (omega arith)
      refl server-IsSynced server-is_subscribed server-matches server-IsReady subscriber-IsWaiting

abbrev silent : HandleError → Bytes
silent e = []

abbrev pub_frame : Bytes
pub_frame = 0 ∷ 0 ∷ 0 ∷ 8 ∷ cmd_pub ∷ 0 ∷ 3 ∷ codes "a.bhi"

abbrev frame : Bytes
frame = 0 ∷ 0 ∷ 0 ∷ 8 ∷ cmd_msg ∷ 0 ∷ 3 ∷ codes "a.bhi"

abbrev quiet : System
quiet = record {
  publisher = publisher;
  up = [];
  server = server;
  down = [];
  subscriber = subscriber;
  published = [];
  called = [];
}

quiet-IsQuiet : IsQuiet 1 0 quiet
unfolding new_session contains
quiet-IsQuiet = record {
  up = refl;
  queue = refl;
  down = refl;
  channel = refl;
  called = refl;
  distinct = (refl, tt);
}

abbrev sent : System
sent = record quiet {
  publisher = record publisher { written = pub_frame ∷ [] };
  up = pub_frame;
  published = record { subject = subject; body = hi } ∷ [];
}

sent-Reach : Reach silent 2 1 0 quiet sent
unfolding publish encode put_uint32 put_uint16
sent-Reach = next here (publishes subject hi false false pub_frame refl refl)

parse-pub :
    parse_from_reader (pub_frame ∷ []) ≡ parsed (new_message_cmd cmd_pub subject hi) ([] ∷ [])
unfolding parse_from_reader read_full parse_body uint32 uint16 first_byte
parse-pub = refl

parse-msg : parse_from_reader (frame ∷ []) ≡ parsed (new_message_cmd cmd_msg subject hi) ([] ∷ [])
unfolding parse_from_reader read_full parse_body uint32 uint16 first_byte
parse-msg = refl

abbrev handled : Server
handled = handle_and_report silent (new_message_cmd cmd_pub subject hi) 2 server

handled-queue : (handled.session 1).out_chan ≡ frame ∷ []
unfolding handle_and_report Server.handle_message encode put_uint32 put_uint16
handled-queue =
    queued subject hi pattern server 1 2 server-IsSynced (omega arith) server-is_subscribed
      server-matches server-IsReady

write_next-first :
    (s : Session) (first : Bytes) → s.out_chan ≡ first ∷ [] → (write_next s).1 ≡ some first
unfolding write_next
write_next-first s first e = ground arith

write-frame : (write_next (handled.session 1)).1 ≡ some frame
write-frame = write_next-first (handled.session 1) frame handled-queue

abbrev done : System
done = record sent {
  server = record handled {
    session = Server.update handled.session 1 (write_next (handled.session 1)).0;
  };
  up = [];
  subscriber =
      let c = handle_message (new_message_cmd cmd_msg subject hi) subscriber in
      record c { sub = update c.sub 0 (process_next (c.sub 0)).0 };
  called =
      handed
        (process_next ((handle_message (new_message_cmd cmd_msg subject hi) subscriber).sub 0)).1;
}

done-Reach : Reach silent 2 1 0 quiet done
done-Reach =
    let r1 =
      next sent-Reach (
        reads (pub_frame ∷ []) ([] ∷ []) (new_message_cmd cmd_pub subject hi) refl parse-pub
          refl) in
    let r2 = next r1 (writes frame write-frame refl) in
    let r3 =
      next r2 (
        receives (frame ∷ []) ([] ∷ []) (new_message_cmd cmd_msg subject hi) refl parse-msg refl) in
    next r3 (calls refl)

called_in_order_example : Subsequence done.called done.published
called_in_order_example = called_in_order silent 2 1 0 quiet-IsQuiet done-Reach
