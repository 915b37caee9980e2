-- ===== src/Protocol.antt =====
-- protocol/protocol.go: the wire format of a message, its encoder and its two parsers.
-- `Encode` writes into a slice of exactly the computed size, so its result is the concatenation of
-- what it writes; the two length fields keep the wrap of `uint32(...)` and `uint16(...)`.
-- An `io.Reader` is the list of what its successive `Read` calls return, then end of file.
pub mod Words
pub mod RoundTrip
pub mod Framing
pub mod Streams
mod Tests
use Words.{put_uint32, put_uint16, uint32, uint16, first_byte}
use kcpq.Prelude.{
  ℕ, suc, ◌+◌, ◌-◌, ◌*◌, ◌≡◌, Bool, true, false, ◌||◌, List, [], ◌∷◌, ◌++◌, Bytes, ltb, leb, ◌==◌,
  if◌then◌else◌, length, take, drop, codes, beq,
}

abbrev pub max_subject_len : ℕ
max_subject_len = 4 * 1024

abbrev pub max_body_len : ℕ
max_body_len = 8 * 1024 * 1024

abbrev pub cmd_sub : ℕ
cmd_sub = 0x01

abbrev pub cmd_unsub : ℕ
cmd_unsub = 0x02

abbrev pub cmd_pub : ℕ
cmd_pub = 0x03

abbrev pub cmd_msg : ℕ
cmd_msg = 0x04

abbrev pub cmd_ping : ℕ
cmd_ping = 0x05

abbrev pub cmd_pong : ℕ
cmd_pong = 0x06

abbrev pub cmd_ok : ℕ
cmd_ok = 0x07

abbrev pub cmd_err : ℕ
cmd_err = 0x08

pub record Message : Type 0 where
  pub command : ℕ
  pub subject : Bytes
  pub payload : Bytes

abbrev pub new_message_cmd : ℕ → Bytes → Bytes → Message
new_message_cmd command subject payload = record {
  command = command;
  subject = subject;
  payload = payload;
}

unfoldable pub cmd_string_to_byte : Bytes → ℕ
unfolding beq
cmd_string_to_byte s =
    if beq s (codes "SUB")
    then cmd_sub
    else if beq s (codes "UNSUB")
    then cmd_unsub
    else if beq s (codes "PUB")
    then cmd_pub
    else if beq s (codes "MSG")
    then cmd_msg
    else if beq s (codes "PING")
    then cmd_ping
    else if beq s (codes "PONG")
    then cmd_pong
    else if beq s (codes "OK")
    then cmd_ok
    else if beq s (codes "ERR")
    then cmd_err
    else 0

-- `fmt.Sprintf("UNKNOWN(%d)", cmd)` of the default case is the parameter `unknown`.
unfoldable pub cmd_byte_to_string : (ℕ → Bytes) → ℕ → Bytes
cmd_byte_to_string unknown cmd =
    if cmd == cmd_sub
    then codes "SUB"
    else if cmd == cmd_unsub
    then codes "UNSUB"
    else if cmd == cmd_pub
    then codes "PUB"
    else if cmd == cmd_msg
    then codes "MSG"
    else if cmd == cmd_ping
    then codes "PING"
    else if cmd == cmd_pong
    then codes "PONG"
    else if cmd == cmd_ok
    then codes "OK"
    else if cmd == cmd_err
    then codes "ERR"
    else unknown cmd

unfoldable pub new_message : Bytes → Bytes → Bytes → Message
new_message command_str = new_message_cmd (cmd_string_to_byte command_str)

-- Everything behind the length prefix: command, subject length, subject, payload.
abbrev pub body_of : Message → Bytes
body_of m = m.command ∷ (put_uint16 (length m.subject) ++ (m.subject ++ m.payload))

unfoldable pub encode : Message → Bytes
encode m =
    let body_len = 1 + 2 + length m.subject + length m.payload in put_uint32 body_len ++ body_of m

pub data ParseError : Type 0 where
  data_too_short : ParseError
  invalid_body_length : ℕ → ParseError
  incomplete_message : (need got : ℕ) → ParseError
  invalid_subject_length : ParseError
  failed_to_read_length : ParseError
  failed_to_read_data : ParseError
  empty_message_body : ParseError
  too_short_for_subject_length : ParseError

-- The message or the error, with the bytes that are left.
pub data Parsed (R : Type 0) : Type 0 where
  parsed : Message → R → Parsed R
  refused : ParseError → R → Parsed R

-- `bodyLen <= 0 || bodyLen > MaxBodyLen`
abbrev pub bad_body_len : ℕ → Bool
bad_body_len n = n == 0 || ltb max_body_len n

-- `subjectLen < 0 || subjectLen > MaxSubjectLen || offset+subjectLen > len(msgData)` at offset 3
abbrev pub bad_subject_len : ℕ → Bytes → Bool
bad_subject_len n msg_data = ltb max_subject_len n || ltb (length msg_data) (3 + n)

-- The message that `msgData` holds, once its subject length is known to be good.
abbrev pub message_in : ℕ → Bytes → Message
message_in subject_len msg_data = record {
  command = first_byte msg_data;
  subject = take subject_len (drop 3 msg_data);
  payload = drop subject_len (drop 3 msg_data);
}

-- `msgData[1:3]` may reach past `len(msgData)` into `data`, which is why the subject length is read
-- from `data` itself.
unfoldable pub parse_with_remaining : Bytes → Parsed Bytes
parse_with_remaining bytes =
    if ltb (length bytes) 7
    then refused data_too_short bytes
    else let body_len = uint32 (take 4 bytes) in
      if bad_body_len body_len
      then refused (invalid_body_length body_len) bytes
      else let total_packet_len = body_len + 4 in
        if ltb (length bytes) total_packet_len
        then refused (incomplete_message total_packet_len (length bytes)) bytes
        else let msg_data = take body_len (drop 4 bytes) in
          let subject_len = uint16 (take 2 (drop 5 bytes)) in
          if bad_subject_len subject_len msg_data
          then refused invalid_subject_length bytes
          else parsed (message_in subject_len msg_data) (drop total_packet_len bytes)

abbrev pub Reader : Type 0
Reader = List Bytes

-- `io.ReadFull`: reads until it has `n` bytes; an error leaves what was read consumed.
pub data ReadFull : Type 0 where
  full : Bytes → Reader → ReadFull
  short : ReadFull

abbrev prepend : Bytes → ReadFull → ReadFull
prepend got (full more r) = full (got ++ more) r
prepend got short = short

unfoldable pub read_full : ℕ → Reader → ReadFull
read_full n [] = if n == 0 then full [] [] else short
read_full n (chunk ∷ r) =
    let more = prepend chunk (read_full (n - length chunk) r) in
    if leb n (length chunk) then full (take n chunk) (drop n chunk ∷ r) else more

-- The part of `ParseFromReader` behind the second `ReadFull`.
unfoldable pub parse_body : Bytes → Reader → Parsed Reader
parse_body msg_data r =
    if length msg_data == 0
    then refused empty_message_body r
    else if ltb (length msg_data) 3
    then refused too_short_for_subject_length r
    else let subject_len = uint16 (take 2 (drop 1 msg_data)) in
      if bad_subject_len subject_len msg_data
      then refused invalid_subject_length r
      else parsed (message_in subject_len msg_data) r

unfoldable pub parse_from_reader : Reader → Parsed Reader
parse_from_reader r = elim (read_full 4 r) [
  | short ↦ refused failed_to_read_length []
  | full length_buf r' ↦
      let body_len = uint32 length_buf in
      if bad_body_len body_len
      then refused (invalid_body_length body_len) r'
      else elim (read_full body_len r') [
        | short ↦ refused failed_to_read_data []
        | full msg_data r'' ↦ parse_body msg_data r''
      ]
]
