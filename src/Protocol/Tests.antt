-- ===== src/Protocol/Tests.antt =====
-- protocol/protocol.go: runs of the encoder and the parsers on small frames.
use kcpq.Protocol.{
  Message, cmd_pub, encode, parsed, parse_with_remaining, parse_from_reader, read_full, parse_body,
  Reader,
}
use kcpq.Protocol.Words.{put_uint16, put_uint32, uint16, uint32, first_byte}
use kcpq.Protocol.RoundTrip.{IsSendable, parse_with_remaining-encode, encode-parse_with_remaining}
use kcpq.Protocol.Streams.{parse_from_reader_complete}
use kcpq.Prelude.{◌≡◌, refl, [], ◌∷◌, ◌++◌, Bytes, codes, length, concat, arith}

abbrev hello : Message
hello = record { command = cmd_pub; subject = codes "a.b"; payload = codes "hi" }

abbrev hello_frame : Bytes
hello_frame = 0 ∷ 0 ∷ 0 ∷ 8 ∷ cmd_pub ∷ 0 ∷ 3 ∷ codes "a.bhi"

hello-IsSendable : IsSendable hello
hello-IsSendable = ground arith

encode-hello : encode hello ≡ hello_frame
unfolding encode put_uint32 put_uint16
encode-hello = refl

parse-hello : parse_with_remaining (hello_frame ++ 7 ∷ []) ≡ parsed hello (7 ∷ [])
unfolding parse_with_remaining uint32 uint16 first_byte
parse-hello = refl

-- The frame, cut by the reads into three.
abbrev cut : Reader
cut = (0 ∷ 0 ∷ []) ∷ (0 ∷ 8 ∷ cmd_pub ∷ 0 ∷ 3 ∷ codes "a") ∷ (codes ".bhi" ++ 7 ∷ []) ∷ []

parse_with_remaining-encode_example :
    parse_with_remaining (encode hello ++ 7 ∷ []) ≡ parsed hello (7 ∷ [])
parse_with_remaining-encode_example = parse_with_remaining-encode hello (7 ∷ []) hello-IsSendable

encode-parse_with_remaining_example :
    IsSendable hello × (encode hello ++ 7 ∷ [] ≡ hello_frame ++ 7 ∷ [])
encode-parse_with_remaining_example =
    encode-parse_with_remaining (hello_frame ++ 7 ∷ []) hello (7 ∷ []) (omega arith) parse-hello

length-hello : length (encode hello) ≡ 12
unfolding encode put_uint32 put_uint16
length-hello = refl

parse_from_reader_complete_example :
    (r' : Reader) × (parse_from_reader cut ≡ parsed hello r') × (concat r' ≡ 7 ∷ [])
parse_from_reader_complete_example = parse_from_reader_complete cut hello (7 ∷ []) parse-hello

read-cut : parse_from_reader cut ≡ parsed hello ((7 ∷ []) ∷ [])
unfolding parse_from_reader read_full parse_body uint32 uint16 first_byte
read-cut = refl
