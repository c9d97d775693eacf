-- ===== src/Socket/Total.antt =====
-- `receivePacket` (src/sockets/rs_socket.cpp) on whatever the network sends.
use labyrinthus.Base.{
  ℕ, ◌<◌, ◌≡◌, refl, Bytes, Bool, List, [], ◌∷◌, ◌++◌, some, none, ◌==◌, arith, length, take, drop,
  codes, length-append, length-take, length-drop,
}
use labyrinthus.Base.Words.{int_limit}
use labyrinthus.Object.Parse.{parse, parsed, rejected}
use labyrinthus.Object.Safety.{Sure, Sure-bind, Sure-if, Within}
use labyrinthus.Object.Typed.{Named}
use labyrinthus.Defines.Table.{structs, nesting, create_rss_object_with_type}
use labyrinthus.Defines.Safe.{create_defined, parse_defined}
use labyrinthus.Object.Description.{find_description}
use labyrinthus.Socket.Packet.{
  Socket, Event, failed, datagram, received, receive_loop, receive_packet,
}

packet_found : find_description structs (codes "packet_t") ≡ some (codes "char cmd,dyn data")
unfolding find_description structs
packet_found = refl

pub length-received : (buffer payload : Bytes) → length (received buffer payload) ≡ length buffer
length-received buffer payload = omega (
  arith,
  length-append (take (length buffer) payload) (drop (length payload) buffer),
  length-take (length buffer) payload,
  length-drop (length payload) buffer,
)

-- A socket that has what the buffer of `n` bytes held
abbrev pub Ready : ℕ → Socket × Bool × List Event → Type 0
Ready n r = length r.0.buffer ≡ n

receive_loop-Sure :
    (n : ℕ) (s : Socket) (events rest : List Event)
    → length s.buffer ≡ n
    → n < int_limit
    → Sure (Ready n) (receive_loop s (events ++ (failed ∷ rest)))
unfolding receive_loop create_rss_object_with_type
receive_loop-Sure n s [] rest e h = e
receive_loop-Sure n s (failed ∷ events) rest e h = e
receive_loop-Sure n s (datagram sin slen payload ∷ events) rest e h =
    let full : length (received s.buffer payload) ≡ n =
      omega (arith, length-received s.buffer payload) in
    let again =
      receive_loop-Sure n
        (record s { sin_tmp = sin; slen_tmp = slen; buffer = received s.buffer payload }) events
        rest full h in
    let rr = length (take (length s.buffer) payload) in
    Sure-if (Ready n) (rr == 0) _ _ (λ _. again)
      (λ _.
        Sure-bind (Named structs (codes "packet_t")) (Ready n)
          (create_rss_object_with_type (codes "packet_t")) _
          (create_defined (codes "packet_t") packet_found)
          (λ o named.
            Sure-bind (Within rr) (Ready n) (parse nesting structs o (received s.buffer payload) rr)
              _
              (parse_defined o (received s.buffer payload) rr named.1 (λ other. cc)
                (omega (arith, length-take (length s.buffer) payload))
                (omega (arith, length-take (length s.buffer) payload)))
              (elim [ parsed o' k ↦ λ w. full | rejected o' ↦ λ w. again ])))

-- With a buffer below 2^31 bytes, and any datagrams before a receive that fails, receivePacket
-- ends with a result, never outside its buffer and never with the end of the process, and the
-- buffer keeps its length.
pub receive_packet-Sure :
    (s : Socket) (events rest : List Event)
    → length s.buffer < int_limit
    → Sure (Ready (length s.buffer)) (receive_packet s (events ++ (failed ∷ rest)))
unfolding receive_packet
receive_packet-Sure s events rest h =
    Sure-if (Ready (length s.buffer)) s.is_open _ _
      (λ _.
        receive_loop-Sure (length s.buffer) (record s { rso_data = none; slen_tmp = 1024 }) events
          rest refl h)
      (λ _. refl)
