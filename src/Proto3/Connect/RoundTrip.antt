-- ===== src/Proto3/Connect/RoundTrip.antt =====
-- Connect::SendOn, and Connect::ReadFrom on what it sends.
use gnat.Base.{
  ℕ, ◌+◌, ◌/◌, ◌%◌, ◌^◌, ◌<◌, ◌≡◌, ap, ◌∙◌, arith, List, ◌∷◌, ◌++◌, Bool, Option, some, length,
  length-append,
}
use gnat.Base.Bits.{low_byte}
use gnat.Base.Outcome.{done, Prog, step?}
use gnat.Fields.{empty_buffer}
use gnat.Fields.Channel.{Delivers, read_bytes-one, read_bytes-two, read_string-fits}
use gnat.Header.{packet_code}
use gnat.Buffer.Writes.{
  IsBuffer, text, stored, Writes, put_then, text_then, Writes-text, patch-Writes, send-Writes,
  length-text,
}
use gnat.Proto3.Connect.{Connect, fill_connect, send_connect, read_connect}
use mathlib.Core.List.{append_assoc}

-- The values that the C++ types allow.
pub record IsConnect (c : Connect) : Type 0 where
  pub name : IsBuffer 6 c.protocol_name
  pub level : c.protocol_level < 256
  pub flag_byte : c.flags < 256
  pub alive : c.keep_alive < 2 ^ 16
  pub id : IsBuffer 23 c.client_id

abbrev pub connect_tail : Connect → List ℕ
connect_tail c =
    c.protocol_level
    ∷ c.flags
    ∷ (c.keep_alive / 256)
    ∷ (c.keep_alive % 256)
    ∷ 0
    ∷ c.client_id.length_
    ∷ text c.client_id

-- A CONNECT packet behind its fixed header, in the order of the MQTT standard.
abbrev pub connect_body : Connect → List ℕ
connect_body c = 0 ∷ c.protocol_name.length_ ∷ text c.protocol_name ++ connect_tail c

abbrev pub connect_wire : Connect → List ℕ
connect_wire c = 0x10 ∷ length (connect_body c) ∷ connect_body c

pub fill_connect-Writes :
    (c : Connect) → IsConnect c → Writes 128 (fill_connect c) (0x10 ∷ 0 ∷ connect_body c)
unfolding fill_connect packet_code
fill_connect-Writes c v = rw (low_byte c.keep_alive) (
    put_then _ _ (omega arith) (
      put_then _ _ (omega arith) (
        put_then _ _ (omega arith) (
          put_then _ _ (omega (arith, v.name.fits)) (
            text_then c.protocol_name _ v.name (
              put_then _ _ v.level (
                put_then _ _ v.flag_byte (
                  put_then _ _ (omega (arith, v.alive)) (
                    put_then _ _ (omega arith) (
                      put_then _ _ (omega arith) (
                        put_then _ _ (omega (arith, v.id.fits))
                          (Writes-text c.client_id v.id))))))))))))

pub length-connect_body :
    (c : Connect)
    → IsConnect c
    → length (connect_body c) ≡ c.protocol_name.length_ + c.client_id.length_ + 8
length-connect_body c v = omega (
  arith,
  length-append (text c.protocol_name) (connect_tail c),
  length-text c.protocol_name v.name,
  length-text c.client_id v.id,
)

-- Connect::SendOn of a well-formed Connect stays in its buffer and hands the CONNECT packet, with
-- its length, to Write.
pub send_connect-wire :
    {S : Type 0} (write : List ℕ → Prog S Bool) (c : Connect) (s : S)
    → IsConnect c
    → send_connect write c s ≡ write (connect_wire c) s
unfolding send_connect
send_connect-wire write c s v =
    let n = length-connect_body c v in
    send-Writes _ write s (
      patch-Writes (fill_connect-Writes c v) (omega (arith, n, v.name.fits, v.id.fits))
      ∙ ap (λ (k : ℕ). done (tt, 0x10 ∷ k ∷ connect_body c))
          (omega (arith, n, v.name.fits, v.id.fits)))

-- What ReadFrom makes of a CONNECT packet: it does not read the client id.
abbrev pub received_connect : Connect → Connect
received_connect c = record c {
  protocol_name = stored 6 (text c.protocol_name);
  client_id = empty_buffer 23;
}

-- On a client that delivers its bytes, Connect::ReadFrom reads the body that SendOn writes for a
-- well-formed Connect back, whatever the memory held, except for the client id, which stays
-- unread.
pub read_connect-body :
    {S : Type 0} (read : ℕ → Prog S (Option (List ℕ))) (waiting : List ℕ → S)
    (delivers : Delivers read waiting) (memory c : Connect) (rest : List ℕ)
    → IsConnect c
    → read_connect read memory (waiting (connect_body c ++ rest))
      ≡ done
          (some (received_connect c), waiting (0 ∷ c.client_id.length_ ∷ text c.client_id ++ rest))
unfolding read_connect
read_connect-body read waiting delivers memory c rest v = rw append_assoc (
    step? _ _
      (read_string-fits read waiting delivers (empty_buffer 6) (text c.protocol_name)
        (connect_tail c ++ rest) 0 c.protocol_name.length_ (omega (arith, v.name.fits))
        (omega (arith, length-text c.protocol_name v.name))
        (omega (arith, length-text c.protocol_name v.name, v.name.fits)))
      (step? _ _ (read_bytes-one read waiting delivers c.protocol_level memory.protocol_level _) (
        step? _ _ (read_bytes-one read waiting delivers c.flags memory.flags _) (
          step? _ _
            (read_bytes-two read waiting delivers (c.keep_alive / 256) (c.keep_alive % 256)
              memory.keep_alive _)
            (ap
              (λ (k : ℕ). done (
                some (record (received_connect c) { keep_alive = k }),
                waiting (0 ∷ c.client_id.length_ ∷ text c.client_id ++ rest),
              ))
              (omega arith))))))
