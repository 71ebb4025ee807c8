-- ===== src/Packet/Dumping.antt =====
-- Packet::Dump (include/gnat/packets.h, lines 543 to 553), which reads a packet and logs it.
use gnat.Base.{
  ℕ, zero, suc, ◌^◌, ◌<◌, ◌≡◌, refl, sym, ap, ◌∙◌, List, [], ◌∷◌, ◌++◌, map, false, Option, none,
  some, length, drop, ltb, Bool-cases, inl, inr, if◌then◌else◌,
}
use gnat.Base.Outcome.{Prog, done, undefined, pure, raise, and_then, and_then-done, step, ◌>>◌}
use gnat.Connection.{ClientConnection}
use gnat.Fields.Channel.{Delivers}
use gnat.Fields.Variable.{encoding}
use gnat.Log.{Arguments, Printers, Config, log, print}
use gnat.Packet.{Packet, read, read_next}
use gnat.Packet.Channel.{packet_waiting, packet-Delivers, read_next-packet}
use mathlib.Core.List.{append-nil}

-- "--\n", and "%X " with a byte.
abbrev pub dashes : Arguments
dashes = record { format = b'-' ∷ b'-' ∷ 10 ∷ []; values = [] }

abbrev pub hex_space : ℕ → Arguments
hex_space byte = record { format = b'%' ∷ b'X' ∷ b' ' ∷ []; values = byte ∷ [] }

-- The state of a run beside the packet: the static `log_buffer` and the world.
module _ {W : Type 0} (printers : Printers W) (config : Config) where
  -- The loop over `buffer[i]`, which is read only where LOG expands to a call.
  unfoldable pub dump_loop : ℕ → List ℕ → Prog (List ℕ × W) (Unit {0})
  unfolding log
  dump_loop zero bytes = pure tt
  dump_loop (suc size) [] =
      let rest = dump_loop size [] in if ltb 0 config.level then raise undefined else rest
  dump_loop (suc size) (byte ∷ bytes) = log printers config (hex_space byte) >> dump_loop size bytes

  unfoldable pub log_dump : ℕ → List ℕ → Prog (List ℕ × W) (Unit {0})
  unfolding dump_loop log
  log_dump size bytes =
      log printers config dashes >> dump_loop size bytes >> log printers config dashes

  -- `buffer` is the static array, which the result gives back; it is as it was where the read fails.
  unfoldable pub dump :
      {C : Type 0} → ClientConnection C W → List ℕ → Prog (Packet C × (List ℕ × W)) (List ℕ)
  unfolding read log_dump
  dump conn buffer (p, (log_buffer, w)) =
      let to_read = p.bytes_remaining in
      if ltb (length buffer) to_read
      then undefined
      else and_then (read conn to_read (p, w)) λ (got, (p', w')).
        let buffer' = filled got in
        and_then (log_dump to_read buffer' (log_buffer, w')) λ (x, s). done (buffer', (p', s))
    where
      filled : Option (List ℕ) → List ℕ
      filled none = buffer
      filled (some bytes) = bytes ++ drop (length bytes) buffer

  -- What goes to printf: nothing where logging is off.
  abbrev pub printf_all : List Arguments → W → W
  printf_all [] w = w
  printf_all (a ∷ rest) w = printf_all rest (printers.printf a w)

  abbrev pub printed : List Arguments → W → W
  printed lines w = if ltb 0 config.level then printf_all lines w else w

  module _ (hosted : config.arduino ≡ false) where
    log-printed :
        (a : Arguments) (log_buffer : List ℕ) (w : W)
        → log printers config a (log_buffer, w) ≡ done (tt, (log_buffer, printed (a ∷ []) w))
    unfolding log print
    log-printed a log_buffer w = elim (Bool-cases (ltb 0 config.level)) [
      | inl on ↦ rw (on, hosted) refl
      | inr off ↦ rw off refl
    ]

    printed-append :
        (a : Arguments) (rest : List Arguments) (w : W)
        → printed rest (printed (a ∷ []) w) ≡ printed (a ∷ rest) w
    printed-append a rest w = elim (Bool-cases (ltb 0 config.level)) [
      | inl on ↦ rw on refl
      | inr off ↦ rw off refl
    ]

    dump_loop-printed :
        (body rest : List ℕ) (log_buffer : List ℕ) (w : W)
        → dump_loop (length body) (body ++ rest) (log_buffer, w)
          ≡ done (tt, (log_buffer, printed (map hex_space body) w))
    unfolding dump_loop
    dump_loop-printed [] rest log_buffer w = elim (Bool-cases (ltb 0 config.level)) [
      | inl on ↦ rw on refl
      | inr off ↦ rw off refl
    ]
    dump_loop-printed (b ∷ body) rest log_buffer w =
        step _ _ (log-printed (hex_space b) log_buffer w) (
          dump_loop-printed body rest log_buffer (printed (hex_space b ∷ []) w)
          ∙ ap (λ (u : W). done (tt, (log_buffer, u)))
              (printed-append (hex_space b) (map hex_space body) w))

    printf_all-append :
        (xs : List Arguments) (a : Arguments) (w : W)
        → printers.printf a (printf_all xs w) ≡ printf_all (xs ++ a ∷ []) w
    printf_all-append [] a w = refl
    printf_all-append (x ∷ xs) a w = printf_all-append xs a (printers.printf x w)

    printed-last :
        (xs : List Arguments) (a : Arguments) (w : W)
        → printed (a ∷ []) (printed xs w) ≡ printed (xs ++ a ∷ []) w
    printed-last xs a w = elim (Bool-cases (ltb 0 config.level)) [
      | inl on ↦ rw on (printf_all-append xs a w)
      | inr off ↦ rw off refl
    ]

    log_dump-printed :
        (body rest : List ℕ) (log_buffer : List ℕ) (w : W)
        → log_dump (length body) (body ++ rest) (log_buffer, w)
          ≡ done (tt, (log_buffer, printed (dashes ∷ map hex_space body ++ dashes ∷ []) w))
    unfolding log_dump
    log_dump-printed body rest log_buffer w =
        step _ _
          (step _ _ (log-printed dashes log_buffer w) (
            dump_loop-printed body rest log_buffer (printed (dashes ∷ []) w)
            ∙ ap (λ (u : W). done (tt, (log_buffer, u)))
                (printed-append dashes (map hex_space body) w)))
          (log-printed dashes log_buffer (printed (dashes ∷ map hex_space body) w)
            ∙ ap (λ (u : W). done (tt, (log_buffer, u)))
                (printed-last (dashes ∷ map hex_space body) dashes w))

    module _ {C : Type 0} (conn : ClientConnection C W) (waiting : List ℕ → C × W)
        (delivers : Delivers conn.read waiting) (control : ℕ) (body after : List ℕ) where
      read-body :
          read conn (length body) (packet_waiting conn waiting control after body)
          ≡ done (some body, packet_waiting conn waiting control after [])
      read-body =
          ap
            (λ (bytes : List ℕ).
              read conn (length body) (packet_waiting conn waiting control after bytes))
            (sym (append-nil body))
          ∙ (packet-Delivers conn waiting delivers control after).front body []

      -- On a target other than Arduino and a connection that delivers its bytes, ReadNext of a
      -- control byte and a body of less than 2 ^ 28 bytes gives a packet on which Dump, with its
      -- static buffer of 1024 bytes, behaves by the body's size: up to 1024 bytes it reads the
      -- body into the front of the buffer, uses the packet up, and calls printf with dashes, then
      -- with each byte of the body in order, then with dashes, and not at all where the log level
      -- is 0; a larger body is read behind the end of the buffer, which is undefined.
      pub dump-read_next :
          (buffer log_buffer : List ℕ)
          → length buffer ≡ 1024
          → length body < 2 ^ 28
          → (read_next conn (waiting (control ∷ encoding 3 (length body) ++ (body ++ after)))
              ≡ done (
                some (packet_waiting conn waiting control after body).0,
                waiting (body ++ after),
              ))
            × (dump conn buffer (
              (packet_waiting conn waiting control after body).0,
              (log_buffer, (waiting (body ++ after)).1),
            )
                ≡ (if ltb 1024 (length body)
                    then undefined
                    else done (
                      body ++ drop (length body) buffer,
                      (
                        (packet_waiting conn waiting control after []).0,
                        (
                          log_buffer,
                          printed (dashes ∷ map hex_space body ++ dashes ∷ []) (waiting after).1,
                        ),
                      ),
                    )))
      unfolding dump
      dump-read_next buffer log_buffer size h = (
        read_next-packet conn waiting delivers control body after h,
        rw size (elim (Bool-cases (ltb 1024 (length body))) [
          | inl large ↦ rw large refl
          | inr fits ↦ rw fits (
              and_then-done _ _ read-body (
                and_then-done _ _
                  (log_dump-printed body (drop (length body) buffer) log_buffer (waiting after).1)
                  refl))
        ]),
      )
