-- ===== src/Server/Ending/Connecting.antt =====
-- Where the answer to a CONNECT can run out of fuel: only in its connection.
use gnat.Base.{ℕ, ◌≡◌, sym, ◌∙◌, List, [], ◌∷◌, Bool, true, Option, none, some, ◌==◌}
use gnat.Base.Outcome.{out_of_fuel, ◌>>◌}
use gnat.Base.Ensures.{
  Any, Ensures, Ensures-undefined, Ensures-done, Ensures-if, Ensures-and_then, Ensures-bind,
  Ensures-weaken,
}
use gnat.Connection.{ClientConnection, ConnectionType}
use gnat.Packet.{Packet}
use gnat.Packet.Shrinking.{on_connection-NoMore}
use gnat.Proto3.Connect.{Connect}
use gnat.Proto3.ConnectAck.{new_connect_ack, send_connect_ack, send_connect_ack-wire}
use gnat.Server.Connecting.{
  strcmp_eq, wrong_protocol, level_type, set_type, reply_connect, answer_connect, or_undefined,
}

module _ (stuck : Type 0) where
  strcmp_eq-Any : (xs ys : List ℕ) → Ensures stuck Any (strcmp_eq xs ys)
  unfolding strcmp_eq
  strcmp_eq-Any [] ys = Ensures-undefined stuck Any
  strcmp_eq-Any (x ∷ xs) [] = Ensures-undefined stuck Any
  strcmp_eq-Any (x ∷ xs) (y ∷ ys) =
      Ensures-if stuck Any (x == y) _ _
        (λ _.
          Ensures-if stuck Any (x == 0) _ _ (λ _. Ensures-done stuck Any tt)
            (λ _. strcmp_eq-Any xs ys))
        (λ _. Ensures-done stuck Any tt)

  wrong_protocol-Any : (name : List ℕ) → Ensures stuck Any (wrong_protocol name)
  unfolding wrong_protocol
  wrong_protocol-Any name =
      Ensures-and_then stuck Any Any (strcmp_eq (b'M' ∷ b'Q' ∷ b'T' ∷ b'T' ∷ 0 ∷ []) name) _
        (strcmp_eq-Any (b'M' ∷ b'Q' ∷ b'T' ∷ b'T' ∷ 0 ∷ []) name)
        λ first q.
          Ensures-if stuck Any first _ _
            (λ _. strcmp_eq-Any (b'M' ∷ b'Q' ∷ b'I' ∷ b's' ∷ b'd' ∷ b'p' ∷ 0 ∷ []) name)
            (λ _. Ensures-done stuck Any tt)

  module _ {C W : Type 0} (conn : ClientConnection C W)
      (write_ends : (bytes : List ℕ) (s : C × W) → conn.write bytes s ≡ out_of_fuel → stuck) where
    reply_connect-Any :
        (error : Bool) (s : Packet C × W) → Ensures stuck Any (reply_connect conn error s)
    unfolding reply_connect
    reply_connect-Any error s =
        Ensures-bind stuck Any Any _ _ s
          (Ensures-weaken stuck _ (λ x q. tt)
            (on_connection-NoMore stuck
              (send_connect_ack conn.write (record new_connect_ack { error = error })) s
              (λ t e. write_ends _ t (
                sym (send_connect_ack-wire conn.write (record new_connect_ack { error = error }) t)
                ∙ e))))
          λ sent t q. Ensures-done stuck Any tt

    set_type_reply-Any :
        (o : Option ConnectionType) (wrong : Bool) (s : Packet C × W)
        → Ensures stuck Any (elim o [
          | none ↦ reply_connect conn true s
          | some t ↦ (set_type conn t >> reply_connect conn wrong) s
        ])
    unfolding set_type
    set_type_reply-Any none wrong s = reply_connect-Any true s
    set_type_reply-Any (some t) wrong (p, w) =
        Ensures-bind stuck Any Any (set_type conn t) _ (p, w) (Ensures-done stuck Any tt)
          λ x u q. reply_connect-Any wrong u

    pub or_undefined-Any :
        (o : Option Connect) (s : Packet C × W) → Ensures stuck Any (or_undefined conn o s)
    unfolding or_undefined answer_connect
    or_undefined-Any none s = Ensures-undefined stuck Any
    or_undefined-Any (some c) s =
        Ensures-and_then stuck Any Any (wrong_protocol c.protocol_name.data_) _
          (wrong_protocol-Any c.protocol_name.data_)
          λ wrong q. set_type_reply-Any (level_type c.protocol_level) wrong s
