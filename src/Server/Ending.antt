-- ===== src/Server/Ending.antt =====
-- Where the server can run out of fuel: only in its connections, its clock and its keys.
pub mod Connecting
use gnat.Base.{ℕ, ◌-◌, ◌≡◌, refl, arith, Bool, true, List, Option, take, if◌then◌else◌}
use gnat.Base.Outcome.{Outcome, Prog, done, out_of_fuel, undefined, pure, raise, ◌>>=◌}
use gnat.Base.Ensures.{
  Any, Ensures, Ensures-done, Ensures-run, Ensures-if, Ensures-branch, Ensures-and_then,
  Ensures-bind, Ensures-weaken,
}
use gnat.Connection.{ClientConnection}
use gnat.DataStore.{DataStoreEntry}
use gnat.Fields.{StringBuffer, empty_buffer}
use gnat.Fields.Shrinking.{NoMore}
use gnat.Key.{KeyType}
use gnat.Packet.{Packet, on_connection, remaining}
use gnat.Packet.Shrinking.{on_connection-NoMore}
use gnat.Proto3.Ending.{send_publish-Any}
use gnat.Server.Observer.{matches, notify, contains, topic_callback}
use gnat.Server.State.{Subscription}

-- Each call of what the server is built on comes back, or proves `stuck`.
pub record Ends (stuck : Type 0) {K C W : Type 0} (keys : KeyType K) (conn : ClientConnection C W)
    (timestamp : Prog W ℕ) : Type 0 where
  pub read : (n : ℕ) (s : C × W) → conn.read n s ≡ out_of_fuel → stuck
  pub write : (bytes : List ℕ) (s : C × W) → conn.write bytes s ≡ out_of_fuel → stuck
  pub write_partial :
      (bytes : List ℕ) (s : C × W) → conn.write_partial bytes s ≡ out_of_fuel → stuck
  pub close : (s : C × W) → conn.close s ≡ out_of_fuel → stuck
  pub copy : (s : C × W) → conn.create_heap_copy s ≡ out_of_fuel → stuck
  pub encode : (bytes : List ℕ) (n : ℕ) → keys.encode_key bytes n ≡ out_of_fuel → stuck
  pub decode : (key : K) (out : StringBuffer) → keys.decode_key key out ≡ out_of_fuel → stuck
  pub time : (w : W) → timestamp w ≡ out_of_fuel → stuck

module _ (stuck : Type 0) {K C W : Type 0} (keys : KeyType K) (conn : ClientConnection C W)
    (timestamp : Prog W ℕ) (ends : Ends stuck keys conn timestamp) where
  pub notify-Any :
      (s : Subscription K C) (key : K) (entry : DataStoreEntry) (w : W)
      → Ensures stuck Any (notify keys conn s key entry w)
  unfolding notify
  notify-Any s key entry w =
      Ensures-if stuck Any (matches keys conn s key) _ _
        (λ _.
          Ensures-and_then stuck Any Any (keys.decode_key key (empty_buffer 128)) _
            (Ensures-run stuck Any _ (ends.decode key (empty_buffer 128)) (λ x e. tt))
            λ topic q.
              Ensures-and_then stuck Any Any _ _
                (send_publish-Any stuck conn.write_partial conn.write ends.write_partial ends.write
                  (record { topic = topic; payload_bytes = entry.size }) entry.bytes (s.conn, w))
                (λ (sent, (c, w')) r. Ensures-done stuck Any tt))
        (λ _. Ensures-done stuck Any tt)

  pub topic_callback-NoMore :
      (out : StringBuffer) (a : Option (Subscription K C)) (s : Packet C × W)
      → Ensures stuck (NoMore stuck remaining s) (topic_callback keys conn out a s)
  unfolding topic_callback
  topic_callback-NoMore out a s =
      Ensures-bind stuck (NoMore stuck remaining s) (NoMore stuck remaining s) _ _ s
        (on_connection-NoMore stuck conn.create_heap_copy s ends.copy)
        λ heap t q.
          let name = take out.length_ out.data_ in
          let key_length = if contains b'#' name then out.length_ - 1 else out.length_ in
          Ensures-if stuck (NoMore stuck remaining s) (contains b'+' name) _ _
            (λ _. Ensures-done stuck (NoMore stuck remaining s) q)
            λ _.
              Ensures-and_then stuck Any (NoMore stuck remaining s)
                (keys.encode_key out.data_ key_length) _
                (Ensures-run stuck Any _ (ends.encode out.data_ key_length) (λ x e. tt))
                (λ target r. Ensures-done stuck (NoMore stuck remaining s) q)
