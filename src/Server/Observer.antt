-- ===== src/Server/Observer.antt =====
-- The lambdas of the SUBSCRIBE branch (include/gnat/server.h, lines 86 to 118).
use gnat.Base.{
  ℕ, ◌-◌, List, [], ◌∷◌, Bool, true, false, ◌||◌, Option, some, take, ◌==◌, if◌then◌else◌,
}
use gnat.Base.Outcome.{done, Prog, and_then, ◌>>=◌}
use gnat.Fields.{StringBuffer, empty_buffer}
use gnat.Connection.{ClientConnection}
use gnat.Packet.{Packet, on_connection}
use gnat.DataStore.{DataStoreEntry}
use gnat.Key.{KeyType}
use gnat.Proto3.Publish.{send_publish}
use gnat.Server.State.{Subscription}

-- `memchr(topic, c, length) != nullptr`.
unfoldable pub contains : ℕ → List ℕ → Bool
contains c [] = false
contains c (x ∷ xs) = x == c || contains c xs

module _ {K C W : Type 0} (keys : KeyType K) (conn : ClientConnection C W) where
  -- The function that FullKeyMatcher or PrefixKeyMatcher made.
  unfoldable pub matches : Subscription K C → K → Bool
  matches s key =
      if s.is_prefix
      then keys.prefix_key_matcher s.target_key key
      else keys.full_key_matcher s.target_key key

  -- The observer's lambda: a PUBLISH on its own connection for a key that matches.
  unfoldable pub notify : Subscription K C → K → DataStoreEntry → Prog W (Bool × Subscription K C)
  unfolding matches
  notify s key entry w =
      if matches s key
      then (and_then (keys.decode_key key (empty_buffer 128)) λ topic.
          and_then
            (send_publish conn.write_partial conn.write
              (record { topic = topic; payload_bytes = entry.size }) entry.bytes (s.conn, w))
            λ (sent, (c, w')). done ((sent, record s { conn = c }), w'))
      else done ((true, s), w)

  abbrev Captured : Type 0
  Captured = Option (Subscription K C)

  -- topic_callback, with the captured `observer`.
  unfoldable pub topic_callback : StringBuffer → Captured → Prog (Packet C × W) (Bool × Captured)
  unfolding on_connection contains
  topic_callback topic observer = on_connection conn.create_heap_copy >>= λ connection_heap. λ s.
      let name = take topic.length_ topic.data_ in
      let is_prefix = contains b'#' name in
      let key_length = if is_prefix then topic.length_ - 1 else topic.length_ in
      if contains b'+' name
      then done ((false, observer), s)
      else and_then (keys.encode_key topic.data_ key_length) λ target_key. done (
        (
          true,
          some (record { is_prefix = is_prefix; target_key = target_key; conn = connection_heap }),
        ),
        s,
      )
