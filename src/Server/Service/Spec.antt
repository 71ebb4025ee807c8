-- ===== src/Server/Service/Spec.antt =====
-- What a broker promises: clients send messages, and sockets get bytes. Nothing here parses, keeps
-- keys or sends on a connection.
use gnat.Base.{
  ℕ, ◌+◌, ◌/◌, ◌%◌, ◌<◌, ◌≤◌, ◌^◌, ◌≡◌, List, [], ◌∷◌, ◌++◌, map, All, Bool, false, if◌then◌else◌,
  ◌==◌, ◌&&◌, leb, length,
}
use gnat.Fields.Variable.{encoding}
use gnat.Proto3.Connect.{Connect}
use gnat.Proto3.Connect.RoundTrip.{IsConnect, connect_body}
use gnat.Proto3.Subscribe.Reading.{Filter, filters_wire}
use gnat.Server.Observer.{contains}
use gnat.Status.{same_text}

-- `exact t` is written t, and `prefix t` is written t#.
pub data TopicFilter : Type 0 where
  exact prefix : List ℕ → TopicFilter

abbrev pub name : TopicFilter → List ℕ
name (exact t) = t
name (prefix t) = t

abbrev pub written : TopicFilter → List ℕ
written (exact t) = t
written (prefix t) = t ++ b'#' ∷ []

-- The quality of service of a PUBLISH, with the packet id where there is one.
pub data Qos : Type 0 where
  at_most_once : Qos
  at_least_once exactly_once : ℕ → Qos

-- A topic of a SUBSCRIBE, with the QoS that it asks for.
pub record Request : Type 0 where
  pub filter : TopicFilter
  pub qos : ℕ

pub data Message : Type 0 where
  connecting : Connect → Message
  -- DUP and RETAIN, the topic and the payload.
  publishing : Qos → (duplicate retain : Bool) → (topic payload : List ℕ) → Message
  -- The packet id, and the topics, the last apart.
  subscribing : ℕ → List Request → Request → Message
  pinging disconnecting : Message

pub record Retained : Type 0 where
  pub topic : List ℕ
  pub payload : List ℕ

pub record Subscriber : Type 0 where
  pub socket : ℕ
  pub filter : TopicFilter

-- The last payload of each topic, the latest first, and who subscribed, the oldest first.
pub record View : Type 0 where
  pub retained : List Retained
  pub subscribers : List Subscriber

-- A client sends a message on its socket, or the program forgets a client.
pub data Event : Type 0 where
  received : ℕ → Message → Event
  forgotten : ℕ → Event

abbrev pub without_topic : List ℕ → List Retained → List Retained
without_topic topic [] = []
without_topic topic (r ∷ rest) =
    if same_text r.topic topic then without_topic topic rest else r ∷ without_topic topic rest

abbrev pub without_socket : ℕ → List Subscriber → List Subscriber
without_socket socket [] = []
without_socket socket (s ∷ rest) =
    if s.socket == socket then without_socket socket rest else s ∷ without_socket socket rest

-- The view after an event.
abbrev pub after_message : Message → ℕ → View → View
after_message (connecting c) socket v = v
after_message (publishing q dup keep topic payload) socket v = record v {
  retained = record { topic = topic; payload = payload } ∷ without_topic topic v.retained;
}
after_message (subscribing id rs r) socket v = record v {
  subscribers = v.subscribers ++ record { socket = socket; filter = r.filter } ∷ [];
}
after_message pinging socket v = v
after_message disconnecting socket v = v

abbrev pub after_event : Event → View → View
after_event (received socket m) v = after_message m socket v
after_event (forgotten socket) v = record v { subscribers = without_socket socket v.subscribers }

-- What socket `n` gets of bytes to a socket.
abbrev pub to : ℕ → ℕ → List ℕ → List ℕ
to n socket bytes = if n == socket then bytes else []

-- A PUBLISH packet of QoS 0.
abbrev pub publish_bytes : List ℕ → List ℕ → List ℕ
publish_bytes topic payload =
    (0x30 ∷ encoding 4 (2 + length topic + length payload) ++ 0 ∷ length topic ∷ topic) ++ payload

-- The MQTT levels 3, 4 and 5 are welcome.
abbrev pub connack : ℕ → List ℕ
connack level = 0x20 ∷ 2 ∷ 0 ∷ (if leb 3 level && leb level 5 then 0 else 0x80) ∷ []

-- The specification over `starts`, what a filter t# takes, and `reorder`, the order of the map.
module _ (starts : List ℕ → List ℕ → Bool) where
  abbrev pub takes : TopicFilter → List ℕ → Bool
  takes (exact t) topic = same_text t topic
  takes (prefix t) topic = starts t topic

  -- A published payload goes to every subscriber whose filter takes the topic.
  abbrev pub announce : ℕ → List ℕ → List ℕ → List Subscriber → List ℕ
  announce n topic payload [] = []
  announce n topic payload (s ∷ rest) =
      (if takes s.filter topic then to n s.socket (publish_bytes topic payload) else [])
      ++ announce n topic payload rest

  -- A new subscriber gets every retained payload that its filter takes.
  abbrev pub catch_up : ℕ → ℕ → TopicFilter → List Retained → List ℕ
  catch_up n socket f [] = []
  catch_up n socket f (r ∷ rest) =
      (if takes f r.topic then to n socket (publish_bytes r.topic r.payload) else [])
      ++ catch_up n socket f rest

  module _ (reorder : List Retained → List Retained) where
    abbrev pub replies : ℕ → Message → ℕ → View → List ℕ
    replies n (connecting c) socket v = to n socket (connack c.protocol_level)
    replies n (publishing q dup keep topic payload) socket v =
        announce n topic payload v.subscribers
    replies n (subscribing id rs r) socket v =
        to n socket (0x90 ∷ 3 ∷ (id / 256) ∷ (id % 256) ∷ 0 ∷ [])
        ++ catch_up n socket r.filter (reorder v.retained)
    replies n pinging socket v = to n socket (0xd0 ∷ 0 ∷ [])
    replies n disconnecting socket v = []

    abbrev pub event_replies : ℕ → Event → View → List ℕ
    event_replies n (received socket m) v = replies n m socket v
    event_replies n (forgotten socket) v = []

    -- All events, and what socket `n` gets of them.
    abbrev pub outputs : ℕ → List Event → View → List ℕ
    outputs n [] v = []
    outputs n (e ∷ es) v = event_replies n e v ++ outputs n es (after_event e v)

abbrev pub after_events : List Event → View → View
after_events [] v = v
after_events (e ∷ es) v = after_events es (after_event e v)

abbrev pub qos_bits : Qos → ℕ
qos_bits at_most_once = 0
qos_bits (at_least_once id) = 2
qos_bits (exactly_once id) = 4

abbrev pub publish_control : Qos → Bool → Bool → ℕ
publish_control q dup keep = 0x30 + qos_bits q + (if dup then 8 else 0) + (if keep then 1 else 0)

abbrev pub id_bytes : Qos → List ℕ
id_bytes at_most_once = []
id_bytes (at_least_once id) = (id / 256) ∷ (id % 256) ∷ []
id_bytes (exactly_once id) = (id / 256) ∷ (id % 256) ∷ []

-- How a message is written: a byte of control and the body.
abbrev pub control_of : Message → ℕ
control_of (connecting c) = 0x10
control_of (publishing q dup keep topic payload) = publish_control q dup keep
control_of (subscribing id rs r) = 0x82
control_of pinging = 0xc0
control_of disconnecting = 0xe0

abbrev pub filter_of : Request → Filter
filter_of r = record {
  high = 0;
  low = length (written r.filter);
  topic = written r.filter;
  qos = r.qos;
}

abbrev pub body_of : Message → List ℕ
body_of (connecting c) = connect_body c
body_of (publishing q dup keep topic payload) = 0 ∷ length topic ∷ topic ++ (id_bytes q ++ payload)
body_of (subscribing id rs r) =
    (id / 256) ∷ (id % 256) ∷ filters_wire (map filter_of rs ++ filter_of r ∷ [])
body_of pinging = []
body_of disconnecting = []

abbrev pub wire_of : Message → List ℕ
wire_of m = control_of m ∷ encoding 3 (length (body_of m)) ++ body_of m

-- What the clients write on socket `n`, in all.
abbrev pub wire_on : ℕ → Event → List ℕ
wire_on n (received socket m) = if n == socket then wire_of m else []
wire_on n (forgotten socket) = []

abbrev pub wires_on : ℕ → List Event → List ℕ
wires_on n [] = []
wires_on n (e ∷ es) = wire_on n e ++ wires_on n es

-- The messages that the broker is asked to serve: topics that have a key and no wildcard but the #
-- of a filter, and packets whose size can be written.
module _ (IsName : List ℕ → Type 0) where
  pub record IsFilterName (f : TopicFilter) : Type 0 where
    pub named : IsName (name f)
    pub no_plus : contains b'+' (name f) ≡ false
    pub no_hash : contains b'#' (name f) ≡ false
    pub short : length (written f) ≤ 128

  abbrev pub IsSound : Message → Type 0
  IsSound (connecting c) = IsConnect c
  IsSound (publishing q dup keep topic payload) = IsName topic
  IsSound (subscribing id rs r) =
      (id < 2 ^ 16) × All (λ (q : Request). IsFilterName q.filter) rs × IsFilterName r.filter
  IsSound pinging = Unit {0}
  IsSound disconnecting = Unit {0}

  pub record IsMessage (m : Message) : Type 0 where
    pub sound : IsSound m
    pub small : length (body_of m) < 2 ^ 28

  abbrev pub IsEvent : Event → Type 0
  IsEvent (received socket m) = IsMessage m
  IsEvent (forgotten socket) = Unit {0}
