-- ===== src/Server/Service/Mirrors.antt =====
-- When a data store shows a view, and that it goes on to.
use gnat.Base.{
  ℕ, ◌+◌, ◌≤◌, ◌≡◌, refl, sym, ap, ◌∙◌, arith, List, [], ◌∷◌, All, Pairs, Bool, true, false,
  Bool-cases, inl, inr, ◌==◌, length, take-append, drop, replicate, length-append, length-drop,
}
use gnat.Base.Outcome.{Outcome, done, aborted, thrown, undefined, out_of_fuel}
use gnat.Buffer.Writes.{stored}
use gnat.DataStore.{DataStore, DataStoreEntry, ObserverEntry, erase, remove_client}
use gnat.Fields.{StringBuffer, empty_buffer, int_max}
use gnat.Key.Names.{same-names, full-names}
use gnat.Server.Fanout.{Network, IsSendable, deliveries, publish_packet}
use gnat.Server.Fanout.Joining.{CanSend, replays}
use gnat.Server.Observer.{matches, notify}
use gnat.Server.Service.{Deployment, network_of}
use gnat.Server.Service.Spec.{
  TopicFilter, exact, prefix, name, Retained, Subscriber, View, without_topic, without_socket,
  publish_bytes, takes, announce, catch_up,
}
use gnat.Server.State.{Subscription}
use gnat.Status.{same_text}

abbrev pub is_prefix_filter : TopicFilter → Bool
is_prefix_filter (exact t) = false
is_prefix_filter (prefix t) = true

abbrev pub buffer_of : Outcome StringBuffer → StringBuffer
buffer_of (done b) = b
buffer_of aborted = empty_buffer 0
buffer_of thrown = empty_buffer 0
buffer_of undefined = empty_buffer 0
buffer_of out_of_fuel = empty_buffer 0

length-stored : (t : List ℕ) → length t ≤ 128 → length (stored 128 t).data_ ≡ 128
length-stored t h = omega (
  arith,
  length-append t (drop (length t) (replicate 128 0)),
  length-drop (length t) (replicate {A = ℕ} 128 0),
)

module _ {K C W : Type 0} (d : Deployment K C W) where
  open d use {keys, IsName, names, conn, hub}

  abbrev pub network : Network conn
  network = network_of hub

  -- The text that a key decodes to.
  abbrev pub topic_of : K → StringBuffer
  topic_of key = buffer_of (keys.decode_key key (empty_buffer 128))

  -- An entry of the map and what the view retains.
  pub record Holds (x : K × DataStoreEntry) (r : Retained) : Type 0 where
    pub key : x.0 ≡ names.key_of r.topic
    pub bytes : x.1.bytes ≡ r.payload
    pub size : x.1.size ≡ length r.payload
    pub named : IsName r.topic
    pub room : 2 + length r.topic + length r.payload ≤ int_max

  -- What an observer captured, and a subscriber.
  pub record Captures (h : Subscription K C) (socket : ℕ) (f : TopicFilter) : Type 0 where
    pub at : network.socket h.conn ≡ socket
    pub key : h.target_key ≡ names.key_of (name f)
    pub kind : h.is_prefix ≡ is_prefix_filter f
    pub named : IsName (name f)

  pub record Observes (o : ObserverEntry (Subscription K C)) (s : Subscriber) : Type 0 where
    pub id : o.client_id ≡ s.socket
    pub captures : Captures o.handler s.socket s.filter

  pub record Mirrors (store : DataStore K (Subscription K C)) (v : View) : Type 0 where
    pub entries : Pairs Holds store.entries v.retained
    pub observers : Pairs Observes store.observers v.subscribers

  pub erase-without_topic :
      (t : List ℕ) (es : List (K × DataStoreEntry)) (rs : List Retained)
      → IsName t
      → Pairs Holds es rs
      → Pairs Holds (erase keys.same (notify keys conn) (names.key_of t) es) (without_topic t rs)
  unfolding erase
  erase-without_topic t [] [] h p = tt
  erase-without_topic t [] (r ∷ rs) h p = absurd p
  erase-without_topic t ((k, e) ∷ es) [] h p = absurd p
  erase-without_topic t ((k, e) ∷ es) (r ∷ rs) h (q, p) =
      let agree : keys.same k (names.key_of t) ≡ same_text r.topic t =
        ap (λ (key : K). keys.same key (names.key_of t)) q.key
        ∙ same-names keys IsName names r.topic t q.named h in
      elim (Bool-cases (same_text r.topic t)) [
        | inl same ↦ rw (agree, same) (erase-without_topic t es rs h p)
        | inr other ↦ rw (agree, other) (q, erase-without_topic t es rs h p)
      ]

  pub remove_client-without_socket :
      (c : ℕ) (os : List (ObserverEntry (Subscription K C))) (ss : List Subscriber)
      → Pairs Observes os ss
      → Pairs Observes (remove_client c os) (without_socket c ss)
  unfolding remove_client
  remove_client-without_socket c [] [] p = tt
  remove_client-without_socket c [] (s ∷ ss) p = absurd p
  remove_client-without_socket c (o ∷ os) [] p = absurd p
  remove_client-without_socket c (o ∷ os) (s ∷ ss) (q, p) =
      let agree : (o.client_id == c) ≡ (s.socket == c) = ap (λ (id : ℕ). id == c) q.id in
      elim (Bool-cases (s.socket == c)) [
        | inl same ↦ rw (agree ∙ same, same) (remove_client-without_socket c os ss p)
        | inr other ↦ rw (agree ∙ other, other) (q, remove_client-without_socket c os ss p)
      ]

  pub matches-takes :
      (h : Subscription K C) (socket : ℕ) (f : TopicFilter) (topic : List ℕ)
      → Captures h socket f
      → IsName topic
      → matches keys conn h (names.key_of topic) ≡ takes names.starts f topic
  unfolding matches
  matches-takes h socket (exact t) topic c n =
      rw (c.kind, c.key) (full-names keys IsName names t topic c.named n)
  matches-takes h socket (prefix t) topic c n = rw (c.kind, c.key) (names.prefix t topic c.named n)

  pub publish_packet-bytes :
      (t payload : List ℕ) (e : DataStoreEntry)
      → e.bytes ≡ payload
      → e.size ≡ length payload
      → publish_packet keys conn network 4 (stored 128 t) e ≡ publish_bytes t payload
  publish_packet-bytes t payload e b s =
      rw (take-append (length t) t (drop (length t) (replicate 128 0)) refl, b, s) refl

  -- What the observers are sent is what the subscribers are announced.
  pub deliveries-announce :
      (n : ℕ) (t payload : List ℕ) (os : List (ObserverEntry (Subscription K C)))
      (ss : List Subscriber)
      → IsName t
      → Pairs Observes os ss
      → deliveries keys conn network n (names.key_of t) (publish_bytes t payload) os
        ≡ announce names.starts n t payload ss
  deliveries-announce n t payload [] [] h p = refl
  deliveries-announce n t payload [] (s ∷ ss) h p = absurd p
  deliveries-announce n t payload (o ∷ os) [] h p = absurd p
  deliveries-announce n t payload (o ∷ os) (s ∷ ss) h (q, p) =
      rw
        (
          matches-takes o.handler s.socket s.filter t q.captures h,
          q.captures.at,
          deliveries-announce n t payload os ss h p,
        )
        refl

  topic_of-key_of : (t : List ℕ) → IsName t → topic_of (names.key_of t) ≡ stored 128 t
  topic_of-key_of t h = ap buffer_of (names.decodes t h)

  -- What is replayed of the entries is what a new subscriber catches up with.
  pub replays-catch_up :
      (n : ℕ) (h : Subscription K C) (socket : ℕ) (f : TopicFilter) (es : List (K × DataStoreEntry))
      (rs : List Retained)
      → Captures h socket f
      → Pairs Holds es rs
      → replays keys conn network 4 topic_of n h es ≡ catch_up names.starts n socket f rs
  replays-catch_up n h socket f [] [] c p = refl
  replays-catch_up n h socket f [] (r ∷ rs) c p = absurd p
  replays-catch_up n h socket f (x ∷ es) [] c p = absurd p
  replays-catch_up n h socket f ((k, e) ∷ es) (r ∷ rs) c (q, p) =
      rw
        (
          q.key,
          matches-takes h socket f r.topic c q.named,
          topic_of-key_of r.topic q.named,
          publish_packet-bytes r.topic r.payload e q.bytes q.size,
          c.at,
          replays-catch_up n h socket f es rs c p,
        )
        refl

  -- An entry under a text that has a key can be sent.
  pub named-IsSendable :
      (t : List ℕ) (e : DataStoreEntry) {payload : List ℕ}
      → IsName t
      → (e.bytes ≡ payload) × (e.size ≡ length payload)
      → 2 + length t + length payload ≤ int_max
      → IsSendable keys conn network 4 (names.key_of t) (stored 128 t) e
  named-IsSendable t e h (b, s) room = record {
    few = omega arith;
    decodes = names.decodes t h;
    fits = record { whole = length-stored t (names.short t h); fits = names.short t h };
    sized = ap (λ (xs : List ℕ). length xs) b ∙ sym s;
    groups = omega arith;
    int = omega arith;
  }

  pub Holds-CanSend :
      (es : List (K × DataStoreEntry)) (rs : List Retained)
      → Pairs Holds es rs
      → All (CanSend keys conn network 4 topic_of) es
  Holds-CanSend [] [] p = tt
  Holds-CanSend [] (r ∷ rs) p = absurd p
  Holds-CanSend (x ∷ es) [] p = absurd p
  Holds-CanSend ((k, e) ∷ es) (r ∷ rs) (q, p) = (
    rw (q.key, topic_of-key_of r.topic q.named)
        (named-IsSendable r.topic e q.named (q.bytes, q.size) q.room),
    Holds-CanSend es rs p,
  )
