-- ===== src/Server/Fanout.antt =====
-- Who is sent a PUBLISH: the observers of a data store, on connections that reach a network.
pub mod Delivery
pub mod Joining
pub mod Session
use gnat.Base.{
  ℕ, suc, ◌+◌, ◌^◌, ◌≤◌, ◌<◌, ◌≡◌, refl, sym, ap, ◌∙◌, arith, List, [], ◌∷◌, ◌++◌, Bool, true,
  false, ◌==◌, ◌&&◌, if◌then◌else◌, length, take, take-all, ltb-false, Bool-cases, inl, inr,
}
use gnat.Base.Outcome.{Prog, done, step, and_then-done}
use gnat.Buffer.Writes.{IsBuffer}
use gnat.Connection.{ClientConnection}
use gnat.DataStore.{DataStoreEntry, ObserverEntry, notify_loop}
use gnat.Fields.{StringBuffer, empty_buffer, int_max}
use gnat.Key.{KeyType}
use gnat.Proto3.Publish.{Publish, send_publish, write_payload}
use gnat.Proto3.Publish.Sending.{publish_size, publish_head, send_publish-wire}
use gnat.Server.Observer.{matches, notify}
use gnat.Server.State.{Subscription}
use mathlib.Core.List.{append-nil, append_assoc}

-- What a socket has been sent and what it has yet to be read, and what a write adds: the bytes, to
-- what the connection's own socket was sent.
pub record Network {C W : Type 0} (conn : ClientConnection C W) : Type 0 where
  pub socket : C → ℕ
  pub sent : ℕ → W → List ℕ
  pub pending : ℕ → W → List ℕ
  pub writes :
      (bytes : List ℕ) (c : C) (w : W)
      → (w' : W) × (conn.write bytes (c, w) ≡ done (true, (c, w')))
        × ((n : ℕ) → sent n w' ≡ sent n w ++ (if n == socket c then bytes else []))
        × ((n : ℕ) → pending n w' ≡ pending n w)
  pub writes_partial :
      (bytes : List ℕ) (c : C) (w : W)
      → (w' : W) × (conn.write_partial bytes (c, w) ≡ done (true, (c, w')))
        × ((n : ℕ) → sent n w' ≡ sent n w ++ (if n == socket c then bytes else []))
        × ((n : ℕ) → pending n w' ≡ pending n w)

module _ {K C W : Type 0} (keys : KeyType K) (conn : ClientConnection C W)
    (network : Network conn) where
  -- What socket `n` gets when `bytes` go to the socket of `c`.
  abbrev pub share : ℕ → C → List ℕ → List ℕ
  share n c bytes = if n == network.socket c then bytes else []

  share-append :
      (n : ℕ) (c : C) (xs ys : List ℕ) → share n c xs ++ share n c ys ≡ share n c (xs ++ ys)
  share-append n c xs ys = elim (Bool-cases (n == network.socket c)) [
    | inl own ↦ rw own
    | inr other ↦ rw other
  ]

  -- A PUBLISH of a topic with a payload, in a fixed header of at most k + 2 bytes.
  abbrev pub publish_packet : ℕ → StringBuffer → DataStoreEntry → List ℕ
  publish_packet k topic entry =
      publish_head k (record { topic = topic; payload_bytes = entry.size }) ++ entry.bytes

  -- What socket `n` gets from all observers, in their order.
  abbrev pub deliveries : ℕ → K → List ℕ → List (ObserverEntry (Subscription K C)) → List ℕ
  deliveries n key bytes [] = []
  deliveries n key bytes (o ∷ rest) =
      (if matches keys conn o.handler key then share n o.handler.conn bytes else [])
      ++ deliveries n key bytes rest

  -- An entry that can be sent: its topic fits the buffer, and its size an int and k + 1 groups of
  -- seven bits.
  pub record IsSendable (k : ℕ) (key : K) (topic : StringBuffer) (entry : DataStoreEntry)
      : Type 0 where
    pub few : k < 5
    pub decodes : keys.decode_key key (empty_buffer 128) ≡ done topic
    pub fits : IsBuffer 128 topic
    pub sized : length entry.bytes ≡ entry.size
    pub groups : 2 + topic.length_ + entry.size < 128 ^ suc k
    pub int : 2 + topic.length_ + entry.size ≤ int_max

  module _ (k : ℕ) (key : K) (topic : StringBuffer) (entry : DataStoreEntry)
      (sendable : IsSendable k key topic entry) where
    payload_written :
        (t : C × W) → conn.write (take entry.size entry.bytes) t ≡ conn.write entry.bytes t
    payload_written t = rw (take-all entry.size entry.bytes (omega (arith, sendable.sized)))

    send-both :
        (c : C) (w : W)
        → (w' : W) × (send_publish conn.write_partial conn.write
              (record { topic = topic; payload_bytes = entry.size })
              entry.bytes
              (c, w)
            ≡ done (true, (c, w')))
          × ((n : ℕ)
              → network.sent n w' ≡ network.sent n w ++ share n c (publish_packet k topic entry))
          × ((n : ℕ) → network.pending n w' ≡ network.pending n w)
    send-both c w =
        let p : Publish = record { topic = topic; payload_bytes = entry.size } in
        let (w1, wrote, grew, kept) = network.writes_partial (publish_head k p) c w in
        let (w2, wrote', grew', kept') = network.writes entry.bytes c w1 in
        (
          w2,
          send_publish-wire conn.write_partial conn.write k p entry.bytes (c, w) sendable.few
                sendable.groups sendable.int sendable.fits (omega (arith, sendable.sized))
              ∙ step _ _ wrote (payload_written (c, w1) ∙ wrote'),
          λ n.
              grew' n
              ∙ ap (λ (xs : List ℕ). xs ++ share n c entry.bytes) (grew n)
              ∙ append_assoc (network.sent n w) (share n c (publish_head k p))
                  (share n c entry.bytes)
              ∙ ap (λ (xs : List ℕ). network.sent n w ++ xs)
                  (share-append n c (publish_head k p) entry.bytes),
          λ n. kept' n ∙ kept n,
        )

    -- The observer of a subscription: its socket gets the packet where the key matches.
    pub notify-sends :
        (s : Subscription K C) (w : W)
        → (w' : W) × (notify keys conn s key entry w ≡ done ((true, s), w'))
          × ((n : ℕ)
              → network.sent n w'
                ≡ network.sent n w
                  ++ (if matches keys conn s key
                      then share n s.conn (publish_packet k topic entry)
                      else []))
          × ((n : ℕ) → network.pending n w' ≡ network.pending n w)
    unfolding notify
    notify-sends s w = elim (Bool-cases (matches keys conn s key)) [
      | inl due ↦
          let (w', sent, grew, kept) = send-both s.conn w in
          (
            w',
            rw due (and_then-done _ _ sendable.decodes (and_then-done _ _ sent refl)),
            λ n. rw due (grew n),
            kept,
          )
      | inr other ↦ (w, rw other, λ n. rw other (sym (append-nil (network.sent n w))), λ n. refl)
    ]

    -- Every observer is told, and each socket gets what its observers are due.
    pub notify_loop-sends :
        (os : List (ObserverEntry (Subscription K C))) (w : W)
        → (w' : W) × (notify_loop keys.same (notify keys conn) key entry os w ≡ done (os, w'))
          × ((n : ℕ)
              → network.sent n w'
                ≡ network.sent n w ++ deliveries n key (publish_packet k topic entry) os)
          × ((n : ℕ) → network.pending n w' ≡ network.pending n w)
    unfolding notify_loop
    notify_loop-sends [] w = (w, refl, λ n. sym (append-nil (network.sent n w)), λ n. refl)
    notify_loop-sends (o ∷ rest) w =
        let (w1, told, grew, kept) = notify-sends o.handler w in
        let (w2, later, grew', kept') = notify_loop-sends rest w1 in
        (
          w2,
          step _ _ told (step _ _ later refl),
          λ n.
              grew' n
              ∙ ap (λ (xs : List ℕ). xs ++ deliveries n key (publish_packet k topic entry) rest)
                  (grew n)
              ∙ append_assoc (network.sent n w) _ _,
          λ n. kept' n ∙ kept n,
        )
