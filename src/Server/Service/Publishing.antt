-- ===== src/Server/Service/Publishing.antt =====
-- PUBLISH, from the first byte to the last answer.
use gnat.Proto3.Publish.Reading.{HasId}
use gnat.Base.{
  Bool, true, false, bit_and, ℕ, ◌+◌, ◌/◌, ◌≤◌, ◌≡◌, refl, ap, ◌∙◌, arith, List, [], ◌++◌, false,
  length, length-append,
}
use gnat.Buffer.Writes.{stored}
use gnat.DataStore.{DataStore}
use gnat.DataStore.Entries.{set_store}
use gnat.Fields.{int_max}
use gnat.Header.{packet_type, publish}
use gnat.Server.Fanout.{deliveries, publish_packet, notify_loop-sends}
use gnat.Server.Observer.{notify}
use gnat.Server.Publishing.{entry_of, handle_message-stores}
use gnat.Server.Service.{Deployment, serve-packet}
use gnat.Server.Service.Messages.{waiting, Answers, destroy-empty, pending-arrive_nothing}
use gnat.Server.Service.Mirrors.{
  Mirrors, network, erase-without_topic, publish_packet-bytes, deliveries-announce,
  named-IsSendable,
}
use gnat.Server.Service.Spec.{
  Qos, at_most_once, at_least_once, exactly_once, publish_control, id_bytes, publishing, View,
  Retained, IsMessage, body_of,
}
use gnat.Server.State.{Subscription}

-- The control byte says PUBLISH, and whether there is a packet id.
publish_control-IsPublish :
    (q : Qos) (dup keep : Bool)
    → (packet_type (publish_control q dup keep / 16) ≡ publish)
      × HasId (bit_and (publish_control q dup keep) 0xf) (id_bytes q)
unfolding packet_type
publish_control-IsPublish at_most_once false false = (refl, refl)
publish_control-IsPublish at_most_once false true = (refl, refl)
publish_control-IsPublish at_most_once true false = (refl, refl)
publish_control-IsPublish at_most_once true true = (refl, refl)
publish_control-IsPublish (at_least_once id) false false = (refl, refl)
publish_control-IsPublish (at_least_once id) false true = (refl, refl)
publish_control-IsPublish (at_least_once id) true false = (refl, refl)
publish_control-IsPublish (at_least_once id) true true = (refl, refl)
publish_control-IsPublish (exactly_once id) false false = (refl, refl)
publish_control-IsPublish (exactly_once id) false true = (refl, refl)
publish_control-IsPublish (exactly_once id) true false = (refl, refl)
publish_control-IsPublish (exactly_once id) true true = (refl, refl)

module _ {K C W : Type 0} (d : Deployment K C W) where
  open d use {keys, names, conn, hub, timestamp, order, memory}

  pub serve-publishing :
      (reorder : List Retained → List Retained) (c : C) (store : DataStore K (Subscription K C))
      (w : W) (v : View) (q : Qos) (dup keep : Bool) (topic payload : List ℕ)
      → IsMessage d.IsName (publishing q dup keep topic payload)
      → Mirrors d store v
      → Answers d reorder c store w v (publishing q dup keep topic payload)
  serve-publishing reorder c store w v q dup keep topic payload ok shown =
      let time : ℕ = d.now (hub.arrive (hub.socket c) (payload ++ []) w) in
      let key : K = names.key_of topic in
      let short : length topic ≤ 128 = names.short topic ok.sound in
      let room : 2 + length topic + length payload ≤ int_max = omega (
        arith,
        ok.small,
        length-append topic (id_bytes q ++ payload),
        length-append (id_bytes q) payload,
      ) in
      let control : ℕ = publish_control q dup keep in
      let (is, has) = publish_control-IsPublish q dup keep in
      let sendable = named-IsSendable d topic (entry_of payload time) ok.sound (refl, refl) room in
      let idle : W = hub.arrive (hub.socket c) [] w in
      let (w', told, grew, kept) =
        notify_loop-sends keys conn (network d) 4 key (stored 128 topic) (entry_of payload time)
          sendable store.observers idle in
      (
        record {
          connection = c;
          store =
              set_store keys.same names.equality (notify keys conn) key (entry_of payload time)
                store.entries store.observers;
          world = w';
        },
        serve-packet keys conn timestamp order memory (waiting d c w) (hub.delivers c w) control
            (body_of (publishing q dup keep topic payload)) store ok.small
            (handle_message-stores keys conn timestamp (waiting d c w) (hub.delivers c w) [] control
              order memory names.equality store 0 (length topic) (id_bytes q) topic payload time key
              is has (omega arith) (omega arith) short (d.clock _) (names.encodes topic _ ok.sound)
              told)
            (destroy-empty d control c w'),
        refl,
        record {
          entries = (
            record { key = refl; bytes = refl; size = refl; named = ok.sound; room = room },
            erase-without_topic d topic store.entries v.retained ok.sound shown.entries,
          );
          observers = shown.observers;
        },
        λ n.
            grew n
            ∙ ap
                (λ (xs : List ℕ).
                  xs
                  ++ deliveries keys conn (network d) n key
                      (publish_packet keys conn (network d) 4 (stored 128 topic)
                        (entry_of payload time))
                      store.observers)
                (hub.sent-arrive n (hub.socket c) [] w)
            ∙ ap
                (λ (bytes : List ℕ).
                  hub.sent n w ++ deliveries keys conn (network d) n key bytes store.observers)
                (publish_packet-bytes d topic payload (entry_of payload time) refl refl)
            ∙ ap (λ (xs : List ℕ). hub.sent n w ++ xs)
                (deliveries-announce d n topic payload store.observers v.subscribers ok.sound
                  shown.observers),
        λ n. kept n ∙ pending-arrive_nothing d n (hub.socket c) w,
      )
