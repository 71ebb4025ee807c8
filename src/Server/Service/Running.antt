-- ===== src/Server/Service/Running.antt =====
-- A broker with many clients that send messages, one after another, against what is promised.
use gnat.Base.{
  ℕ, ◌≡◌, refl, sym, ap, ◌∙◌, List, [], ◌∷◌, ◌++◌, All, Pairs, true, Bool-cases, inl, inr,
  if◌then◌else◌, ◌==◌, ==_iff, ==_self, map, length, drop, drop-append,
}
use gnat.Base.Outcome.{done, and_then-done, step}
use gnat.DataStore.{DataStore, DataStoreEntry, remove_observers_for_client}
use gnat.Server.Service.{Deployment, serve}
use gnat.Server.Service.Messages.{Answers, serve-connecting, serve-pinging, serve-disconnecting}
use gnat.Server.Service.Mirrors.{Mirrors, Holds, remove_client-without_socket}
use gnat.Server.Service.Spec.{
  Message, connecting, publishing, subscribing, pinging, disconnecting, Event, received, forgotten,
  View, Retained, IsMessage, IsEvent, after_event, after_events, event_replies, outputs, wire_of,
  wire_on, wires_on,
}
use gnat.Server.Service.Turns.{Site, turn_of, after_serving, handle_turn, run, IsWired}
use gnat.Server.Service.Publishing.{serve-publishing}
use gnat.Server.Service.Topics.{serve-subscribing}
use gnat.Server.State.{Subscription}
use gnat.Status.{is_ok}
use mathlib.Core.List.{append-nil, append_assoc}

append-cancel : (xs ys zs : List ℕ) → xs ++ ys ≡ xs ++ zs → ys ≡ zs
append-cancel xs ys zs e =
    sym (drop-append (length xs) xs ys refl)
    ∙ ap (λ (us : List ℕ). drop (length xs) us) e
    ∙ drop-append (length xs) xs zs refl

module _ {K C W : Type 0} (d : Deployment K C W) where
  open d use {keys, conn, hub, timestamp, order, memory}

  -- What waits on socket `s` in front of `rest` is what arrived last.
  arrived :
      (s : ℕ) (xs : List ℕ) (rest : ℕ → List ℕ) (w : W)
      → ((n : ℕ) → hub.pending n w ≡ (if n == s then xs else []) ++ rest n)
      → (w' : W) × (w ≡ hub.arrive s xs w') × ((n : ℕ) → hub.pending n w' ≡ rest n)
  arrived s xs rest w waits =
      let here : hub.pending s w ≡ xs ++ rest s = waits s ∙ rw (==_self s) refl in
      let (w', split) = hub.splits s xs (rest s) w here in
      (
        w',
        split,
        λ n. append-cancel (if n == s then xs else []) (hub.pending n w') (rest n) (
            sym (hub.pending-arrive n s xs w')
            ∙ ap (λ (u : W). hub.pending n u) (sym split)
            ∙ waits n),
      )

  module _ (reorder : List Retained → List Retained)
      (ordered : (es : List (K × DataStoreEntry)) (rs : List Retained)
        → Pairs (Holds d) es rs
        → Pairs (Holds d) (order es) (reorder rs)) where
    serve-message :
        (m : Message) (c : C) (store : DataStore K (Subscription K C)) (w : W) (v : View)
        → IsMessage d.IsName m
        → Mirrors d store v
        → Answers d reorder c store w v m
    serve-message (connecting k) c store w v ok shown =
        serve-connecting d reorder c store w v k ok shown
    serve-message (publishing q dup keep t p) c store w v ok shown =
        serve-publishing d reorder c store w v q dup keep t p ok shown
    serve-message (subscribing id fs f) c store w v ok shown =
        serve-subscribing d reorder ordered c store w v id fs f ok shown
    serve-message pinging c store w v ok shown = serve-pinging d reorder c store w v shown
    serve-message disconnecting c store w v ok shown =
        serve-disconnecting d reorder c store w v shown

    -- The event happened: the broker shows the next view, the sockets got the replies, and `rest`
    -- still waits.
    abbrev Follows : Event → (ℕ → List ℕ) → Site K C W → View → Type 0
    Follows e rest site v =
        (site' : Site K C W) × (handle_turn d (turn_of e) site ≡ done (true, site'))
        × IsWired d site'.connections
        × Mirrors d site'.store (after_event e v)
        × ((n : ℕ)
            → hub.sent n site'.world
              ≡ hub.sent n site.world ++ event_replies d.names.starts reorder n e v)
        × ((n : ℕ) → hub.pending n site'.world ≡ rest n)

    IsWired-after :
        (s : ℕ) (c : C) (connections : ℕ → C)
        → hub.socket c ≡ s
        → IsWired d connections
        → IsWired d (λ i. if i == s then c else connections i)
    IsWired-after s c connections here wired i = elim (Bool-cases (i == s)) [
      | inl same ↦ rw same (here ∙ sym ((==_iff i s).0 same))
      | inr other ↦ rw other (wired i)
    ]

    handle_turn-Follows :
        (e : Event) (rest : ℕ → List ℕ) (site : Site K C W) (v : View)
        → IsEvent d.IsName e
        → IsWired d site.connections
        → Mirrors d site.store v
        → ((n : ℕ) → hub.pending n site.world ≡ wire_on n e ++ rest n)
        → Follows e rest site v
    unfolding handle_turn is_ok remove_observers_for_client
    handle_turn-Follows (received s m) rest site v ok wired shown waits =
        let c : C = site.connections s in
        let (w, split, left) = arrived s (wire_of m) rest site.world waits in
        let (b, ran, stays, shown', grew, kept) = serve-message m c site.store w v ok shown in
        let back : site.world ≡ hub.arrive (hub.socket c) (wire_of m) w =
          split ∙ ap (λ (t : ℕ). hub.arrive t (wire_of m) w) (sym (wired s)) in
        (
          after_serving d s b site,
          and_then-done _ _
              (ap
                  (λ (u : W).
                    serve keys conn timestamp order memory
                      (record { connection = c; store = site.store; world = u }))
                  back
                ∙ ran)
              refl,
          IsWired-after s b.connection site.connections (stays ∙ wired s) wired,
          rw (sym (ap (λ (t : ℕ). after_event (received t m) v) (wired s))) shown',
          λ n.
              grew n
              ∙ ap
                  (λ (xs : List ℕ).
                    xs ++ event_replies d.names.starts reorder n (received (hub.socket c) m) v)
                  (sym (hub.sent-arrive n s (wire_of m) w)
                    ∙ ap (λ (u : W). hub.sent n u) (sym split))
              ∙ ap
                  (λ (t : ℕ).
                    hub.sent n site.world
                    ++ event_replies d.names.starts reorder n (received t m) v)
                  (wired s),
          λ n. kept n ∙ left n,
        )
    handle_turn-Follows (forgotten s) rest site v ok wired shown waits = (
      record site { store = remove_observers_for_client s site.store },
      refl,
      wired,
      record {
        entries = shown.entries;
        observers =
            remove_client-without_socket d s site.store.observers v.subscribers shown.observers;
      },
      λ n. sym (append-nil (hub.sent n site.world)),
      waits,
    )

    -- On a network of sockets where every write succeeds, also on connections that were closed,
    -- reads and writes do not disturb each other, and every connection and its heap copy keep
    -- their socket and id, a clock that reads without changing the world, a key type under which
    -- the named texts are encoded, decoded and compared as texts, and an order of the map that the
    -- view follows: where the bytes of any well-formed CONNECT, PUBLISH of any QoS, SUBSCRIBE of
    -- one topic or more with any QoS, PINGREQ and DISCONNECT messages, with topics that have a key
    -- and no other wildcard than the # behind a filter, and bodies below 2 ^ 28 bytes, wait on the
    -- sockets of their clients in front of other bytes, a program that serves them in any
    -- interleaving that keeps each client's order, each through ReadNext, HandleMessage and the
    -- packet's destructor, and calls RemoveObserversForClient between them, serves all with status
    -- Ok, and refines the specification of a broker: where the data store showed a view of
    -- retained payloads and subscribers before, it shows after it what the specification makes of
    -- that view, every socket has been sent exactly the bytes that the specification gives it, in
    -- order, and exactly the other bytes are left to be read.
    pub run-Mirrors :
        (events : List Event) (rest : ℕ → List ℕ) (site : Site K C W) (v : View)
        → All (IsEvent d.IsName) events
        → IsWired d site.connections
        → Mirrors d site.store v
        → ((n : ℕ) → hub.pending n site.world ≡ wires_on n events ++ rest n)
        → (site' : Site K C W) × (run d (map turn_of events) site ≡ done (true, site'))
          × Mirrors d site'.store (after_events events v)
          × ((n : ℕ)
              → hub.sent n site'.world
                ≡ hub.sent n site.world ++ outputs d.names.starts reorder n events v)
          × ((n : ℕ) → hub.pending n site'.world ≡ rest n)
    unfolding run
    run-Mirrors [] rest site v oks wired shown waits =
        (site, refl, shown, λ n. sym (append-nil (hub.sent n site.world)), waits)
    run-Mirrors (e ∷ es) rest site v (ok, oks) wired shown waits =
        let (site1, first, wired1, shown1, grew, left) =
          handle_turn-Follows e (λ n. wires_on n es ++ rest n) site v ok wired shown
            (λ n. waits n ∙ append_assoc (wire_on n e) (wires_on n es) (rest n)) in
        let (site2, later, shown2, grew', left') =
          run-Mirrors es rest site1 (after_event e v) oks wired1 shown1 left in
        (
          site2,
          step _ _ first later,
          shown2,
          λ n.
              grew' n
              ∙ ap (λ (xs : List ℕ). xs ++ outputs d.names.starts reorder n es (after_event e v))
                  (grew n)
              ∙ append_assoc (hub.sent n site.world) _ _,
          left',
        )
