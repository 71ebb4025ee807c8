-- ===== src/Server/Service/Topics.antt =====
-- SUBSCRIBE, from the first byte to the last answer.
use gnat.Base.{
  ℕ, ◌/◌, ◌%◌, ◌≡◌, refl, sym, ap, ◌∙◌, arith, List, [], ◌∷◌, ◌++◌, map, All, All-append, Pairs,
  Pairs-append, false, ◌||◌, Bool-cases, inl, inr, ◌==◌, length, take, take-append, take-all,
  length-append,
}
use gnat.Base.Outcome.{done}
use gnat.DataStore.{DataStore, DataStoreEntry}
use gnat.Packet.{Packet, destroy}
use gnat.Server.Fanout.Joining.{replays, handle_message-joins}
use gnat.Server.Observer.{contains}
use gnat.Server.Service.{Deployment, serve-packet}
use gnat.Server.Service.Messages.{waiting, Answers, destroy-empty, pending-arrive_nothing}
use gnat.Server.Service.Mirrors.{
  Mirrors, Holds, Observes, Captures, network, topic_of, is_prefix_filter, replays-catch_up,
  Holds-CanSend,
}
use gnat.Server.Service.Spec.{
  Request, TopicFilter, exact, prefix, name, written, subscribing, View, Retained, IsMessage,
  IsFilterName, filter_of, body_of, to,
}
use gnat.Server.State.{Subscription}
use gnat.Server.Subscribing.{IsTopic, key_size, subscription_of}
use mathlib.Core.List.{append_assoc}

contains-append : (c : ℕ) (t : List ℕ) (x : ℕ) → contains c (t ++ x ∷ []) ≡ (contains c t || x == c)
unfolding contains
contains-append c [] x = ground arith
contains-append c (y ∷ t) x = elim (Bool-cases (y == c)) [
  | inl here ↦ rw here refl
  | inr other ↦ rw other (contains-append c t x)
]

module _ {K C W : Type 0} (d : Deployment K C W) where
  open d use {keys, names, conn, hub, timestamp, order, memory}

  -- What a filter is written as tells its kind and its key.
  hash-written :
      (f : TopicFilter) → IsFilterName d.IsName f → contains b'#' (written f) ≡ is_prefix_filter f
  hash-written (exact t) v = v.no_hash
  hash-written (prefix t) v = contains-append b'#' t b'#' ∙ rw v.no_hash refl

  plus-written : (f : TopicFilter) → IsFilterName d.IsName f → contains b'+' (written f) ≡ false
  plus-written (exact t) v = v.no_plus
  plus-written (prefix t) v = contains-append b'+' t b'#' ∙ rw v.no_plus refl

  -- The key of a text as it is written.
  abbrev written_key : C → List ℕ → K
  written_key heap topic =
      names.key_of (take (key_size keys conn heap (λ t. names.key_of t) topic) topic)

  key_size-written :
      (heap : C) (f : TopicFilter)
      → IsFilterName d.IsName f
      → key_size keys conn heap (λ t. names.key_of t) (written f) ≡ length (name f)
  key_size-written heap (exact t) v = rw v.no_hash refl
  key_size-written heap (prefix t) v =
      rw (hash-written (prefix t) v) (omega (arith, length-append t (b'#' ∷ [])))

  take-written : (f : TopicFilter) → take (length (name f)) (written f) ≡ name f
  take-written (exact t) = take-all (length t) t (omega arith)
  take-written (prefix t) = take-append (length t) t (b'#' ∷ []) refl

  written_key-written :
      (heap : C) (f : TopicFilter)
      → IsFilterName d.IsName f
      → written_key heap (written f) ≡ names.key_of (name f)
  written_key-written heap f v =
      ap (λ (n : ℕ). names.key_of (take n (written f))) (key_size-written heap f v)
      ∙ ap (λ (t : List ℕ). names.key_of t) (take-written f)

  encodes-written :
      (f : TopicFilter) (rest : List ℕ)
      → IsFilterName d.IsName f
      → keys.encode_key (written f ++ rest) (length (name f)) ≡ done (names.key_of (name f))
  encodes-written (exact t) rest v = names.encodes t rest v.named
  encodes-written (prefix t) rest v =
      ap (λ (xs : List ℕ). keys.encode_key xs (length t)) (append_assoc t (b'#' ∷ []) rest)
      ∙ names.encodes t (b'#' ∷ rest) v.named

  written-IsTopic :
      (heap : C) (r : Request)
      → IsFilterName d.IsName r.filter
      → IsTopic keys conn heap (written_key heap) (filter_of r)
  written-IsTopic heap r v =
      let f : TopicFilter = r.filter in
      record {
        formed = record { low_byte = omega (arith, v.short); sized = omega arith; short = v.short };
        plain = plus-written f v;
        encodes = λ rest.
            ap (λ (n : ℕ). keys.encode_key (written f ++ rest) n) (key_size-written heap f v)
            ∙ encodes-written f rest v
            ∙ sym (ap done (written_key-written heap f v));
      }

  All-IsTopic :
      (heap : C) (fs : List Request)
      → All (λ (q : Request). IsFilterName d.IsName q.filter) fs
      → All (IsTopic keys conn heap (written_key heap)) (map filter_of fs)
  All-IsTopic heap [] vs = tt
  All-IsTopic heap (f ∷ fs) (v, vs) = (written-IsTopic heap f v, All-IsTopic heap fs vs)

  -- What the observer of a filter captures.
  subscription-Captures :
      (c : C) (f : TopicFilter)
      → IsFilterName d.IsName f
      → Captures d
          (subscription_of keys conn (hub.copy c) (written_key (hub.copy c)) (written f))
          (hub.socket c)
          f
  subscription-Captures c f v = record {
    at = hub.socket-copy c;
    key = written_key-written (hub.copy c) f v;
    kind = hash-written f v;
    named = v.named;
  }

  pub serve-subscribing :
      (reorder : List Retained → List Retained)
      (ordered : (es : List (K × DataStoreEntry)) (rs : List Retained)
        → Pairs (Holds d) es rs
        → Pairs (Holds d) (order es) (reorder rs))
      (c : C) (store : DataStore K (Subscription K C)) (w : W) (v : View) (id : ℕ)
      (fs : List Request) (r : Request)
      → IsMessage d.IsName (subscribing id fs r)
      → Mirrors d store v
      → Answers d reorder c store w v (subscribing id fs r)
  serve-subscribing reorder ordered c store w v id fs r ok shown =
      let heap : C = hub.copy c in
      let f : TopicFilter = r.filter in
      let suback : List ℕ = 0x90 ∷ 3 ∷ (id / 256) ∷ (id % 256) ∷ 0 ∷ [] in
      let h : Subscription K C = subscription_of keys conn heap (written_key heap) (written f) in
      let entries = ordered store.entries v.retained shown.entries in
      let (id_ok, fs_ok, r_ok) = ok.sound in
      let captures = subscription-Captures c f r_ok in
      let (b, ran, same, joined, grew, left, kept) =
        handle_message-joins keys conn (network d) 4 (topic_of d) heap (written_key heap)
          (waiting d c w) (hub.delivers c w) timestamp order memory [] store (id / 256) (id % 256)
          (map filter_of fs) (filter_of r) (λ bytes. hub.copies c _)
          (λ e x y. hub.id-socket e x ∙ sym (hub.id-socket e y))
          (All-append (IsTopic keys conn heap (written_key heap)) (map filter_of fs)
            (filter_of r ∷ []) (All-IsTopic heap fs fs_ok) (written-IsTopic heap r r_ok, tt))
          (omega arith) (omega arith)
          (Holds-CanSend d (order store.entries) (reorder v.retained) entries) in
      (
        record { connection = c; store = b.store; world = b.world },
        serve-packet keys conn timestamp order memory (waiting d c w) (hub.delivers c w) 0x82
            (body_of (subscribing id fs r)) store ok.small ran
            (ap (λ (p : Packet C). destroy conn (p, b.world)) left
              ∙ destroy-empty d 0x82 c b.world),
        refl,
        record {
          entries = rw same shown.entries;
          observers = rw joined (
              Pairs-append (Observes d) store.observers v.subscribers _ _ shown.observers
                (record { id = hub.id-socket c _; captures = captures }));
        },
        λ n.
            grew n
            ∙ ap
                (λ (xs : List ℕ).
                  (xs ++ to n (hub.socket c) suback)
                  ++ replays keys conn (network d) 4 (topic_of d) n h (order store.entries))
                (hub.sent-arrive n (hub.socket c) [] w)
            ∙ append_assoc (hub.sent n w) (to n (hub.socket c) suback) _
            ∙ ap (λ (xs : List ℕ). hub.sent n w ++ (to n (hub.socket c) suback ++ xs))
                (replays-catch_up d n h (hub.socket c) f (order store.entries) (reorder v.retained)
                  captures entries),
        λ n. kept n ∙ pending-arrive_nothing d n (hub.socket c) w,
      )
