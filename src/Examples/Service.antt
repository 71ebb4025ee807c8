-- ===== src/Examples/Service.antt =====
-- A broker for many clients. Its map goes through its entries from the oldest to the latest.
use gnat.Base.{
  ℕ, ◌≡◌, ◌≤◌, refl, arith, List, [], ◌∷◌, ◌++◌, All, Pairs, Pairs-append, true, false, ◌==◌,
  if◌then◌else◌, length,
}
use gnat.Base.Outcome.{done, pure}
use gnat.DataStore.{DataStoreEntry}
use gnat.Fields.Variable.{encoding}
use gnat.Key.{text_keys, text_prefix, integer_keys, widen}
use gnat.Key.Names.{IsIntegerName, integer_keys-Names, IsTextName, text_names}
use gnat.Proto3.Connect.{default_connect}
use gnat.Server.Service.{Deployment}
use gnat.Server.Service.Mirrors.{Mirrors, Holds}
use gnat.Server.Service.Running.{run-Mirrors}
use gnat.Server.Service.Turns.{Site, reads, forgets, run}
use gnat.Server.Service.Spec.{
  at_most_once, at_least_once, TopicFilter, exact, prefix, name, written, connecting, publishing,
  subscribing, pinging, disconnecting, Event, received, forgotten, View, Retained, IsFilterName,
  IsEvent, wires_on, to,
}
use gnat.Server.Observer.{contains}
use gnat.Status.{same_text}
use gnat.Examples.Lines.{Lines, lines, lines_hub}
use gnat.Examples.Client.{default_IsConnect}

abbrev oldest_first : {A : Type 0} → List A → List A
oldest_first [] = []
oldest_first (x ∷ xs) = oldest_first xs ++ x ∷ []

abbrev deployment : Deployment (List ℕ) ℕ Lines
deployment = record {
  keys = text_keys;
  IsName = IsTextName;
  names = text_names;
  conn = lines;
  hub = lines_hub;
  timestamp = pure 5;
  now = λ w. 5;
  clock = λ w. refl;
  order = oldest_first;
  memory = default_connect;
}

oldest_first-ordered :
    (es : List (List ℕ × DataStoreEntry)) (rs : List Retained)
    → Pairs (Holds deployment) es rs
    → Pairs (Holds deployment) (oldest_first es) (oldest_first rs)
oldest_first-ordered [] [] p = tt
oldest_first-ordered [] (r ∷ rs) p = absurd p
oldest_first-ordered (x ∷ es) [] p = absurd p
oldest_first-ordered (x ∷ es) (r ∷ rs) (q, p) =
    Pairs-append (Holds deployment) (oldest_first es) (oldest_first rs) x r
      (oldest_first-ordered es rs p) q

-- Socket 1 publishes `ab`, socket 2 subscribes to `b` and to `a#` and hears of it; socket 1 publishes
-- `ac` and disconnects, and the program forgets socket 2.
abbrev script : List Event
script =
    received 1 (connecting default_connect)
    ∷ received 1 (publishing at_most_once false true (97 ∷ 98 ∷ []) (7 ∷ []))
    ∷ received 2 (
        subscribing 258 (record { filter = exact (98 ∷ []); qos = 1 } ∷ [])
          (record { filter = prefix (97 ∷ []); qos = 2 }))
    ∷ received 1 (publishing (at_least_once 300) false false (97 ∷ 99 ∷ []) (8 ∷ []))
    ∷ received 1 pinging
    ∷ received 1 disconnecting
    ∷ forgotten 2
    ∷ []

-- Socket 2 has begun another packet.
abbrev leftover : ℕ → List ℕ
leftover s = if s == 2 then 0xc0 ∷ [] else []

-- All that the clients send is there from the start.
abbrev site : Site (List ℕ) ℕ Lines
site = record {
  connections = λ s. s;
  store = record { entries = []; observers = [] };
  world = record { incoming = λ s. wires_on s script ++ leftover s; sent = λ s. [] };
}

abbrev unused : View
unused = record { retained = []; subscribers = [] }

short_IsFilterName :
    (f : TopicFilter)
    → contains b'+' (name f) ≡ false
    → contains b'#' (name f) ≡ false
    → length (name f) ≤ 128
    → length (written f) ≤ 128
    → IsFilterName IsTextName f
short_IsFilterName f plus hash named short = record {
  named = named;
  no_plus = plus;
  no_hash = hash;
  short = short;
}

script-IsEvent : All (IsEvent IsTextName) script
unfolding contains
script-IsEvent = (
  record { sound = default_IsConnect; small = omega arith },
  (
    record { sound = omega arith; small = omega arith },
    (
      record {
        sound = (
          omega arith,
          (short_IsFilterName (exact (98 ∷ [])) refl refl (omega arith) (omega arith), tt),
          short_IsFilterName (prefix (97 ∷ [])) refl refl (omega arith) (omega arith),
        );
        small = omega arith;
      },
      (
        record { sound = omega arith; small = omega arith },
        (
          record { sound = tt; small = omega arith },
          (record { sound = tt; small = omega arith }, (tt, tt)),
        ),
      ),
    ),
  ),
)

-- Socket 1 gets the CONNACK and the PINGRESP, socket 2 the SUBACK, `ab` and `ac`; `b` has no
-- subscriber, and the topics are retained.
run-Mirrors_example :
    (site' : Site (List ℕ) ℕ Lines) × (run deployment
        (reads 1 ∷ reads 1 ∷ reads 2 ∷ reads 1 ∷ reads 1 ∷ reads 1 ∷ forgets 2 ∷ [])
        site
      ≡ done (true, site'))
    × Mirrors deployment site'.store (record {
      retained =
          record { topic = 97 ∷ 99 ∷ []; payload = 8 ∷ [] }
          ∷ record { topic = 97 ∷ 98 ∷ []; payload = 7 ∷ [] }
          ∷ [];
      subscribers = [];
    })
    × ((n : ℕ)
        → site'.world.sent n
          ≡ to n 1 (0x20 ∷ 2 ∷ 0 ∷ 0 ∷ [])
            ++ ((to n 2 (0x90 ∷ 3 ∷ 1 ∷ 2 ∷ 0 ∷ [])
                  ++ (to n 2 (0x30 ∷ 5 ∷ 0 ∷ 2 ∷ 97 ∷ 98 ∷ 7 ∷ []) ++ []))
                ++ ((to n 2 (0x30 ∷ 5 ∷ 0 ∷ 2 ∷ 97 ∷ 99 ∷ 8 ∷ []) ++ [])
                    ++ (to n 1 (0xd0 ∷ 0 ∷ []) ++ []))))
    × ((n : ℕ) → site'.world.incoming n ≡ leftover n)
unfolding same_text text_names text_prefix encoding
run-Mirrors_example =
    run-Mirrors deployment oldest_first oldest_first-ordered script leftover site unused
      script-IsEvent (λ s. refl) (record { entries = tt; observers = tt }) (λ n. refl)

-- The same network with integer keys, and a map in its own order.
abbrev integer_deployment : Deployment ℕ ℕ Lines
integer_deployment = record {
  keys = integer_keys true;
  IsName = IsIntegerName true;
  names = integer_keys-Names true;
  conn = lines;
  hub = lines_hub;
  timestamp = pure 5;
  now = λ w. 5;
  clock = λ w. refl;
  order = λ es. es;
  memory = default_connect;
}

ab-IsIntegerName : IsIntegerName true (97 ∷ 98 ∷ [])
unfolding widen
ab-IsIntegerName = record {
  seven = omega arith;
  chars = (
    record { pos = omega arith; byte = omega arith },
    (record { pos = omega arith; byte = omega arith }, tt),
  );
  plain = (
    record { byte = omega arith; widens = refl },
    (record { byte = omega arith; widens = refl }, tt),
  );
}

-- Socket 2 subscribes to `ab`, and socket 1 publishes it.
abbrev short_script : List Event
short_script =
    received 2 (subscribing 1 [] (record { filter = exact (97 ∷ 98 ∷ []); qos = 0 }))
    ∷ received 1 (publishing at_most_once false false (97 ∷ 98 ∷ []) (7 ∷ []))
    ∷ []

short_script-IsEvent : All (IsEvent (IsIntegerName true)) short_script
unfolding contains
short_script-IsEvent = (
  record {
    sound = (
      omega arith,
      tt,
      record { named = ab-IsIntegerName; no_plus = refl; no_hash = refl; short = omega arith },
    );
    small = omega arith;
  },
  (record { sound = ab-IsIntegerName; small = omega arith }, tt),
)

abbrev integer_site : Site ℕ ℕ Lines
integer_site = record {
  connections = λ s. s;
  store = record { entries = []; observers = [] };
  world = record { incoming = λ s. wires_on s short_script ++ []; sent = λ s. [] };
}

integer_run :
    (site' : Site ℕ ℕ Lines) × (run integer_deployment (reads 2 ∷ reads 1 ∷ []) integer_site
      ≡ done (true, site'))
    × Mirrors integer_deployment site'.store (record {
      retained = record { topic = 97 ∷ 98 ∷ []; payload = 7 ∷ [] } ∷ [];
      subscribers = record { socket = 2; filter = exact (97 ∷ 98 ∷ []) } ∷ [];
    })
    × ((n : ℕ)
        → site'.world.sent n
          ≡ (to n 2 (0x90 ∷ 3 ∷ 0 ∷ 1 ∷ 0 ∷ []) ++ [])
            ++ ((to n 2 (0x30 ∷ 5 ∷ 0 ∷ 2 ∷ 97 ∷ 98 ∷ 7 ∷ []) ++ []) ++ []))
    × ((n : ℕ) → site'.world.incoming n ≡ [])
unfolding same_text encoding
integer_run =
    run-Mirrors integer_deployment (λ rs. rs) (λ es rs p. p) short_script (λ n. []) integer_site
      unused short_script-IsEvent (λ s. refl) (record { entries = tt; observers = tt }) (λ n. refl)
