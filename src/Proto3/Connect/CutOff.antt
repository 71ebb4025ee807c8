-- ===== src/Proto3/Connect/CutOff.antt =====
-- Connect::ReadFrom where the client's bytes end behind the protocol name.
use gnat.Base.{
  ℕ, zero, suc, ◌^◌, ◌<◌, ◌≤◌, ◌≡◌, refl, sym, ap, ◌∙◌, arith, List, [], ◌∷◌, ◌++◌, Option, none,
  some, length, drop, replicate,
}
use gnat.Base.Outcome.{Prog, done, step, step?}
use gnat.Fields.{bytes_loop, read_bytes, read_string, of_memory, to_memory, empty_buffer}
use gnat.Fields.Channel.{Delivers, read_string-fits}
use gnat.Proto3.Connect.{Connect, read_connect}
use mathlib.Core.List.{append-nil}

module _ {S : Type 0} (read : ℕ → Prog S (Option (List ℕ))) (s : S)
    (ended : (n : ℕ) → read (suc n) s ≡ done (none, s)) where
  bytes_loop-ended : (i : ℕ) (out : List ℕ) → bytes_loop read i out s ≡ done (out, s)
  unfolding bytes_loop
  bytes_loop-ended zero out = refl
  bytes_loop-ended (suc i) out = step _ _ (ended 0) (bytes_loop-ended i out)

  -- A variable whose bytes do not come keeps its value.
  read_bytes-ended :
      (n out : ℕ) → of_memory (to_memory n out) ≡ out → read_bytes read n out s ≡ done (some out, s)
  unfolding read_bytes
  read_bytes-ended n out same =
      step _ _ (bytes_loop-ended n (to_memory n out)) (ap (λ (v : ℕ). done (some v, s)) same)

-- Integers as the types of the members allow them.
pub record HasMembers (memory : Connect) : Type 0 where
  pub level : memory.protocol_level < 256
  pub flag_byte : memory.flags < 256
  pub alive : memory.keep_alive < 2 ^ 16

-- On a client that delivers its bytes and fails every read of a byte or more behind them,
-- Connect::ReadFrom of a protocol name of at most six bytes and nothing else succeeds: it gives
-- the name, with the level, the flags and the time to keep alive that the uninitialised Connect
-- held.
pub read_connect-ended :
    {S : Type 0} (read : ℕ → Prog S (Option (List ℕ))) (waiting : List ℕ → S)
    (delivers : Delivers read waiting) (memory : Connect) (name : List ℕ)
    → ((n : ℕ) → read (suc n) (waiting []) ≡ done (none, waiting []))
    → HasMembers memory
    → length name ≤ 6
    → read_connect read memory (waiting (0 ∷ length name ∷ name))
      ≡ done (
        some (record memory {
          protocol_name = record {
            data_ = name ++ drop (length name) (replicate 6 0);
            length_ = length name;
          };
          client_id = empty_buffer 23;
        }),
        waiting [],
      )
unfolding read_connect
read_connect-ended read waiting delivers memory name ended v short =
    step? _ _
      (ap
          (λ (bytes : List ℕ).
            read_string read (empty_buffer 6) (waiting (0 ∷ length name ∷ bytes)))
          (sym (append-nil name))
        ∙ read_string-fits read waiting delivers (empty_buffer 6) name [] 0 (length name)
            (omega arith) (omega arith) (omega arith))
      (step? _ _
        (read_bytes-ended read (waiting []) ended 1 memory.protocol_level (omega (arith, v.level)))
        (step? _ _
          (read_bytes-ended read (waiting []) ended 1 memory.flags (omega (arith, v.flag_byte)))
          (step? _ _
            (read_bytes-ended read (waiting []) ended 2 memory.keep_alive (omega (arith, v.alive)))
            refl)))
