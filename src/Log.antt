-- ===== src/Log.antt =====
-- The logging functions and macros (include/gnat/log.h).
pub mod Printing
use gnat.Base.{
  ℕ, ◌-◌, suc, zero, List, [], ◌∷◌, ◌++◌, Bool, true, false, Option, none, some, if◌then◌else◌, ltb,
  length, drop, take, set,
}
use gnat.Base.Outcome.{Prog, done, undefined, pure, raise, ◌>>=◌, ◌>>◌}
use gnat.Key.{strlen}

-- What stands between the parentheses of LOG: a format, and the numbers behind it.
pub record Arguments : Type 0 where
  pub format : List ℕ
  pub values : List ℕ

-- What vsnprintf stored from the front of the buffer on, and its result; `none` is a negative one.
pub record Formatted : Type 0 where
  pub bytes : List ℕ
  pub written : Option ℕ

-- The libraries that are called, in a world `W`.
pub record Printers (W : Type 0) : Type 0 where
  pub vsnprintf : ℕ → Arguments → Formatted
  pub println : List ℕ → W → W
  pub printf : Arguments → W → W

-- ARDUINO and GNAT_LOG_LEVEL.
pub record Config : Type 0 where
  pub arduino : Bool
  pub level : ℕ

abbrev pub log_buffer_size : ℕ
log_buffer_size = 128

-- "%02X" with a byte, and "\n".
abbrev pub hex : ℕ → Arguments
hex byte = record { format = b'%' ∷ b'0' ∷ b'2' ∷ b'X' ∷ []; values = byte ∷ [] }

abbrev pub newline : Arguments
newline = record { format = 10 ∷ []; values = [] }

-- The state is the static `log_buffer` and the world.
module _ {W : Type 0} (printers : Printers W) where
  -- `Serial.println` of a text that ends with a zero.
  unfoldable pub print_buffer : Prog (List ℕ × W) (Unit {0})
  print_buffer (buffer, w) = elim (strlen buffer) [
    | none ↦ undefined
    | some n ↦ done (tt, (buffer, printers.println (take n buffer) w))
  ]

  -- `log_buffer[written] = 0`.
  unfoldable pub end_buffer : Option ℕ → Prog (List ℕ × W) (Unit {0})
  end_buffer none s = undefined
  end_buffer (some written) (buffer, w) =
      if ltb written (length buffer) then done (tt, (set buffer written 0, w)) else undefined

  unfoldable pub serial_printf : Arguments → Prog (List ℕ × W) (Unit {0})
  unfolding print_buffer end_buffer
  serial_printf arguments (buffer, w) =
      let out = printers.vsnprintf (log_buffer_size - 1) arguments in
      let stored = out.bytes ++ drop (length out.bytes) buffer in
      (end_buffer out.written >> print_buffer) (stored, w)

  -- What LOG and DEBUG_LOG expand to where they are on.
  unfoldable pub print : Config → Arguments → Prog (List ℕ × W) (Unit {0})
  unfolding serial_printf
  print config arguments (buffer, w) =
      if config.arduino
      then serial_printf arguments (buffer, w)
      else done (tt, (buffer, printers.printf arguments w))

  -- LOG.
  unfoldable pub log : Config → Arguments → Prog (List ℕ × W) (Unit {0})
  unfolding print
  log config arguments = if ltb 0 config.level then print config arguments else pure tt

  -- DEBUG_LOG.
  unfoldable pub debug_log : Config → Arguments → Prog (List ℕ × W) (Unit {0})
  unfolding print
  debug_log config arguments = if ltb 1 config.level then print config arguments else pure tt

  -- The loop of LogHex. `data[i]` is read only where LOG expands to a call.
  unfoldable pub hex_loop : Config → ℕ → List ℕ → Prog (List ℕ × W) (Unit {0})
  unfolding log
  hex_loop config zero bytes = pure tt
  hex_loop config (suc size) [] =
      let rest = hex_loop config size [] in if ltb 0 config.level then raise undefined else rest
  hex_loop config (suc size) (byte ∷ bytes) = log config (hex byte) >> hex_loop config size bytes

  unfoldable pub log_hex : Config → List ℕ → ℕ → Prog (List ℕ × W) (Unit {0})
  unfolding hex_loop log
  log_hex config bytes size = hex_loop config size bytes >> log config newline
