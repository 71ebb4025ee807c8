-- ===== src/Proto3/PingResp.antt =====
-- struct PingResp (include/gnat/packets.h, lines 477 to 486).
use gnat.Base.{ℕ, ◌*◌, bit_and, List, [], ◌∷◌, Bool}
use gnat.Base.Outcome.{Prog}
use gnat.Header.{pingresp, packet_code}

module _ {S : Type 0} where
  unfoldable pub send_ping_resp : (List ℕ → Prog S Bool) → Prog S Bool
  unfolding packet_code
  send_ping_resp write = write (bit_and (packet_code pingresp * 16) 0xf0 ∷ 0 ∷ [])
