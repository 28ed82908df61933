-- ===== src/Protocol/Status/Decoding.antt =====
-- A status frame says what the machine put into it.
use Prim.Native.Nat.{bit_and}
use hass_melitta_barista_ts.Prelude.{
  ℕ, ◌%◌, ◌<◌, ◌≡◌, ◌↔◌, refl, true, false, List, ◌∷◌, ◌++◌, some, ◌==◌, ==_iff, arith,
}
use hass_melitta_barista_ts.Prelude.Bits.{all_below, all_below_sound}
use hass_melitta_barista_ts.Errors.{ok, Result, ◌>>=◌}
use hass_melitta_barista_ts.Const.Status.{MachineProcess, machine_process_enum}
use hass_melitta_barista_ts.Protocol.Words.{pack_i16, pack_i16-FitsI16, FitsI16}
use hass_melitta_barista_ts.Protocol.Status.{
  MachineStatus, from_payload, process_enum, info_flags, is_busy,
}

-- How the machine lays a status out: three numbers of two bytes round the two single bytes.
pub encode_status : MachineStatus → Result (List ℕ)
encode_status s = do
  p ← pack_i16 s.process
  q ← pack_i16 s.sub_process
  r ← pack_i16 s.progress
  ok (p ++ q ++ s.info_messages ∷ s.manipulation ∷ r)

-- Decoding the eight bytes of a status gives the status again, where its three numbers fit 16 signed bits.
pub from_payload-encode_status :
    (s : MachineStatus)
    → FitsI16 s.process
    → FitsI16 s.sub_process
    → FitsI16 s.progress
    → (encode_status s >>= from_payload) ≡ ok s
unfolding encode_status from_payload
from_payload-encode_status s hp hq hr =
    let (a, b, ep, up) = pack_i16-FitsI16 s.process hp in
    let (c, d, eq, uq) = pack_i16-FitsI16 s.sub_process hq in
    let (e, f, er, ur) = pack_i16-FitsI16 s.progress hr in rw (ep, eq, er) (cc (up, uq, ur))

mask_table : all_below 256 (λ x. bit_and x 31 == x % 32) ≡ true
unfolding all_below
mask_table = refl

-- Of an info byte the decoded flag set keeps the five low bits.
pub info_flags_low_bits :
    (s : MachineStatus) → s.info_messages < 256 → info_flags s ≡ s.info_messages % 32
unfolding info_flags
info_flags_low_bits s h = (==_iff _ _).0 (all_below_sound 256 _ s.info_messages mask_table h)

-- The machine is idle exactly when the process decodes to READY.
pub is_busy_iff :
    (s : MachineStatus) → (is_busy s ≡ false) ↔ (process_enum s ≡ some MachineProcess.ready)
unfolding is_busy process_enum
is_busy_iff s = (λ h. ground arith, λ h. ground arith)
