-- ===== src/Entry/Codes.antt =====
-- A phase is stored in an atomic byte.
use oxdm.Prelude.{◌≡◌, ◌<◌, arith}
use oxdm.Job.{Phase}
use oxdm.Entry.{encode_phase, decode_phase}

-- The byte of a phase reads back as that phase, and fits in a `u8`.
pub decode_phase-encode_phase :
    (p : Phase) → (decode_phase (encode_phase p) ≡ p) × (encode_phase p < 256)
unfolding decode_phase encode_phase
decode_phase-encode_phase p = ground arith
