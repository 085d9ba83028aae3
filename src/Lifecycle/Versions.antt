-- ===== src/Lifecycle/Versions.antt =====
-- `sequence_for_version` of src/channel/lifecycle.py.
use bonded_subsat_channel.Base.{ℕ, ◌≤◌, ◌<◌, ◌≡◌, arith, ok, err, Error}
use bonded_subsat_channel.Base.Int.{pos}
use bonded_subsat_channel.Config.{final_sequence}
use bonded_subsat_channel.Lifecycle.{sequence_for_version}

pub sequence_for_version-below : (v : ℕ) → v < final_sequence → sequence_for_version (pos v) ≡ ok v
unfolding sequence_for_version
sequence_for_version-below v h = ground arith

pub sequence_for_version-beyond :
    (v : ℕ) → final_sequence ≤ v → sequence_for_version (pos v) ≡ err Error.state
unfolding sequence_for_version
sequence_for_version-beyond v h = ground arith

-- Of two states that both have a sequence, the one with the higher version has the higher sequence,
-- and so overtakes the other.
pub sequence_for_version_mono :
    (a b : ℕ) {p q : ℕ}
    → a < b
    → sequence_for_version (pos a) ≡ ok p
    → sequence_for_version (pos b) ≡ ok q
    → p < q
unfolding sequence_for_version
sequence_for_version_mono a b lt ea eb = ground arith
