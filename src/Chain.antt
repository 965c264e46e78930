-- ===== src/Chain.antt =====
-- src/nexus/_internal/utils/chain.py and utils/types.py, and the clocks under
-- src/nexus/_internal/actors/chain_beat. Block numbers are Python integers: an offset may take one
-- below zero.
pub mod Epoch
pub mod SetWeightsBeat
pub mod BlockBeat
pub mod EpochBeat
mod Tests
mod BeatTests
