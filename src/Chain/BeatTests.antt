-- ===== src/Chain/BeatTests.antt =====
-- The beats of a few polls.
use bittensor_nexus_library.Prelude.{ℕ, ◌≡◌, refl, true, none, [], ◌∷◌, List, All, keep_if, arith}
use bittensor_nexus_library.Chain.BlockBeat
use bittensor_nexus_library.Chain.BlockBeat.{BlockBeat, Poll, polled, transient_failure}
use bittensor_nexus_library.Chain.BlockBeat.Laws.{
  polled_blocks, is_multiple, without_repeats, produce-without_repeats,
}
use bittensor_nexus_library.Chain.EpochBeat
use bittensor_nexus_library.Chain.EpochBeat.{EpochBeatNode}
use bittensor_nexus_library.Chain.EpochBeat.Laws.{Separated, covers, delayed, produce-Separated}

abbrev beat : ℕ → BlockBeat
beat n = record { block_number = n; block_timestamp = 12; block_hash = "0x" }

abbrev polls : List Poll
polls =
    polled (beat 360)
    ∷ transient_failure
    ∷ polled (beat 360)
    ∷ polled (beat 361)
    ∷ polled (beat 800)
    ∷ []

abbrev node : EpochBeatNode
node = record { netuid = 12; delay_blocks = 20 }

produce-without_repeats_example :
    (BlockBeat.produce 5 none polls).0
    ≡ without_repeats none (keep_if (is_multiple 5) (polled_blocks polls))
produce-without_repeats_example = produce-without_repeats 5 polls (omega arith)

two_beats : (BlockBeat.produce 5 none polls).0 ≡ beat 360 ∷ beat 800 ∷ []
unfolding BlockBeat.produce
two_beats = refl

produce-Separated_example :
    Separated none (EpochBeat.produce node none polls).0
    × All
        (λ b. covers (EpochBeat.produce node none polls).0 (delayed node b) ≡ true)
        (polled_blocks polls)
produce-Separated_example =
    produce-Separated node polls (omega arith, (omega arith, (omega arith, (omega arith, tt))))
