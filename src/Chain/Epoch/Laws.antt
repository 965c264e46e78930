-- ===== src/Chain/Epoch/Laws.antt =====
-- What callers of `get_epoch_containing_block` and `Epoch.previous` rely on.
use bittensor_nexus_library.Prelude.{
  ℕ, ◌+◌, ◌<◌, ◌≡◌, ◌≢◌, ap, ◌∙◌, subst, arith, true, false, inl, inr, Bool-cases, ◌↔◌, ◌⊎◌,
}
use bittensor_nexus_library.Prelude.Int.{ℤ, pos, ◌+ℤ◌, ◌-ℤ◌, ◌≤ℤ◌, int_laws, -ℤ_parts, ltb_ℤ, leb_ℤ}
use bittensor_nexus_library.Exceptions.{ok, raise, value_error}
use bittensor_nexus_library.Chain.Epoch.{Epoch, contains, previous, get_epoch_containing_block}
use bittensor_nexus_library.Chain.Epoch.Partition.{
  IsEpoch, Within, get_epoch_sound, IsEpoch-unique, aligned_before,
}

Within-contains : (e : Epoch) (b : ℤ) → Within b e → contains e b ≡ true
unfolding contains
Within-contains e b w = ground arith

contains-Within : (e : Epoch) (b : ℤ) → contains e b ≡ true → Within b e
unfolding contains
contains-Within e b h = ground arith

-- For a positive tempo every block, also one below zero, has an epoch: it contains the block, spans
-- `tempo + 1` blocks, and starts where `first_block + netuid + 2` is a multiple of that length.
pub get_epoch-IsEpoch :
    (block : ℤ) (netuid tempo : ℕ)
    → 0 < tempo
    → (e : Epoch) × (get_epoch_containing_block block netuid tempo ≡ ok e)
      × (contains e block ≡ true)
      × IsEpoch netuid tempo e
get_epoch-IsEpoch block netuid tempo h =
    let (e, computed, w, i) = get_epoch_sound block netuid tempo h in
    (e, computed, Within-contains e block w, i)

get_epoch_inv :
    (b : ℤ) (n t : ℕ) (e : Epoch)
    → 0 < t
    → get_epoch_containing_block b n t ≡ ok e
    → Within b e × IsEpoch n t e
get_epoch_inv b n t e h g =
    let (f, computed, w, i) = get_epoch_sound b n t h in
    let same : f ≡ e = cc in (subst (Within b) same w, subst (IsEpoch n t) same i)

-- An epoch with the shape of the subnet's, and with the block in it, is the one computed.
get_epoch_complete :
    (b : ℤ) (n t : ℕ) (e : Epoch)
    → 0 < t
    → Within b e
    → IsEpoch n t e
    → get_epoch_containing_block b n t ≡ ok e
get_epoch_complete b n t e h w i =
    let (f, computed, wf, jf) = get_epoch_sound b n t h in
    computed ∙ ap ok (IsEpoch-unique n t b f e jf i wf w)

-- For a positive tempo, two blocks have the same epoch exactly when the epoch of one contains the
-- other, so the epochs partition the chain.
pub get_epoch-eq_iff :
    (b c : ℤ) (netuid tempo : ℕ) (e : Epoch)
    → 0 < tempo
    → get_epoch_containing_block b netuid tempo ≡ ok e
    → (get_epoch_containing_block c netuid tempo ≡ ok e) ↔ (contains e c ≡ true)
get_epoch-eq_iff b c n t e h g =
    let (w, i) = get_epoch_inv b n t e h g in
    (
      λ same. Within-contains e c (get_epoch_inv c n t e h same).0,
      λ within. get_epoch_complete c n t e h (contains-Within e c within) i,
    )

abbrev span : Epoch → ℤ
span e = e.last_block -ℤ e.first_block +ℤ pos 1

previous_inv :
    (e p : Epoch)
    → previous e ≡ ok p
    → (p.first_block ≡ e.first_block -ℤ span e) × (p.last_block ≡ e.last_block -ℤ span e)
unfolding previous
previous_inv e p h = ground arith

previous_raises :
    (e : Epoch)
    → ltb_ℤ (pos 0) (span e) ≡ true
    → ltb_ℤ e.first_block (span e) ≡ true
    → previous e ≡ raise value_error
unfolding previous
previous_raises e h l = ground (arith, -ℤ_parts e.first_block (span e))

previous_computes :
    (e : Epoch)
    → ltb_ℤ (pos 0) (span e) ≡ true
    → ltb_ℤ e.first_block (span e) ≡ false
    → e.first_block ≤ℤ e.last_block
    → previous e ≢ raise value_error
unfolding previous
previous_computes e h l le =
    ground (arith, -ℤ_parts e.first_block (span e), -ℤ_parts e.last_block (span e))

span_of : (n t : ℕ) (e : Epoch) → IsEpoch n t e → span e ≡ pos (t + 1)
span_of n t e i = rw i.span (omega int_laws)

-- For a positive tempo, `previous` of a computed epoch, where it does not raise, is the epoch of
-- the block just before it.
pub previous-get_epoch :
    (b : ℤ) (netuid tempo : ℕ) (e p : Epoch)
    → 0 < tempo
    → get_epoch_containing_block b netuid tempo ≡ ok e
    → previous e ≡ ok p
    → get_epoch_containing_block (e.first_block -ℤ pos 1) netuid tempo ≡ ok p
previous-get_epoch b n t e p h g q =
    let (w, i) = get_epoch_inv b n t e h g in
    let (first, last) = previous_inv e p q in
    let length = span_of n t e i in
    get_epoch_complete (e.first_block -ℤ pos 1) n t p h
      (rw (first, last, length, i.span)
        (record { from_first = omega int_laws; to_last = omega int_laws }))
      (record {
        span = rw (first, last, length, i.span) (omega int_laws);
        aligned = rw (first, length) (aligned_before e.first_block (n + 2) t i.aligned);
      })

-- For a positive tempo, `previous` of a computed epoch raises `ValueError` exactly when fewer than
-- `tempo + 1` blocks stand before it.
pub previous-raises_iff :
    (b : ℤ) (netuid tempo : ℕ) (e : Epoch)
    → 0 < tempo
    → get_epoch_containing_block b netuid tempo ≡ ok e
    → (previous e ≡ raise value_error) ↔ (ltb_ℤ e.first_block (pos (tempo + 1)) ≡ true)
previous-raises_iff b n t e h g =
    let (w, i) = get_epoch_inv b n t e h g in
    let length = span_of n t e i in
    let positive : ltb_ℤ (pos 0) (span e) ≡ true = rw length (ground arith) in
    let ordered : e.first_block ≤ℤ e.last_block = rw i.span (omega int_laws) in
    (
      λ refused. elim (Bool-cases (ltb_ℤ e.first_block (pos (t + 1)))) [
        | inl low ↦ low
        | inr high ↦ absurd (previous_computes e positive (rw length high) ordered refused)
      ],
      λ low. previous_raises e positive (rw length low),
    )

-- A block that is not before another one is in the same epoch, or in one that starts after its end.
pub get_epoch_later :
    (b c : ℤ) (netuid tempo : ℕ) (e f : Epoch)
    → 0 < tempo
    → b ≤ℤ c
    → get_epoch_containing_block b netuid tempo ≡ ok e
    → get_epoch_containing_block c netuid tempo ≡ ok f
    → (e ≡ f) ⊎ (ltb_ℤ e.last_block f.first_block ≡ true)
get_epoch_later b c n t e f h order at_b at_c =
    let (w, i) = get_epoch_inv b n t e h at_b in
    let (x, j) = get_epoch_inv c n t f h at_c in
    elim (Bool-cases (ltb_ℤ e.last_block f.first_block)) [
      | inl later ↦ inr later
      | inr overlap ↦ elim (Bool-cases (leb_ℤ c e.last_block)) [
        | inl inside ↦ inl (
            IsEpoch-unique n t c e f i j
              (record {
                from_first = ground (arith, w.from_first, order);
                to_last = ground (arith, inside);
              })
              x)
        | inr beyond ↦ inl (
            IsEpoch-unique n t e.last_block e f i j
              (record {
                from_first = ground (arith, w.from_first, w.to_last);
                to_last = ground arith;
              })
              (record {
                from_first = ground (arith, overlap);
                to_last = ground (arith, beyond, x.to_last);
              }))
      ]
    ]
