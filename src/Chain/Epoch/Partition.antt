-- ===== src/Chain/Epoch/Partition.antt =====
-- The epochs of a subnet cut the blocks into consecutive ranges of `tempo + 1` blocks.
use native.Mathlib.Nat.{
  mul-add-mod_self_right, mod-eq_of_lt, div-add-mod', mul-le-mul_right, mul-le-mul_left,
  add-mod_right,
}
use native.Mathlib.Decide.{dec_lt}
use bittensor_nexus_library.Prelude.{
  ℕ, suc, ◌+◌, ◌-◌, ◌*◌, ◌%◌, ◌/◌, sym, ◌∙◌, ◌<◌, ◌≤◌, ◌≡◌, refl, ap, arith, true, false, nat_beq,
  ◌≢◌,
}
use bittensor_nexus_library.Prelude.Int.{
  ℤ, pos, negsuc, pos_part, neg_part, ◌+ℤ◌, ◌-ℤ◌, ◌≤ℤ◌, mod_ℤ, int_laws, +ℤ_parts, eq_of_parts,
}
use bittensor_nexus_library.Exceptions.{ok}
use bittensor_nexus_library.Chain.Epoch.{Epoch, get_epoch_containing_block}

pub mod_ℤ-lt : (a : ℤ) (m : ℕ) → 0 < m → mod_ℤ a m < m
unfolding mod_ℤ
mod_ℤ-lt (pos n) m h = omega arith
mod_ℤ-lt (negsuc n) m h = omega arith

pub mod_of_parts : (q r m : ℕ) → r < m → (q * m + r) % m ≡ r
mod_of_parts q r m h = mul-add-mod_self_right q m r ∙ mod-eq_of_lt h

div_lt : (a k m x : ℕ) → x + suc a ≡ k * m → a / m < k
div_lt a k m x e = elim (dec_lt (a / m) k) [
  | yes h ↦ h
  | no h ↦
      let le : k ≤ a / m = omega arith in
      absurd (omega (arith, div-add-mod' a m, mul-le-mul_right m le))
]

-- `mod_ℤ` as a remainder: `a` plus enough times `m` is a natural number with that remainder.
pub mod_ℤ_shift :
    (a : ℤ) (m k x : ℕ) → 0 < m → x + neg_part a ≡ pos_part a + k * m → mod_ℤ a m ≡ x % m
unfolding mod_ℤ
mod_ℤ_shift (pos n) m k x h e =
    let e' : x ≡ k * m + n = omega arith in rw e' (sym (mul-add-mod_self_right k m n))
mod_ℤ_shift (negsuc n) m k x h e =
    let j : ℕ = k - n / m - 1 in
    let split : k ≡ j + n / m + 1 = omega (arith, div_lt n k m x (omega arith)) in
    let x_eq : x ≡ j * m + (m - 1 - n % m) =
      omega (arith, ap (λ (t : ℕ). t * m) split, div-add-mod' n m) in
    rw x_eq (sym (mod_of_parts j (m - 1 - n % m) m (omega arith)))

-- The number that stands for `a` when `k * m` is added.
abbrev raised : ℤ → ℕ → ℕ → ℕ
raised a k m = pos_part a + k * m - neg_part a

le_mul : (a k m : ℕ) → 0 < m → a ≤ k → a ≤ k * m
le_mul a k m h l = omega (arith, mul-le-mul_left k h)

mod_ℤ-raised : (a : ℤ) (k m : ℕ) → 0 < m → neg_part a ≤ k → mod_ℤ a m ≡ raised a k m % m
mod_ℤ-raised a k m h l =
    mod_ℤ_shift a m k (raised a k m) h (omega (arith, le_mul (neg_part a) k m h l))

-- Multiples of `m` that are less than `m` apart are equal.
multiples_close : (x y m : ℕ) → x % m ≡ 0 → y % m ≡ 0 → x < y + m → x ≤ y
multiples_close x y m p q h = elim (dec_lt (y / m) (x / m)) [
  | yes l ↦ absurd (omega (arith, mul-le-mul_right m l, div-add-mod' x m, div-add-mod' y m))
  | no l ↦
      let le : x / m ≤ y / m = omega arith in
      omega (arith, mul-le-mul_right m le, div-add-mod' x m, div-add-mod' y m)
]

-- The epochs of a subnet: `tempo + 1` blocks, from a block where `first + netuid + 2` is a multiple
-- of that length.
pub record IsEpoch (netuid tempo : ℕ) (e : Epoch) : Type 0 where
  pub span : e.last_block ≡ e.first_block +ℤ pos tempo
  pub aligned : mod_ℤ (e.first_block +ℤ pos (netuid + 2)) (tempo + 1) ≡ 0

pub record Within (b : ℤ) (e : Epoch) : Type 0 where
  pub from_first : e.first_block ≤ℤ b
  pub to_last : b ≤ℤ e.last_block

first_le :
    (n t : ℕ) (b : ℤ) (e f : Epoch)
    → IsEpoch n t e
    → IsEpoch n t f
    → Within b e
    → Within b f
    → e.first_block ≤ℤ f.first_block
first_le n t b e f ie jf we wf =
    let x = e.first_block +ℤ pos (n + 2) in
    let y = f.first_block +ℤ pos (n + 2) in
    let k : ℕ = neg_part x + neg_part y in
    let close =
      multiples_close (raised x k (t + 1)) (raised y k (t + 1)) (t + 1)
        (sym (mod_ℤ-raised x k (t + 1) (omega arith) (omega arith)) ∙ ie.aligned)
        (sym (mod_ℤ-raised y k (t + 1) (omega arith) (omega arith)) ∙ jf.aligned)
        (omega (
          int_laws,
          ap pos_part ie.span,
          ap neg_part ie.span,
          ap pos_part jf.span,
          ap neg_part jf.span,
          le_mul (neg_part x) k (t + 1),
          le_mul (neg_part y) k (t + 1),
        )) in
    omega (int_laws, close, le_mul (neg_part x) k (t + 1), le_mul (neg_part y) k (t + 1))

aligned_down : (a c : ℤ) (m r : ℕ) → r < m → mod_ℤ a m ≡ r → a ≡ c +ℤ pos r → mod_ℤ c m ≡ 0
aligned_down a c m r l e h =
    let k : ℕ = neg_part a + neg_part c in
    let x : ℕ = raised a k m in
    let x_mod : x % m ≡ r = sym (mod_ℤ-raised a k m (omega arith) (omega arith)) ∙ e in
    let c_eq : raised c k m ≡ x / m * m + 0 = omega (
      int_laws,
      x_mod,
      div-add-mod' x m,
      ap pos_part h,
      ap neg_part h,
      +ℤ_parts c (pos r),
      le_mul (neg_part a) k m,
      le_mul (neg_part c) k m,
    ) in
    mod_ℤ-raised c k m (omega arith) (omega arith)
    ∙ (rw c_eq (mod_of_parts (x / m) 0 m (omega arith)))

mod_ℤ-add : (a : ℤ) (m : ℕ) → 0 < m → mod_ℤ (a +ℤ pos m) m ≡ mod_ℤ a m
mod_ℤ-add a m h =
    let b = a +ℤ pos m in
    let k : ℕ = neg_part a + neg_part b in
    let e : raised b k m ≡ raised a k m + m =
      omega (int_laws, +ℤ_parts a (pos m), le_mul (neg_part a) k m, le_mul (neg_part b) k m) in
    mod_ℤ-raised b k m h (omega arith)
    ∙ (rw e (add-mod_right (raised a k m) m))
    ∙ sym (mod_ℤ-raised a k m h (omega arith))

nat_beq-false : (a b : ℕ) → a ≢ b → nat_beq a b ≡ false
nat_beq-false a b h = ground arith

nat_beq-true : (a b : ℕ) → a ≡ b → nat_beq a b ≡ true
nat_beq-true a b h = ground arith

pub get_epoch_sound :
    (b : ℤ) (netuid tempo : ℕ)
    → 0 < tempo
    → (e : Epoch) × (get_epoch_containing_block b netuid tempo ≡ ok e)
      × Within b e
      × IsEpoch netuid tempo e
unfolding get_epoch_containing_block
get_epoch_sound b n t h =
    let a = b +ℤ pos n +ℤ pos 1 in
    let r = mod_ℤ a (t + 1) in
    let r_lt : r < t + 1 = mod_ℤ-lt a (t + 1) (omega arith) in
    let next = b +ℤ pos t -ℤ pos r in
    elim (dec_lt r t) [
      | yes l ↦ (
        record { first_block = next -ℤ pos (t + 1); last_block = next -ℤ pos 1 },
        rw (
          nat_beq-false t 0 (omega arith),
          nat_beq-false (pos_part next + neg_part b) (pos_part b + neg_part next) (omega int_laws),
        ),
        record { from_first = omega int_laws; to_last = omega int_laws },
        record {
          span = omega int_laws;
          aligned =
              aligned_down a (next -ℤ pos (t + 1) +ℤ pos (n + 2)) (t + 1) r r_lt refl
                (omega int_laws);
        },
      )
      | no g ↦ (
        record { first_block = next; last_block = next +ℤ pos (t + 1) -ℤ pos 1 },
        rw (
          nat_beq-false t 0 (omega arith),
          nat_beq-true (pos_part next + neg_part b) (pos_part b + neg_part next) (omega int_laws),
        ),
        record { from_first = omega int_laws; to_last = omega int_laws },
        record {
          span = omega int_laws;
          aligned =
              let c = next +ℤ pos (n + 2) -ℤ pos (t + 1) in
              let same : next +ℤ pos (n + 2) ≡ c +ℤ pos (t + 1) = omega int_laws in
              rw same (
                mod_ℤ-add c (t + 1) (omega arith)
                ∙ aligned_down a c (t + 1) r r_lt refl (omega int_laws));
        },
      )
    ]

epoch-ext : (e f : Epoch) → e.first_block ≡ f.first_block → e.last_block ≡ f.last_block → e ≡ f
epoch-ext e f p q = λ i. record { first_block = p i; last_block = q i }

-- Two epochs of one subnet with a common block are one.
pub IsEpoch-unique :
    (n t : ℕ) (b : ℤ) (e f : Epoch)
    → IsEpoch n t e
    → IsEpoch n t f
    → Within b e
    → Within b f
    → e ≡ f
IsEpoch-unique n t b e f ie jf we wf =
    let le = first_le n t b e f ie jf we wf in
    let ge = first_le n t b f e jf ie wf we in
    let same : e.first_block ≡ f.first_block = eq_of_parts _ _ (omega arith) in
    epoch-ext e f same (ie.span ∙ ap (λ x. x +ℤ pos t) same ∙ sym jf.span)

pub aligned_before :
    (a : ℤ) (n t : ℕ)
    → mod_ℤ (a +ℤ pos n) (t + 1) ≡ 0
    → mod_ℤ (a -ℤ pos (t + 1) +ℤ pos n) (t + 1) ≡ 0
aligned_before a n t h =
    let c = a -ℤ pos (t + 1) +ℤ pos n in
    let e : a +ℤ pos n ≡ c +ℤ pos (t + 1) = omega int_laws in
    sym (mod_ℤ-add c (t + 1) (omega arith)) ∙ (rw (← e) h)
