-- ===== src/Table/Ordered.antt =====
-- Disjoint blocks in ascending order within given bounds, and what the moves do to them.
use native.Mathlib.Decide.{dec_lt, ℕ_discrete}
use sandor_os.Prelude.{ℕ, zero, suc, ◌+◌, ◌-◌, ◌*◌, ◌≤◌, ◌<◌, ◌≡◌, arith}
use native.Mathlib.Nat.{le_refl}
use sandor_os.Table.{Entry, entry, Entries, place, remove}

module _ (k n : ℕ) (b : Entry) (e : Entries) where
  pub place-lt : (j : ℕ) → j < k → place k n b e j ≡ e j
  unfolding place
  place-lt j h = ground arith

  pub place_self : place k n b e k ≡ b
  unfolding place
  place_self = ground arith

  pub place-suc : (j : ℕ) → k ≤ j → j < k + n → place k n b e (suc j) ≡ e j
  unfolding place
  place-suc j h lt = ground arith

module _ (k n : ℕ) (e : Entries) where
  pub remove-lt : (j : ℕ) → j < k → remove k n e j ≡ e j
  unfolding remove
  remove-lt j h = ground arith

  pub remove-ge : (j : ℕ) → k ≤ j → j < k + n → remove k n e j ≡ e (suc j)
  unfolding remove
  remove-ge j h lt = ground arith

-- The address behind an entry, whose size counts units of `u` bytes.
abbrev pub end_of : ℕ → Entry → ℕ
end_of u b = b.base + b.size * u

module _ (u lo hi : ℕ) where
  -- The first `count` entries are in order and disjoint, and lie from `lo` up to `hi`.
  pub record Ordered (count : ℕ) (e : Entries) : Type 0 where
    pub first : 0 < count → lo ≤ (e 0).base
    pub steps : (i : ℕ) → suc i < count → end_of u (e i) ≤ (e (suc i)).base
    pub last : (i : ℕ) → suc i ≡ count → end_of u (e i) ≤ hi

  module _ (count : ℕ) (e : Entries) (o : Ordered count e) where
    pub ends_mono : (k i j : ℕ) → i + k ≡ j → j < count → end_of u (e i) ≤ end_of u (e j)
    ends_mono zero i j at h = let same : i ≡ j = omega arith in rw same (le_refl (end_of u (e j)))
    ends_mono (suc k) i zero at h = absurd (omega arith)
    ends_mono (suc k) i (suc j) at h =
        omega (arith, ends_mono k i j (omega arith) (omega arith), o.steps j h)

    pub end-le : (i : ℕ) → i < count → end_of u (e i) ≤ hi
    end-le i h = omega (
      arith,
      ends_mono (count - 1 - i) i (count - 1) (omega arith) (omega arith),
      o.last (count - 1) (omega arith),
    )

    pub base-le : (i : ℕ) → i < count → (e i).base ≤ hi
    base-le i h = omega (arith, end-le i h)

    pub bases-lt :
        (i j : ℕ) → i < j → j < count → (e i).base < end_of u (e i) → (e i).base < (e j).base
    bases-lt i zero lt h some = absurd (omega arith)
    bases-lt i (suc j) lt h some =
        omega (arith, ends_mono (j - i) i j (omega arith) (omega arith), o.steps j h)

    -- A new entry between its neighbours.
    pub place-Ordered :
        (k n : ℕ) (b : Entry)
        → k ≤ count
        → count ≤ k + n
        → (k ≡ 0 → lo ≤ b.base)
        → ((i : ℕ) → suc i ≡ k → end_of u (e i) ≤ b.base)
        → (k < count → end_of u b ≤ (e k).base)
        → (k ≡ count → end_of u b ≤ hi)
        → Ordered (suc count) (place k n b e)
    place-Ordered k n b le room below after above last = record {
      first = λ h. elim (dec_lt 0 k) [
        | yes lt ↦ rw (place-lt k n b e 0 lt) (o.first (omega arith))
        | no ge ↦ let z : k ≡ 0 = omega arith in rw z (rw (place_self 0 n b e) (below z))
      ];
      steps = λ i h. elim (dec_lt (suc i) k) [
        | yes lt ↦
            rw (place-lt k n b e i (omega arith), place-lt k n b e (suc i) lt)
              (o.steps i (omega arith))
        | no ge ↦ elim (ℕ_discrete (suc i) k) [
          | yes at ↦ rw (place-lt k n b e i (omega arith), at, place_self k n b e) (after i at)
          | no ne ↦ elim (ℕ_discrete i k) [
            | yes at ↦
                rw (at, place_self k n b e, place-suc k n b e k (omega arith) (omega arith))
                  (above (omega arith))
            | no ne' ↦ step i (omega arith) h
          ]
        ]
      ];
      last = λ i h. elim (ℕ_discrete i k) [
        | yes at ↦ rw (at, place_self k n b e) (last (omega arith))
        | no ne ↦ end_last i (omega arith) h
      ];
    }
      where
        step :
            (i : ℕ)
            → k < i
            → suc i < suc count
            → end_of u (place k n b e i) ≤ (place k n b e (suc i)).base
        step zero lt h = absurd (omega arith)
        step (suc i) lt h =
            rw
              (
                place-suc k n b e i (omega arith) (omega arith),
                place-suc k n b e (suc i) (omega arith) (omega arith),
              )
              (o.steps i (omega arith))

        end_last : (i : ℕ) → k < i → suc i ≡ suc count → end_of u (place k n b e i) ≤ hi
        end_last zero lt h = absurd (omega arith)
        end_last (suc i) lt h =
            rw (place-suc k n b e i (omega arith) (omega arith)) (o.last i (omega arith))

    -- A new entry at the end of the one at `i`.
    pub behind-Ordered :
        (i n size : ℕ)
        → i < count
        → count ≤ i + 1 + n
        → (i + 1 < count → end_of u (e i) + size * u ≤ (e (i + 1)).base)
        → (i + 1 ≡ count → end_of u (e i) + size * u ≤ hi)
        → Ordered (suc count) (place (i + 1) n (entry (end_of u (e i)) size) e)
    behind-Ordered i n size h all above last =
        place-Ordered (i + 1) n (entry (end_of u (e i)) size) (omega arith) all
          (λ z. absurd (omega arith)) after above last
      where
        after : (j : ℕ) → suc j ≡ i + 1 → end_of u (e j) ≤ end_of u (e i)
        after j at = let same : j ≡ i = omega arith in rw same (le_refl (end_of u (e i)))

    -- Without the entry at `k`.
    pub remove-Ordered :
        (k n : ℕ) → k < count → count ≤ suc (k + n) → Ordered (count - 1) (remove k n e)
    remove-Ordered k n le room = record {
      first = λ h. elim (dec_lt 0 k) [
        | yes lt ↦ rw (remove-lt k n e 0 lt) (o.first (omega arith))
        | no ge ↦
            rw (remove-ge k n e 0 (omega arith) (omega arith))
              (omega (arith, o.first, o.steps 0, o.first (omega arith), o.steps 0 (omega arith)))
      ];
      steps = λ i h. elim (dec_lt (suc i) k) [
        | yes lt ↦
            rw (remove-lt k n e i (omega arith), remove-lt k n e (suc i) lt)
              (o.steps i (omega arith))
        | no ge ↦ rw (remove-ge k n e (suc i) (omega arith) (omega arith)) (elim (dec_lt i k) [
          | yes lt ↦
              rw (remove-lt k n e i lt)
                (omega (arith, o.steps i (omega arith), o.steps (suc i) (omega arith)))
          | no ge' ↦
              rw (remove-ge k n e i (omega arith) (omega arith)) (o.steps (suc i) (omega arith))
        ])
      ];
      last = λ i h. elim (dec_lt i k) [
        | yes lt ↦ rw (remove-lt k n e i lt) (end-le i (omega arith))
        | no ge ↦ rw (remove-ge k n e i (omega arith) (omega arith)) (o.last (suc i) (omega arith))
      ];
    }
