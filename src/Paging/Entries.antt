-- ===== src/Paging/Entries.antt =====
-- The entries of pages in the tables that a directory names.
use native.Mathlib.Decide.{ℕ_discrete}
use sandor_os.Prelude.{ℕ, ◌/◌, ◌%◌, ◌^◌, ◌≡◌, ◌≢◌, refl, sym, arith, ne→==, eq→==}
use sandor_os.PhysMemory.{Frames, set}

-- Stores to a word and to others.
pub set-same : (m : Frames) (f i v : ℕ) → set m f i v f i ≡ v
set-same m f i v = rw (eq→== f f refl, eq→== i i refl) refl

pub set-frame : (m : Frames) (f i v g j : ℕ) → g ≢ f → set m f i v g j ≡ m g j
set-frame m f i v g j ne = rw (ne→== g f ne) refl

pub set-word : (m : Frames) (f i v g j : ℕ) → j ≢ i → set m f i v g j ≡ m g j
set-word m f i v g j ne = elim (ℕ_discrete g f) [
  | yes e ↦ rw (eq→== g f e, ne→== j i ne) refl
  | no ne' ↦ set-frame m f i v g j ne'
]

module _ (d : ℕ) where
  -- The directory in frame `d` has the table with index `i`, and its frame.
  abbrev pub HasTable : Frames → ℕ → Type 0
  HasTable m i = m d i % 2 ≡ 1

  abbrev pub table_frame : Frames → ℕ → ℕ
  table_frame m i = m d i / 2 ^ 12

  -- The entry of page `q`.
  abbrev pub entry_of : Frames → ℕ → ℕ
  entry_of m q = m (table_frame m (q / 2 ^ 10)) (q % 2 ^ 10)

  -- The tables of the directory are apart from it and from each other.
  pub record Tables (m : Frames) : Type 0 where
    pub off : (i : ℕ) → HasTable m i → table_frame m i ≢ d
    pub apart : (i j : ℕ) → HasTable m i → HasTable m j → table_frame m i ≡ table_frame m j → i ≡ j

  module _ (m : Frames) (t : Tables m) (p w : ℕ) (has : HasTable m (p / 2 ^ 10)) where
    abbrev pub with_entry : Frames
    with_entry = set m (table_frame m (p / 2 ^ 10)) (p % 2 ^ 10) w

    pub directory_kept : (i : ℕ) → with_entry d i ≡ m d i
    directory_kept i =
        set-frame m (table_frame m (p / 2 ^ 10)) (p % 2 ^ 10) w d i
          (λ e. t.off (p / 2 ^ 10) has (sym e))

    pub with_entry-Tables : Tables with_entry
    with_entry-Tables = record {
      off = λ i h. rw (directory_kept i) (t.off i (rw⁻¹ (directory_kept i) h));
      apart = λ i j h h' e.
          t.apart i j (rw⁻¹ (directory_kept i) h) (rw⁻¹ (directory_kept j) h')
            (rw⁻¹ (directory_kept i, directory_kept j) e);
    }

    pub entry-written : entry_of with_entry p ≡ w
    entry-written =
        rw (directory_kept (p / 2 ^ 10)) (set-same m (table_frame m (p / 2 ^ 10)) (p % 2 ^ 10) w)

    pub entry-kept :
        (q : ℕ) → HasTable m (q / 2 ^ 10) → q ≢ p → entry_of with_entry q ≡ entry_of m q
    entry-kept q h ne =
        rw (directory_kept (q / 2 ^ 10)) (elim (ℕ_discrete (q % 2 ^ 10) (p % 2 ^ 10)) [
          | no other ↦
              set-word m (table_frame m (p / 2 ^ 10)) (p % 2 ^ 10) w (table_frame m (q / 2 ^ 10))
                (q % 2 ^ 10) other
          | yes same ↦
              set-frame m (table_frame m (p / 2 ^ 10)) (p % 2 ^ 10) w (table_frame m (q / 2 ^ 10))
                (q % 2 ^ 10)
                (λ e. ne (omega (arith, t.apart (q / 2 ^ 10) (p / 2 ^ 10) h has e, same)))
        ])
