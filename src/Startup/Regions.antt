-- ===== src/Startup/Regions.antt =====
-- What the loop over the memory map leaves free.
use sandor_os.Startup.Region.{
  pages_of, UpTo, Freed, freed-UpTo, freed-free, free_region-Freed, in_range-ne,
}
use mathlib.Core.Bool.{or_assoc}
use sandor_os.PhysMemory.State.{IsRing}
use sandor_os.PhysMemory.Free.{freed}
use sandor_os.PhysMemory.FirstFit.{in_range}
use sandor_os.Startup.{
  Linker, MmapEntry, usable, behind_kernel, Sized, free_regions, init_regions, init_phys,
}
use sandor_os.PhysMemory.{frame_count, Phys}
use sandor_os.PhysMemory.Blocks.{Block, end, free, total}
use sandor_os.Prelude.{
  ℕ, ◌+◌, ◌/◌, ◌%◌, ◌^◌, ◌<◌, ◌≤◌, ◌≡◌, refl, ap, ◌∙◌, Bool, true, false, ◌||◌, some, List, [], ◌∷◌,
  arith, ◌==◌, if◌then◌else◌, u32, eq→==, ne→==, ◌≢◌, or_left, or_later,
}
use mathlib.Core.Option

module _ (l : Linker) where
  -- A memory map that has an end and whose usable regions, the kernel's behind the kernel, start at
  -- whole pages, have at least one, end below the last frame and are in ascending order from frame
  -- `limit` on.
  pub data Ascending : ℕ → List MmapEntry → Type 0 where
    ends : {limit : ℕ} {e : MmapEntry} {es : List MmapEntry} → e.type ≡ 0 → Ascending limit (e ∷ es)
    unused :
        {limit : ℕ} {e : MmapEntry} {es : List MmapEntry}
        → e.type ≢ 0
        → usable e ≡ false
        → Ascending limit es
        → Ascending limit (e ∷ es)
    used :
        {limit : ℕ} {e : MmapEntry} {es : List MmapEntry}
        → e.type ≢ 0
        → usable e ≡ true
        → limit ≤ (pages_of (behind_kernel l e)).frame
        → (behind_kernel l e).addr % 2 ^ 12 ≡ 0
        → 0 < e.len / 2 ^ 12
        → end (pages_of (behind_kernel l e)) < frame_count
        → Ascending (end (pages_of (behind_kernel l e))) es
        → Ascending limit (e ∷ es)

  -- Frame `p` is in a usable region before the end of the map.
  unfoldable pub offered : ℕ → List MmapEntry → Bool
  offered p [] = false
  offered p (e ∷ es) =
      let rest = offered p es in
      if e.type == 0
      then false
      else if usable e
      then in_range (pages_of (behind_kernel l e)).frame (pages_of (behind_kernel l e)).pages p
        || rest
      else rest

-- The pages of the usable regions, and their bytes.
unfoldable pub offered_pages : List MmapEntry → ℕ
offered_pages [] = 0
offered_pages (e ∷ es) =
    let rest = offered_pages es in
    if e.type == 0 then 0 else if usable e then e.len / 2 ^ 12 + rest else rest

unfoldable pub offered_bytes : List MmapEntry → ℕ
offered_bytes [] = 0
offered_bytes (e ∷ es) =
    let rest = offered_bytes es in
    if e.type == 0 then 0 else if usable e then e.len + rest else rest

module _ (l : Linker) where
  -- What the loop over the map leaves.
  record Offers (es : List MmapEntry) (xs : List Block) (s s' : Sized) (ys : List Block)
      : Type 0 where
    ring : IsRing s'.phys ys
    pages : (p : ℕ) → free p ys ≡ (free p xs || offered l p es)
    memory : s'.memory_size ≡ u32 (s.memory_size + offered_bytes es)
    counted : total ys ≡ total xs + offered_pages es
    words :
        (g i : ℕ)
        → free g xs ≡ false
        → offered l g es ≡ false
        → s'.phys.memory g i ≡ s.phys.memory g i

  -- A region that is freed, and the rest of the map.
  Freed-Offers :
      (e : MmapEntry) (es : List MmapEntry) (limit : ℕ) (xs : List Block) (s s1 s' : Sized)
      (ys : List Block)
      → e.type ≢ 0
      → usable e ≡ true
      → 0 < e.len / 2 ^ 12
      → UpTo limit xs
      → limit ≤ (pages_of (behind_kernel l e)).frame
      → Freed (behind_kernel l e) xs s s1
      → Offers es (freed (pages_of (behind_kernel l e)) xs) s1 s' ys
      → Offers (e ∷ es) xs s s' ys
  unfolding offered offered_bytes offered_pages behind_kernel
  Freed-Offers e es limit xs s s1 s' ys going good pos d h f o =
      let first = freed-free (pages_of (behind_kernel l e)) limit in
      let on = ne→== e.type 0 going in
      record {
        ring = o.ring;
        pages = λ p.
            rw (on, good)
              (o.pages p
                ∙ (ap (λ b. b || offered l p es) (first p xs h d)
                    ∙ or_assoc (free p xs)
                        (in_range (pages_of (behind_kernel l e)).frame
                          (pages_of (behind_kernel l e)).pages p)
                        (offered l p es)));
        memory = rw (on, good) (omega (arith, o.memory, f.memory));
        counted = rw (on, good) (omega (arith, o.counted, f.counted));
        words = λ g i off none.
            let b = pages_of (behind_kernel l e) in
            let none' : (in_range b.frame b.pages g || offered l g es) ≡ false =
              rw (on, good) at none in
            let out = or_left (in_range b.frame b.pages g) (offered l g es) none' in
            let later = or_later (in_range b.frame b.pages g) (offered l g es) none' in
            let off' : free g (freed b xs) ≡ false =
              first g xs h d ∙ (ap (λ a. a || in_range b.frame b.pages g) off ∙ out) in
            o.words g i off' later ∙ f.words g i off (in_range-ne b.frame b.pages g pos out);
      }

  free_regions-Offers :
      (limit : ℕ) (es : List MmapEntry) (s : Sized) (xs : List Block)
      → Ascending l limit es
      → IsRing s.phys xs
      → UpTo limit xs
      → s.memory_size < 2 ^ 32
      → (es' : List MmapEntry) × (s' : Sized) × (ys : List Block) × (free_regions l es s
          ≡ some (es', s'))
        × Offers es xs s s' ys
  unfolding free_regions offered offered_bytes offered_pages behind_kernel Option.bind
  free_regions-Offers limit [] s xs asc ring d word = elim asc [ ]
  free_regions-Offers limit (e ∷ es) s xs (ends stop) ring d word =
      let here = eq→== e.type 0 stop in
      (
        e ∷ es,
        s,
        xs,
        rw here refl,
        record {
          ring = ring;
          pages = λ p. rw here (ground arith);
          memory = rw here (omega arith);
          counted = rw here (omega arith);
          words = λ g i off none. refl;
        },
      )
  free_regions-Offers limit (e ∷ es) s xs (unused going off asc) ring d word =
      let (es', s', ys, eq, o) = free_regions-Offers limit es s xs asc ring d word in
      let on = ne→== e.type 0 going in
      (
        e ∷ es',
        s',
        ys,
        rw (on, off, eq) refl,
        record {
          ring = o.ring;
          pages = λ p. rw (on, off) (o.pages p);
          memory = rw (on, off) o.memory;
          counted = rw (on, off) o.counted;
          words = λ g i clear none. o.words g i clear (rw (on, off) at none);
        },
      )
  free_regions-Offers limit (e ∷ es) s xs (used going good h aligned pos fits asc) ring d word =
      let moved = behind_kernel l e in
      let (s1, eq1, f) = free_region-Freed moved limit s xs ring d h aligned pos fits in
      let (es', s', ys, eq, o) =
        free_regions-Offers (end (pages_of moved)) es s1 (freed (pages_of moved) xs) asc f.ring
          (freed-UpTo (pages_of moved) limit xs pos h d) (omega (arith, f.memory)) in
      let on = ne→== e.type 0 going in
      (
        moved ∷ es',
        s',
        ys,
        rw (on, good, eq1, eq) refl,
        Freed-Offers e es limit xs s s1 s' ys going good pos d h f o,
      )

  -- The loop from its start, by the usable regions of the map.
  pub init_regions-offered :
      (es : List MmapEntry) (p : Phys)
      → Ascending l 0 es
      → (es' : List MmapEntry) × (s' : Sized) × (ys : List Block) × (init_regions l es p
          ≡ some (es', s'))
        × IsRing s'.phys ys
        × ((f : ℕ) → free f ys ≡ offered l f es)
        × (s'.memory_size ≡ u32 (2 ^ 20 + offered_bytes es))
        × (total ys ≡ offered_pages es)
        × ((g i : ℕ) → offered l g es ≡ false → s'.phys.memory g i ≡ p.memory g i)
  unfolding init_regions init_phys
  init_regions-offered es p asc =
      let ring : IsRing (init_phys p) [] = record {
        cycle = tt;
        pointer = refl;
        order = tt;
        counted = refl;
      } in
      let (es', s', ys, eq, o) =
        free_regions-Offers 0 es (record { phys = init_phys p; memory_size = 2 ^ 20 }) [] asc ring
          tt (omega arith) in
      let sum : 0 + offered_pages es ≡ offered_pages es = omega arith in
      (
        es',
        s',
        ys,
        eq,
        o.ring,
        o.pages,
        o.memory,
        o.counted ∙ sum,
        λ g i none. o.words g i refl none,
      )
