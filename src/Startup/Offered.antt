-- ===== src/Startup/Offered.antt =====
-- The frames that the loop of `init_memory_manager` over the memory map frees, by the entries of the
-- map.
use native.Mathlib.Decide.{ℕ_discrete}
use sandor_os.Startup.Region.{pages_of}
use sandor_os.Startup.Regions.{
  Ascending, offered, offered_pages, offered_bytes, init_regions-offered,
}
use sandor_os.Startup.{Linker, MmapEntry, usable, behind_kernel, Sized, init_regions}
use sandor_os.PhysMemory.{Phys}
use sandor_os.PhysMemory.State.{IsRing}
use sandor_os.PhysMemory.FirstFit.{in_range}
use sandor_os.PhysMemory.Blocks.{Block, free, total}
use sandor_os.Prelude.{
  ℕ, ◌+◌, ◌-◌, ◌/◌, ◌^◌, ◌<◌, ◌≤◌, ◌≡◌, ◌≢◌, refl, sym, ◌∙◌, ◌↔◌, true, false, ◌&&◌, ◌||◌, some,
  List, [], ◌∷◌, arith, ◌==◌, leb, if◌then◌else◌, u32, Bool-cases, inl, inr, eq→==, ne→==, le→leb,
  lt→ltb,
}

module _ (l : Linker) where
  -- Frame `p` is offered by a region of type 1 above the first megabyte, before an entry of type 0:
  -- by one elsewhere than the kernel if it is one of the region's pages, and by the one at the kernel
  -- if it is one of as many pages behind the kernel.
  pub data Offered (p : ℕ) : List MmapEntry → Type 0 where
    elsewhere :
        {e : MmapEntry} {es : List MmapEntry}
        → e.type ≡ 1
        → 2 ^ 20 ≤ e.addr
        → e.addr ≢ l.kernel_base_lma
        → e.addr / 2 ^ 12 ≤ p
        → p < e.addr / 2 ^ 12 + e.len / 2 ^ 12
        → Offered p (e ∷ es)
    at_kernel :
        {e : MmapEntry} {es : List MmapEntry}
        → e.type ≡ 1
        → 2 ^ 20 ≤ e.addr
        → e.addr ≡ l.kernel_base_lma
        → (e.addr + (l.kernel_end - l.kernel_base_vma)) / 2 ^ 12 ≤ p
        → p < (e.addr + (l.kernel_end - l.kernel_base_vma)) / 2 ^ 12 + e.len / 2 ^ 12
        → Offered p (e ∷ es)
    later : {e : MmapEntry} {es : List MmapEntry} → e.type ≢ 0 → Offered p es → Offered p (e ∷ es)

-- The bytes of these regions, and their pages.
unfoldable pub region_bytes : List MmapEntry → ℕ
region_bytes [] = 0
region_bytes (e ∷ es) =
    let rest = region_bytes es in
    if e.type == 0 then 0 else if e.type == 1 && leb (2 ^ 20) e.addr then e.len + rest else rest

unfoldable pub region_pages : List MmapEntry → ℕ
region_pages [] = 0
region_pages (e ∷ es) =
    let rest = region_pages es in
    if e.type == 0
    then 0
    else if e.type == 1 && leb (2 ^ 20) e.addr
    then e.len / 2 ^ 12 + rest
    else rest

region_bytes-offered : (es : List MmapEntry) → offered_bytes es ≡ region_bytes es
unfolding offered_bytes region_bytes usable
region_bytes-offered [] = refl
region_bytes-offered (e ∷ es) = rw (region_bytes-offered es) refl

region_pages-offered : (es : List MmapEntry) → offered_pages es ≡ region_pages es
unfolding offered_pages region_pages usable
region_pages-offered [] = refl
region_pages-offered (e ∷ es) = rw (region_pages-offered es) refl

-- The kernel does not end before its start, and ends below 2^64 where it is loaded.
pub record Placed (l : Linker) : Type 0 where
  pub starts : l.kernel_base_vma ≤ l.kernel_end
  pub word : l.kernel_end < 2 ^ 32
  pub loaded : l.kernel_base_lma + (l.kernel_end - l.kernel_base_vma) < 2 ^ 64

usable-true : (e : MmapEntry) → usable e ≡ true → (e.type ≡ 1) × (2 ^ 20 ≤ e.addr)
unfolding usable
usable-true e h = ground (arith, h)

in_range-true : (f count p : ℕ) → in_range f count p ≡ true → (f ≤ p) × (p < f + count)
in_range-true f count p h = ground (arith, h)

module _ (l : Linker) (k : Placed l) where
  moved :
      (e : MmapEntry)
      → e.addr ≡ l.kernel_base_lma
      → (behind_kernel l e).addr ≡ e.addr + (l.kernel_end - l.kernel_base_vma)
  unfolding behind_kernel
  moved e at = rw (eq→== e.addr l.kernel_base_lma at) (omega (arith, k.starts, k.word, k.loaded))

  kept : (e : MmapEntry) → e.addr ≢ l.kernel_base_lma → (behind_kernel l e).addr ≡ e.addr
  unfolding behind_kernel
  kept e ne = rw (ne→== e.addr l.kernel_base_lma ne) refl

  region-Offered :
      (p : ℕ) (e : MmapEntry) (es : List MmapEntry)
      → usable e ≡ true
      → in_range (pages_of (behind_kernel l e)).frame (pages_of (behind_kernel l e)).pages p ≡ true
      → Offered l p (e ∷ es)
  unfolding behind_kernel
  region-Offered p e es good h =
      let (one, high) = usable-true e good in
      let (from, upto) = in_range-true _ _ p h in
      elim (ℕ_discrete e.addr l.kernel_base_lma) [
        | yes at ↦
            at_kernel one high at (omega (arith, moved e at, from))
              (omega (arith, moved e at, upto))
        | no ne ↦
            elsewhere one high ne (omega (arith, kept e ne, from)) (omega (arith, kept e ne, upto))
      ]

  offered-Offered : (p : ℕ) (es : List MmapEntry) → offered l p es ≡ true → Offered l p es
  unfolding offered
  offered-Offered p [] h = absurd cc
  offered-Offered p (e ∷ es) h = elim (ℕ_discrete e.type 0) [
    | yes z ↦ let stop : false ≡ true = rw (eq→== e.type 0 z) at h in absurd cc
    | no nz ↦ elim (Bool-cases (usable e)) [
      | inr off ↦ later nz (offered-Offered p es (rw (ne→== e.type 0 nz, off) at h))
      | inl good ↦
          let b : Block = pages_of (behind_kernel l e) in
          let h' : (in_range b.frame b.pages p || offered l p es) ≡ true =
            rw (ne→== e.type 0 nz, good) at h in
          elim (Bool-cases (in_range b.frame b.pages p)) [
            | inl here ↦ region-Offered p e es good here
            | inr out ↦ later nz (offered-Offered p es (rw out at h'))
          ]
    ]
  ]

  here-offered :
      (p : ℕ) (e : MmapEntry) (es : List MmapEntry)
      → e.type ≡ 1
      → 2 ^ 20 ≤ e.addr
      → (behind_kernel l e).addr / 2 ^ 12 ≤ p
      → p < (behind_kernel l e).addr / 2 ^ 12 + e.len / 2 ^ 12
      → offered l p (e ∷ es) ≡ true
  unfolding offered usable behind_kernel
  here-offered p e es one high from upto =
      rw
        (
          ne→== e.type 0 (omega (arith, one)),
          eq→== e.type 1 one,
          le→leb _ _ high,
          le→leb _ _ from,
          lt→ltb _ _ upto,
        )
        refl

  Offered-offered : (p : ℕ) (es : List MmapEntry) → Offered l p es → offered l p es ≡ true
  unfolding offered
  Offered-offered p [] o = elim o [ ]
  Offered-offered p (e ∷ es) (elsewhere one high ne from upto) =
      here-offered p e es one high (rw (kept e ne) from) (rw (kept e ne) upto)
  Offered-offered p (e ∷ es) (at_kernel one high at from upto) =
      here-offered p e es one high (rw (moved e at) from) (rw (moved e at) upto)
  Offered-offered p (e ∷ es) (later nz o) =
      rw (ne→== e.type 0 nz, Offered-offered p es o) (ground arith)

  -- Where the memory map has an end, and its regions of type 1 above the first megabyte, the one at
  -- the kernel moved behind it, start at whole pages, have at least one, end below the last frame and
  -- are in ascending order: the loop of `init_memory_manager` ends, and the free blocks form a ring
  -- that is well formed. A frame is free just when a region elsewhere than the kernel has it, or it is
  -- one of the frames behind the kernel, as many as the region at the kernel has pages with the
  -- kernel's own. As many pages are free, `memory_size` is a megabyte and the bytes of the regions,
  -- and frames that are not free keep their words.
  pub init_regions-Offered :
      (es : List MmapEntry) (p : Phys)
      → Ascending l 0 es
      → (es' : List MmapEntry) × (s' : Sized) × (ys : List Block) × (init_regions l es p
          ≡ some (es', s'))
        × IsRing s'.phys ys
        × ((f : ℕ) → (free f ys ≡ true) ↔ Offered l f es)
        × (total ys ≡ region_pages es)
        × (s'.memory_size ≡ u32 (2 ^ 20 + region_bytes es))
        × ((g i : ℕ) → free g ys ≡ false → s'.phys.memory g i ≡ p.memory g i)
  init_regions-Offered es p asc =
      let (es', s', ys, e, ring, frames, size, count, words) = init_regions-offered l es p asc in
      (
        es',
        s',
        ys,
        e,
        ring,
        (λ f. (
          (λ h. offered-Offered f es (sym (frames f) ∙ h)),
          (λ o. frames f ∙ Offered-offered f es o),
        )),
        count ∙ region_pages-offered es,
        rw⁻¹ (region_bytes-offered es) size,
        (λ g i none. words g i (sym (frames g) ∙ none)),
      )
