-- ===== src/ItemList/Removal.antt =====
-- What the removal of the last item leaves.
use mathlib.Core.Path.{subst}
use sandor_os.Prelude.{
  ℕ, zero, suc, ◌+◌, ◌^◌, ◌<◌, ◌≡◌, refl, sym, ap, ◌∙◌, true, some, List, [], ◌∷◌, arith, sub32,
  lt→ltb, le→ltb, eq→==, ne→==, ◌≢◌, get_or,
}
use sandor_os.VirtPages.{Manager}
use sandor_os.KernelHeap.Kmalloc.{kfree}
use sandor_os.ItemList.{ItemList, set_next, find_item, unlink, remove}
use sandor_os.ItemList.Append.{Chain, IsList, last, length_of}

module _ (s : ItemList) where
  find_item-get_or :
      (fuel j i prev cur : ℕ) (ys : List ℕ)
      → Chain s.items cur ys
      → j < length_of ys
      → j < fuel
      → (before : ℕ) × (find_item fuel i prev cur (i + j) s ≡ some (i + j, before, get_or ys j 0))
  unfolding find_item
  find_item-get_or zero j i prev cur ys c lt small = absurd (omega arith)
  find_item-get_or (suc fuel) j i prev cur [] c lt small = absurd (omega arith)
  find_item-get_or (suc fuel) zero i prev cur (a ∷ ys) (e, ne, c) lt small =
      let same : i + 0 ≡ i = omega arith in (prev, rw (same, le→ltb i i (omega arith), e) refl)
  find_item-get_or (suc fuel) (suc j) i prev cur (a ∷ []) (e, ne, c) lt small = absurd (omega arith)
  find_item-get_or (suc fuel) (suc j) i prev cur (a ∷ b ∷ ys) (e, ne, c) lt small =
      let at : (s.items cur).next ≡ (s.items a).next = ap (λ p. (s.items p).next) e in
      let (before, found) =
        find_item-get_or fuel j (i + 1) cur (s.items a).next (b ∷ ys) c (omega arith)
          (omega arith) in
      let more : (s.items a).next ≢ 0 = λ z. c.1 (sym (c.0) ∙ z) in
      let same : i + suc j ≡ i + 1 + j = omega arith in
      (
        before,
        rw (same, lt→ltb i (i + 1 + j) (omega arith), at, ne→== (s.items a).next 0 more) found,
      )

get_or_last : (a : ℕ) (ys : List ℕ) → get_or (a ∷ ys) (length_of ys) 0 ≡ last (a ∷ ys)
get_or_last a [] = refl
get_or_last a (b ∷ ys) = get_or_last b ys

-- On a well-formed list of two or more items, fewer than 2^31, `remove` of the last index ends,
-- returns true, frees the last item and lowers the length, but leaves tail at the address of the
-- freed item.
pub remove-last :
    (a b prev : ℕ) (ys : List ℕ) (s : ItemList) (mm : Manager)
    → IsList (a ∷ b ∷ ys) s
    → s.length < 2 ^ 31
    → (s' : ItemList) × (remove (length_of (b ∷ ys)) prev (s, mm)
        ≡ some (s', (kfree (last (b ∷ ys)) mm).0, true))
      × (s'.length + 1 ≡ s.length)
      × (s'.tail ≡ last (b ∷ ys))
unfolding remove unlink
remove-last a b prev ys s mm h small =
    let n = length_of (b ∷ ys) in
    let (before, found) =
      find_item-get_or s (2 ^ 32) n 0 prev s.head (a ∷ b ∷ ys) h.chain (omega arith)
        (omega (arith, h.count)) in
    let start : 0 + n ≡ n = omega arith in
    let found' : find_item (2 ^ 32) 0 prev s.head n s ≡ some (n, before, last (b ∷ ys)) =
      subst (λ k. find_item (2 ^ 32) 0 prev s.head k s ≡ some (k, before, get_or (a ∷ b ∷ ys) n 0))
        start found
      ∙ ap (λ x. some (n, before, x)) (get_or_last a (b ∷ ys)) in
    let s' : ItemList = record s {
      items = set_next before (s.items (last (b ∷ ys))).next s.items;
      length = sub32 s.length 1;
    } in
    (
      s',
      rw
          (
            found',
            ne→== n 0 (λ z. absurd (omega (arith, z))),
            ne→== n s.length (λ z. absurd (omega (arith, z, h.count))),
            eq→== n n refl,
          )
          refl,
      omega (arith, h.count),
      h.end,
    )
