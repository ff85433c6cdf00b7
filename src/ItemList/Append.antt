-- ===== src/ItemList/Append.antt =====
-- Items that are appended stand at the end of the list, and what the removal of the last one leaves.
use mathlib.Core.Path.{subst}
use sandor_os.Prelude.{
  ℕ, suc, ◌+◌, ◌≡◌, refl, sym, ◌⊎◌, inl, inr, false, List, [], ◌∷◌, ◌++◌, arith, ◌==◌, eq→==, ne→==,
  ◌≢◌,
}
use sandor_os.ItemList.{Item, ItemList, set_next, append}

-- From the address `p` on, the items at the addresses follow each other, and the last one ends.
abbrev pub Chain : (items : ℕ → Item) (p : ℕ) (xs : List ℕ) → Type 0
Chain items p [] = p ≡ 0
Chain items p (a ∷ xs) = (p ≡ a) × (a ≢ 0) × Chain items (items a).next xs

-- An address stands in a list.
abbrev pub Among : ℕ → List ℕ → Type 0
Among a [] = ⊥
Among a (b ∷ xs) = (a ≡ b) ⊎ Among a xs

abbrev pub Distinct : List ℕ → Type 0
Distinct [] = Unit
Distinct (a ∷ xs) = (¬ Among a xs) × Distinct xs

abbrev pub last : List ℕ → ℕ
last [] = 0
last (a ∷ []) = a
last (a ∷ b ∷ xs) = last (b ∷ xs)

abbrev pub length_of : List ℕ → ℕ
length_of [] = 0
length_of (a ∷ xs) = suc (length_of xs)

-- The list has the items at the addresses, in order.
pub record IsList (xs : List ℕ) (s : ItemList) : Type 0 where
  pub count : s.length ≡ length_of xs
  pub chain : Chain s.items s.head xs
  pub end : s.tail ≡ last xs
  pub distinct : Distinct xs

last-Among : (a : ℕ) (xs : List ℕ) → Among (last (a ∷ xs)) (a ∷ xs)
last-Among a [] = inl refl
last-Among a (b ∷ xs) = inr (last-Among b xs)

last-append : (a item : ℕ) (xs : List ℕ) → last ((a ∷ xs) ++ (item ∷ [])) ≡ item
last-append a item [] = refl
last-append a item (b ∷ xs) = last-append b item xs

length_of-append : (item : ℕ) (xs : List ℕ) → length_of (xs ++ (item ∷ [])) ≡ length_of xs + 1
length_of-append item [] = omega arith
length_of-append item (a ∷ xs) = omega (arith, length_of-append item xs)

Among-append : (b item : ℕ) (xs : List ℕ) → b ≢ item → ¬ Among b xs → ¬ Among b (xs ++ (item ∷ []))
Among-append b item [] ne out (inl z) = ne z
Among-append b item [] ne out (inr m) = m
Among-append b item (a ∷ xs) ne out (inl z) = out (inl z)
Among-append b item (a ∷ xs) ne out (inr m) = Among-append b item xs ne (λ m. out (inr m)) m

Distinct-append :
    (item : ℕ) (xs : List ℕ) → ¬ Among item xs → Distinct xs → Distinct (xs ++ (item ∷ []))
Distinct-append item [] fresh d = ((λ m. m), tt)
Distinct-append item (a ∷ xs) fresh (out, d) = (
  Among-append a item xs (λ z. fresh (inl (sym z))) out,
  Distinct-append item xs (λ m. fresh (inr m)) d,
)

Chain-append :
    (items : ℕ → Item) (p item : ℕ) (a : ℕ) (xs : List ℕ)
    → Chain items p (a ∷ xs)
    → Distinct (a ∷ xs)
    → item ≢ 0
    → ¬ Among item (a ∷ xs)
    → (items item).next ≡ 0
    → Chain (set_next (last (a ∷ xs)) item items) p ((a ∷ xs) ++ (item ∷ []))
Chain-append items p item a [] (e, ne, c) d pos fresh ends =
    (e, ne, rw (eq→== a a refl) (refl, pos, rw (ne→== item a (λ z. fresh (inl z))) ends))
Chain-append items p item a (b ∷ xs) (e, ne, c) d pos fresh ends =
    let q = last (b ∷ xs) in
    let off : (a == q) ≡ false =
      ne→== a q (λ z. d.0 (subst (λ r. Among r (b ∷ xs)) (sym z) (last-Among b xs))) in
    let kept : (set_next q item items a).next ≡ (items a).next = rw off refl in
    (
      e,
      ne,
      subst (λ r. Chain (set_next q item items) r ((b ∷ xs) ++ (item ∷ []))) (sym kept)
          (Chain-append items (items a).next item b xs c (d.1) pos (λ m. fresh (inr m)) ends),
    )

-- On a well-formed list - the items follow each other from head to NULL at distinct addresses,
-- length counts them and tail is the last - `append` of an item that is not NULL, not among them
-- and ends in NULL makes the well-formed list with the item behind the others.
pub append-IsList :
    (xs : List ℕ) (s : ItemList) (item : ℕ)
    → IsList xs s
    → item ≢ 0
    → ¬ Among item xs
    → (s.items item).next ≡ 0
    → IsList (xs ++ (item ∷ [])) (append item s)
unfolding append
append-IsList [] s item h pos fresh ends = rw (eq→== s.length 0 h.count) (record {
  count = omega (arith, h.count);
  chain = (refl, pos, ends);
  end = refl;
  distinct = ((λ m. m), tt);
})
append-IsList (a ∷ xs) s item h pos fresh ends =
    rw (ne→== s.length 0 (λ z. absurd (omega (arith, z, h.count)))) (record {
      count = omega (arith, h.count, length_of-append item xs);
      chain =
          subst (λ q. Chain (set_next q item s.items) s.head ((a ∷ xs) ++ (item ∷ []))) (sym h.end)
            (Chain-append s.items s.head item a xs h.chain h.distinct pos fresh ends);
      end = sym (last-append a item xs);
      distinct = Distinct-append item (a ∷ xs) fresh h.distinct;
    })
