-- ===== src/ItemList.antt =====
-- The list of kernel/include/List.hpp: items with a value and the address of the next one.
pub mod Append
pub mod Removal
mod Tests
use sandor_os.Prelude.{
  ℕ, zero, suc, ◌+◌, ◌-◌, ◌*◌, ◌/◌, ◌%◌, ◌^◌, ◌<◌, ◌≤◌, ◌≡◌, refl, sym, ap, ◌∙◌, ◌⊎◌, inl, inr, ◌↔◌,
  Bool, true, false, ◌&&◌, ◌||◌, Option, none, some, List, [], ◌∷◌, ◌++◌, arith, ltb, leb, ◌==◌,
  if◌then◌else◌, u8, u16, u32, sub32, shl, shr, Bool-cases, lt→ltb, le→ltb, leb→le, leb→gt, ltb→lt,
  ltb→ge, le→leb, lt→leb, eq→==, ne→==, ==→eq, ==→ne,
}
use mathlib.Core.Option
use sandor_os.VirtPages.{Manager}
use sandor_os.KernelHeap.Kmalloc.{kmalloc, kfree}

pub record Item : Type 0 where
  pub value : ℕ
  pub next : ℕ

-- `items` are the items by address; NULL is 0. The field `list` is never used again.
pub record ItemList : Type 0 where
  pub length : ℕ
  pub head : ℕ
  pub tail : ℕ
  pub items : ℕ → Item

abbrev pub set_item : (address : ℕ) → Item → (ℕ → Item) → ℕ → Item
set_item address item items p = if p == address then item else items p

abbrev pub set_next : (address next : ℕ) → (ℕ → Item) → ℕ → Item
set_next address next items = set_item address (record (items address) { next = next }) items

-- The constructor, whose block for `list` has the size of a value.
unfoldable pub construct : (size : ℕ) → (ℕ → Item) → Manager → Option (ItemList × Manager)
construct size items mm =
    Option.map (λ (mm', list). (record { length = 0; head = 0; tail = 0; items = items }, mm'))
      (kmalloc size mm)

-- The loop over the items from `item` on, for at most `fuel` of them. An index that is not there
-- yields 0.
unfoldable pub get_loop : (fuel item i index : ℕ) → ItemList → Option ℕ
get_loop zero item i index s = none
get_loop (suc fuel) item i index s =
    let rest = get_loop fuel (s.items item).next (u32 (i + 1)) index s in
    if item == 0 then some 0 else if i == index then some (s.items item).value else rest

unfoldable pub get_value : (index : ℕ) → ItemList → Option ℕ
get_value index s = get_loop (2 ^ 32) s.head 0 index s

-- The length is not wrapped: it stays below 2^31.
unfoldable pub append : (item : ℕ) → ItemList → ItemList
append item s =
    if s.length == 0
    then record s { head = item; tail = item; length = s.length + 1 }
    else record s { items = set_next s.tail item s.items; tail = item; length = s.length + 1 }

-- `size` is that of an item.
unfoldable pub insert : (size value : ℕ) → ItemList × Manager → Option (ItemList × Manager × ℕ)
insert size value (s, mm) =
    Option.map
      (λ (mm', item). (
        append item
            (record s { items = set_item item (record { value = value; next = 0 }) s.items }),
        mm',
        item,
      ))
      (kmalloc size mm)

-- Not written yet in the source: it returns NULL.
unfoldable pub pop : ItemList → ℕ
pop s = 0

-- The loop of `remove`, for an index that is not negative and for at most `fuel` rounds: the count, the item before and the item.
unfoldable pub find_item : (fuel i prev cur index : ℕ) → ItemList → Option (ℕ × ℕ × ℕ)
find_item zero i prev cur index s = none
find_item (suc fuel) i prev cur index s =
    let next = (s.items cur).next in
    let rest = find_item fuel (i + 1) cur next index s in
    if ltb i index && (if next == 0 then false else true) then rest else some (i, prev, cur)

-- The three branches behind the loop. The length is lowered before it is compared with 1.
unfoldable pub unlink : (i prev cur index : ℕ) → ItemList → ItemList × Bool
unlink i prev cur index s =
    let shorter = sub32 s.length 1 in
    if i == 0
    then (
      record s {
        head = (s.items cur).next;
        length = shorter;
        tail = if shorter == 1 then (s.items cur).next else s.tail;
      },
      true,
    )
    else if i == s.length
    then (record s { items = set_next prev 0 s.items; tail = prev; length = shorter }, true)
    else if i == index
    then (record s { items = set_next prev (s.items cur).next s.items; length = shorter }, true)
    else (s, false)

-- An item that is unlinked is freed. `prev` is not set before the first round.
unfoldable pub remove : (index prev : ℕ) → ItemList × Manager → Option (ItemList × Manager × Bool)
remove index prev (s, mm) =
    Option.map
      (λ (i, prev', cur).
        let (s', removed) = unlink i prev' cur index s in
        (s', (if removed then (kfree cur mm).0 else mm), removed))
      (find_item (2 ^ 32) 0 prev s.head index s)
