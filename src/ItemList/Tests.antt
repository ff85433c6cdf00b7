-- ===== src/ItemList/Tests.antt =====
-- The theorems on the list at one of two items.
use sandor_os.Prelude.{◌+◌, ◌≡◌, refl, inl, inr, true, some, [], ◌∷◌, arith, ◌==◌, if◌then◌else◌}
use sandor_os.Table.{entry}
use sandor_os.VirtPages.{Manager}
use sandor_os.KernelHeap.Kmalloc.{kfree}
use sandor_os.ItemList.{ItemList, append, remove}
use sandor_os.ItemList.Append.{IsList, Among, append-IsList}
use sandor_os.ItemList.Removal.{remove-last}

abbrev two : ItemList
two = record {
  length = 2;
  head = 100;
  tail = 108;
  items =
      λ p. if p == 100 then record { value = 7; next = 108 } else record { value = 8; next = 0 };
}

two-IsList : IsList (100 ∷ 108 ∷ []) two
two-IsList = record {
  count = refl;
  chain = (refl, (λ e. omega (arith, e)), (refl, (λ e. omega (arith, e)), refl));
  end = refl;
  distinct = (apart, ((λ m. m), tt));
}
  where
    apart : ¬ Among 100 (108 ∷ [])
    apart (inl e) = omega (arith, e)
    apart (inr m) = m

fresh : ¬ Among 116 (100 ∷ 108 ∷ [])
fresh (inl e) = omega (arith, e)
fresh (inr (inl e)) = omega (arith, e)
fresh (inr (inr m)) = m

append-IsList_example : IsList (100 ∷ 108 ∷ 116 ∷ []) (append 116 two)
append-IsList_example =
    append-IsList (100 ∷ 108 ∷ []) two 116 two-IsList (λ e. omega (arith, e)) fresh refl

abbrev manager : Manager
manager = record {
  phys = record {
    memory = λ f i. 0;
    temp_page = 0;
    free_page_count = 0;
    free_phys_memory_pointer = 0;
  };
  space = record {
    page_dir = 4096;
    start = 4096;
    end = 65536;
    virt_memory = record {
      block_count = 1;
      blocks = 4096;
      entries = λ i. entry 4096 2;
      table_size = 1;
    };
    dynamic_memory = record {
      block_count = 0;
      blocks = 8192;
      entries = λ i. entry 0 0;
      table_size = 1;
      heap = 12288;
      heap_size = 1;
    };
  };
}

remove-last_example :
    (s : ItemList) × (remove 1 0 (two, manager) ≡ some (s, (kfree 108 manager).0, true))
    × (s.length + 1 ≡ 2)
    × (s.tail ≡ 108)
remove-last_example = remove-last 100 108 0 [] two manager two-IsList (omega arith)
