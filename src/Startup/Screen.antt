-- ===== src/Startup/Screen.antt =====
-- The pages that `init_tty` maps, and what the terminal takes from them.
use sandor_os.VirtPages.OnePage.{alloc_virt_pages-one}
use sandor_os.Startup.Bios.{byte_of, half_of, bios_of, virt_load-entry, read_bios-entry}
use native.Mathlib.Nat.{mul-le-mul_right}
use sandor_os.Tty.{Tty}
use sandor_os.Tty.Screen.{OnScreen}
use sandor_os.Keyboard.{init_keys}
use sandor_os.Interrupts.{Wrapper, Machine, set_int_handler}
use mathlib.Core.Path.{subst}
use sandor_os.VirtBlocks.Directory.{add_virt_block-page_dir}
use sandor_os.VirtPages.{Manager, table_full}
use sandor_os.VirtBlocks.{add_virt_block}
use sandor_os.AddressSpace.{AddressSpace}
use sandor_os.Startup.Terminal.{BiosData, read_bios, map_screen, Terminal, init_tty, set_screen}
use sandor_os.Startup.Clone.{virt_load}
use sandor_os.Paging.Map.{dir, page_of, Mapped, frames_from}
use sandor_os.Paging.Entries.{HasTable, entry_of, Tables}
use sandor_os.PhysMemory.{Phys}
use sandor_os.Prelude.{
  ℕ, ◌+◌, ◌*◌, ◌/◌, ◌^◌, ◌<◌, ◌≤◌, ◌≡◌, refl, ◌∙◌, ◌⊎◌, inl, inr, false, some, arith, u32, ◌≢◌,
}
use mathlib.Core.Option

module _ (mm : Manager) where
  -- The blocks of the two pages.
  abbrev screen : AddressSpace × ℕ
  screen = add_virt_block 1 mm.space

  abbrev area : AddressSpace × ℕ
  area = add_virt_block 1 screen.0

  abbrev page_dir : ℕ
  page_dir = mm.space.page_dir

  -- The table of blocks has room for both pages, whose addresses are apart and below the last page,
  -- and the directory has their tables, which are apart from each other and from the directory.
  pub record Ready : Type 0 where
    pub screen_room : table_full mm.space.virt_memory ≡ false
    pub area_room : table_full screen.0.virt_memory ≡ false
    pub screen_page : page_of screen.1 * 2 ^ 12 ≡ screen.1
    pub area_page : page_of area.1 * 2 ^ 12 ≡ area.1
    pub apart : page_of screen.1 ≢ page_of area.1
    pub screen_fits : screen.1 + 2 ^ 12 < 2 ^ 32
    pub area_fits : area.1 + 2 ^ 12 < 2 ^ 32
    pub tables : Tables (dir page_dir) mm.phys.memory
    pub screen_table : HasTable (dir page_dir) mm.phys.memory (page_of screen.1 / 2 ^ 10)
    pub area_table : HasTable (dir page_dir) mm.phys.memory (page_of area.1 / 2 ^ 10)

  -- What the two pages show.
  pub record Shown (mm' : Manager) : Type 0 where
    pub space : mm'.space ≡ area.0
    pub screen_words :
        (k : ℕ)
        → k < 2 ^ 12
        → virt_load page_dir (u32 (screen.1 + k)) mm'.phys ≡ some (mm'.phys.memory 184 (k / 4))
    pub bios : read_bios page_dir area.1 mm'.phys ≡ some (bios_of (mm'.phys.memory 0))

  shown :
      (s1 s2 : Phys)
      → Ready
      → Mapped page_dir (page_of screen.1) 1 (frames_from 184 4095) mm.phys s1
      → Mapped page_dir (page_of area.1) 1 (frames_from 0 4095) s1 s2
      → Shown (record { phys = s2; space = area.0 })
  shown s1 s2 r m1 m2 =
      let i = page_of screen.1 / 2 ^ 10 in
      let j = page_of area.1 / 2 ^ 10 in
      let has_screen1 : HasTable (dir page_dir) s1.memory i = rw (m1.directory i) r.screen_table in
      let has_screen : HasTable (dir page_dir) s2.memory i = rw (m2.directory i) has_screen1 in
      let has_area : HasTable (dir page_dir) s2.memory j =
        rw (m2.directory j, m1.directory j) r.area_table in
      let screen_entry : entry_of (dir page_dir) s2.memory (page_of screen.1)
          ≡ 184 * 2 ^ 12 + 4095 =
        m2.outside (page_of screen.1) has_screen1 (apart r.apart)
        ∙ first s1 (page_of screen.1) 184 mm.phys m1 in
      record {
        space = refl;
        screen_words = λ k lt.
            subst (λ a. virt_load page_dir (u32 (a + k)) s2 ≡ some (s2.memory 184 (k / 4)))
              r.screen_page
              (virt_load-entry page_dir (page_of screen.1) 184 s2 (omega (arith, r.screen_fits))
                has_screen screen_entry k lt);
        bios =
            subst (λ a. read_bios page_dir a s2 ≡ some (bios_of (s2.memory 0))) r.area_page
              (read_bios-entry page_dir (page_of area.1) 0 s2 (omega (arith, r.area_fits)) has_area
                (first s2 (page_of area.1) 0 s1 m2));
      }
    where
      first :
          (s : Phys) (p f : ℕ) (s0 : Phys)
          → Mapped page_dir p 1 (frames_from f 4095) s0 s
          → entry_of (dir page_dir) s.memory p ≡ f * 2 ^ 12 + 4095
      first s p f s0 m =
          let word : frames_from f 4095 0 ≡ f * 2 ^ 12 + 4095 = omega arith in
          subst (λ q. entry_of (dir page_dir) s.memory q ≡ f * 2 ^ 12 + 4095) (omega arith)
            (m.inside 0 (omega arith) ∙ word)

      apart : {p q : ℕ} → p ≢ q → (p < q) ⊎ (q + 1 ≤ p)
      apart ne = ground arith

  map_screen-Shown :
      Ready → (mm' : Manager) × (map_screen mm ≡ some (mm', screen.1, area.1)) × Shown mm'
  unfolding map_screen Option.bind
  map_screen-Shown r =
      let (s1, e1, m1) =
        alloc_virt_pages-one mm 184 (omega arith) r.screen_room r.tables r.screen_table
          r.screen_fits in
      let mm1 : Manager = record { phys = s1; space = screen.0 } in
      let d1 = add_virt_block-page_dir 1 mm.space in
      let has : HasTable (dir page_dir) s1.memory (page_of area.1 / 2 ^ 10) =
        rw (m1.directory (page_of area.1 / 2 ^ 10)) r.area_table in
      let (s2, e2, m2) =
        alloc_virt_pages-one mm1 0 (omega arith) r.area_room (rw d1 m1.tables) (rw d1 has)
          r.area_fits in
      let n2 = subst (λ x. Mapped x (page_of area.1) 1 (frames_from 0 4095) s1 s2) d1 m2 in
      (record { phys = s2; space = area.0 }, rw (e1, e2) refl, shown s1 s2 r m1 n2)

-- The terminal has what the BIOS data area in the words of a frame says: the width in the 16 bits at
-- 0x44a, the port in those at 0x463, and the cursor from the row at 0x451 and the column at 0x450. It
-- has 25 rows and the attribute 7, and its cells and ports are kept. The cursor is on the screen,
-- unless the row or the column is not.
pub record TakesBios (words : ℕ → ℕ) (t t' : Tty) : Type 0 where
  pub width : t'.tty_width ≡ half_of words 1098
  pub height : t'.tty_height ≡ 25
  pub port : t'.tty_io_port ≡ half_of words 1123
  pub cursor : t'.cursor ≡ byte_of words 1105 * half_of words 1098 + byte_of words 1104
  pub attr : t'.text_attr ≡ 7
  pub cells : t'.tty_buffer ≡ t.tty_buffer
  pub ports : t'.ports ≡ t.ports
  pub on_screen :
      (25 ≤ byte_of words 1105) ⊎ ((half_of words 1098 ≤ byte_of words 1104) ⊎ OnScreen t')

set_screen-OnScreen :
    (b : BiosData) (t : Tty)
    → b.width < 2 ^ 16
    → b.row < 25
    → b.column < b.width
    → OnScreen (set_screen b t)
unfolding set_screen
set_screen-OnScreen b t word row column =
    let most : b.row * b.width ≤ 24 * b.width = mul-le-mul_right b.width (omega arith) in
    omega arith

le_or_gt : (a b : ℕ) → (a ≤ b) ⊎ (b < a)
le_or_gt a b = ground arith

set_screen-TakesBios : (words : ℕ → ℕ) (t : Tty) → TakesBios words t (set_screen (bios_of words) t)
unfolding set_screen
set_screen-TakesBios words t =
    let row : byte_of words 1105 < 256 = omega arith in
    let column : byte_of words 1104 < 256 = omega arith in
    let wide : half_of words 1098 < 2 ^ 16 = omega arith in
    let most : byte_of words 1105 * half_of words 1098 ≤ 256 * half_of words 1098 =
      mul-le-mul_right (half_of words 1098) (omega arith) in
    record {
      width = refl;
      height = refl;
      port = refl;
      cursor = omega arith;
      attr = refl;
      cells = refl;
      ports = refl;
      on_screen = elim (le_or_gt 25 (byte_of words 1105)) [
        | inl out ↦ inl out
        | inr in_rows ↦ inr (elim (le_or_gt (half_of words 1098) (byte_of words 1104)) [
          | inl out ↦ inl out
          | inr in_row ↦ inr (set_screen-OnScreen (bios_of words) t wide in_rows in_row)
        ])
      ];
    }

module _ (w : Wrapper) (keyboard_handler : ℕ) (t : Terminal) where
  -- The terminal behind the pages: an empty buffer of keys, and the interrupt table that is made.
  abbrev pub with_machine : Tty → Machine → Terminal
  with_machine tty machine = record {
    tty = tty;
    screen_address = (screen t.machine.manager).1;
    keyboard = record (t.keyboard) { key_buffer_head = 0; key_buffer_tail = 0 };
    machine = machine;
  }

  -- Where the table of blocks has room for two pages at different whole addresses below the last
  -- page, whose tables the directory has, and the page tables are well formed: `init_tty` comes to
  -- `set_int_handler` for the interrupt of the keyboard, ends just when this does, and shows the video
  -- memory from 0xb8000 on in the first page and the BIOS data area of frame 0 in the second. From
  -- this area the terminal takes the width (the 16 bits at 0x44a), the port (at 0x463) and the cursor
  -- (the bytes 0x451 and 0x450), with 25 rows and the attribute 7; its cells are kept, its buffer of
  -- keys is empty, and its cursor is on the screen unless the row is 25 or more or the column is not
  -- below the width.
  pub init_tty-Shown :
      Ready t.machine.manager
      → (mm : Manager) × (tty : Tty) × (init_tty w keyboard_handler t
          ≡ Option.map
              (with_machine tty)
              (set_int_handler w 33 8 keyboard_handler 142 (record t.machine { manager = mm })))
        × Shown t.machine.manager mm
        × TakesBios (mm.phys.memory 0) t.tty tty
  unfolding init_tty Option.bind init_keys
  init_tty-Shown r =
      let (mm, e, sh) = map_screen-Shown t.machine.manager r in
      let d =
        add_virt_block-page_dir 1 (screen t.machine.manager).0
        ∙ add_virt_block-page_dir 1 t.machine.manager.space in
      (
        mm,
        set_screen (bios_of (mm.phys.memory 0)) t.tty,
        rw (e, sh.space, d, sh.bios) refl,
        sh,
        set_screen-TakesBios (mm.phys.memory 0) t.tty,
      )
