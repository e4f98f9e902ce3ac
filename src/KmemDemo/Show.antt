-- ===== src/KmemDemo/Show.antt =====
-- tutorial-03/kmem_demo.c: the proc file that reports the blocks.
use utsavbalar_linux_kernel.Base.{
  ℕ, ◌≡◌, Option, none, some, List, [], ◌∷◌, arith, ◌==◌, if◌then◌else◌, pos,
}
use Prim.Native.String.{String}
use utsavbalar_linux_kernel.KmemDemo.{
  Globals, Answers, kmem_demo_init, kmalloc_size, vmalloc_size, page_order, pages_size,
  demo_struct_size, example_name, initial_object,
}

-- One call of `seq_puts` or `seq_printf`: its text or format, and the arguments that it prints.
pub data Line : Type 0 where
  text : String → Line
  decimal : String → ℕ → Line
  decimals : String → ℕ → ℕ → Line
  pointer : String → ℕ → Line
  name : String → Option (List ℕ) → Line

-- What `%s` prints: the bytes before the first 0. `none` is an array with no terminator, which the
-- call would read past.
pub c_string : List ℕ → Option (List ℕ)
c_string [] = none
c_string (b ∷ bytes) =
    if b == 0 then some [] else elim (c_string bytes) [ none ↦ none | some rest ↦ some (b ∷ rest) ]

-- The lines about the object, which are printed only if there is one.
object_lines : Globals → List Line
unfolding c_string
object_lines g =
    if g.cache_ptr == 0
    then []
    else pointer "   Object address: 0x%px\n" g.cache_ptr
      ∷ decimal "   Object id: %d\n" (g.object_bytes).id
      ∷ name "   Object name: %s\n" (c_string (g.object_bytes).name)
      ∷ []

-- The `%s` of the cache's name is one of two literals, which stands in the text.
pub kmem_demo_show : ℕ → Globals → List Line
unfolding object_lines
kmem_demo_show page_size g =
    text "Kernel Memory Management Demo Module\n"
    ∷ text "==================================\n\n"
    ∷ text "1. kmalloc:\n"
    ∷ decimal "   Size: %d bytes\n" kmalloc_size
    ∷ pointer "   Address: 0x%px\n" g.kmalloc_ptr
    ∷ text "   Flags used: GFP_KERNEL\n\n"
    ∷ text "2. vmalloc:\n"
    ∷ decimal "   Size: %d bytes\n" vmalloc_size
    ∷ pointer "   Address: 0x%px\n\n" g.vmalloc_ptr
    ∷ text "3. __get_free_pages:\n"
    ∷ decimals "   Order: %d (2^%d pages)\n" page_order page_order
    ∷ decimal "   Size: %lu bytes\n" (pages_size page_size)
    ∷ pointer "   Address: 0x%lx\n\n" g.page_ptr
    ∷ text "4. kmem_cache:\n"
    ∷ decimal "   Object size: %lu bytes\n" demo_struct_size
    ∷ text (if g.cache == 0 then "   Cache name: N/A\n" else "   Cache name: demo_cache\n")
    ∷ object_lines g

-- The values that the lines print.
abbrev pub pointers : List Line → List ℕ
pointers [] = []
pointers (pointer s p ∷ ls) = p ∷ pointers ls
pointers (text s ∷ ls) = pointers ls
pointers (decimal s n ∷ ls) = pointers ls
pointers (decimals s n m ∷ ls) = pointers ls
pointers (name s b ∷ ls) = pointers ls

abbrev pub names : List Line → List (Option (List ℕ))
names [] = []
names (pointer s p ∷ ls) = names ls
names (text s ∷ ls) = names ls
names (decimal s n ∷ ls) = names ls
names (decimals s n m ∷ ls) = names ls
names (name s b ∷ ls) = b ∷ names ls

-- Once a load has returned 0, the proc file prints the four addresses that the kernel gave, in the
-- order of the allocations, and the name of the object, whose terminator is inside its array.
pub kmem_demo_show-kmem_demo_init :
    (k : Answers) (g : Globals)
    → (kmem_demo_init k g).ret ≡ pos 0
    → (pointers (kmem_demo_show k.page_size (kmem_demo_init k g).state)
        ≡ k.kmalloc ∷ k.vmalloc ∷ k.get_free_pages ∷ k.kmem_cache_alloc ∷ [])
      × (names (kmem_demo_show k.page_size (kmem_demo_init k g).state) ≡ some example_name ∷ [])
unfolding kmem_demo_init kmem_demo_show initial_object
kmem_demo_show-kmem_demo_init k g h = ground arith
