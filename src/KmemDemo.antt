-- ===== src/KmemDemo.antt =====
-- tutorial-03/kmem_demo.c: four kinds of kernel memory, obtained when the module is loaded.
pub mod Show
pub mod Lifetime
mod Tests
use utsavbalar_linux_kernel.Base.{
  ℕ, ◌*◌, ◌^◌, not, List, [], ◌∷◌, ◌++◌, ◌==◌, if◌then◌else◌, replicate, eq_zero, pos,
}
use utsavbalar_linux_kernel.Kernel.{
  enomem, splice, stop, emit, emit_if, followed_by, Run, proc, kmalloc, vmalloc, pages, cache,
  object, obtained, allocated, filled, refused, released,
}

abbrev pub kmalloc_size : ℕ
kmalloc_size = 4 * 1024

abbrev pub vmalloc_size : ℕ
vmalloc_size = 8 * 1024 * 1024

abbrev pub page_order : ℕ
page_order = 2

-- `sizeof(struct demo_struct)` with 64-bit pointers: 4 + 32, padded to 40, and two pointers.
abbrev pub demo_struct_size : ℕ
demo_struct_size = 56

-- The fields of `struct demo_struct` that the module uses; `name` is its array of 32 bytes.
pub record DemoStruct : Type 0 where
  pub id : ℕ
  pub name : List ℕ

-- The static variables, 0 for NULL, and the object behind `cache_ptr`.
pub record Globals : Type 0 where
  pub kmalloc_ptr : ℕ
  pub vmalloc_ptr : ℕ
  pub page_ptr : ℕ
  pub cache : ℕ
  pub cache_ptr : ℕ
  pub object_bytes : DemoStruct

-- The answers of the kernel during one load; `page_size` is the PAGE_SIZE of the machine.
pub record Answers : Type 0 where
  pub page_size : ℕ
  pub kmalloc : ℕ
  pub vmalloc : ℕ
  pub get_free_pages : ℕ
  pub kmem_cache_create : ℕ
  pub kmem_cache_alloc : ℕ
  pub proc_create : ℕ

-- `PAGE_SIZE << PAGE_ORDER`.
abbrev pub pages_size : ℕ → ℕ
pages_size page_size = page_size * 2 ^ page_order

-- `memset` of the object to 0, `id = 1`, and `strcpy` of "Cache Example" with its terminator.
abbrev pub example_name : List ℕ
example_name =
    b'C' ∷ b'a' ∷ b'c' ∷ b'h' ∷ b'e' ∷ 32 ∷ b'E' ∷ b'x' ∷ b'a' ∷ b'm' ∷ b'p' ∷ b'l' ∷ b'e' ∷ []

unfoldable pub initial_object : DemoStruct
initial_object = record { id = 1; name = splice (replicate 32 0) 0 (example_name ++ 0 ∷ []) }

-- The labels of `init_memory`, each falling through to the next.
fail_kmalloc : Globals → Run Globals
fail_kmalloc g = stop [] g enomem

fail_vmalloc : Globals → Run Globals
unfolding fail_kmalloc
fail_vmalloc g = emit (released kmalloc g.kmalloc_ptr) (fail_kmalloc g)

fail_pages : Globals → Run Globals
unfolding fail_vmalloc
fail_pages g = emit (released vmalloc g.vmalloc_ptr) (fail_vmalloc g)

fail_cache_create : Globals → Run Globals
unfolding fail_pages
fail_cache_create g = emit (released pages g.page_ptr) (fail_pages g)

fail_cache_alloc : Globals → Run Globals
unfolding fail_cache_create
fail_cache_alloc g = emit (released cache g.cache) (fail_cache_create g)

-- The four parts of `init_memory`, each going on with the next.
init_cache : Answers → Globals → Run Globals
unfolding fail_cache_alloc
init_cache k g0 =
    let g = record g0 { cache = k.kmem_cache_create } in
    let h = record g { cache_ptr = k.kmem_cache_alloc } in
    let rest =
      if h.cache_ptr == 0
      then emit (refused object) (fail_cache_alloc h)
      else emit (allocated object h.cache_ptr demo_struct_size) (
          stop (filled object h.cache_ptr demo_struct_size ∷ [])
            (record h { object_bytes = initial_object }) (pos 0)) in
    if g.cache == 0
    then emit (refused cache) (fail_cache_create g)
    else emit (obtained cache g.cache) rest

init_pages : Answers → Globals → Run Globals
unfolding init_cache
init_pages k g0 =
    let g = record g0 { page_ptr = k.get_free_pages } in
    if g.page_ptr == 0
    then emit (refused pages) (fail_pages g)
    else emit (allocated pages g.page_ptr (pages_size k.page_size))
        (emit (filled pages g.page_ptr (pages_size k.page_size)) (init_cache k g))

init_vmalloc : Answers → Globals → Run Globals
unfolding init_pages
init_vmalloc k g0 =
    let g = record g0 { vmalloc_ptr = k.vmalloc } in
    if g.vmalloc_ptr == 0
    then emit (refused vmalloc) (fail_vmalloc g)
    else emit (allocated vmalloc g.vmalloc_ptr vmalloc_size)
        (emit (filled vmalloc g.vmalloc_ptr vmalloc_size) (init_pages k g))

pub init_memory : Answers → Globals → Run Globals
unfolding init_vmalloc
init_memory k g0 =
    let g = record g0 { kmalloc_ptr = k.kmalloc } in
    if g.kmalloc_ptr == 0
    then emit (refused kmalloc) (fail_kmalloc g)
    else emit (allocated kmalloc g.kmalloc_ptr kmalloc_size)
        (emit (filled kmalloc g.kmalloc_ptr kmalloc_size) (init_vmalloc k g))

pub free_memory : Globals → Run Globals
free_memory g = emit_if (not (g.cache_ptr == 0)) (released object g.cache_ptr) (
    emit_if (not (g.cache == 0)) (released cache g.cache) (
      emit_if (not (g.page_ptr == 0)) (released pages g.page_ptr) (
        emit_if (not (g.vmalloc_ptr == 0)) (released vmalloc g.vmalloc_ptr) (
          emit_if (not (g.kmalloc_ptr == 0)) (released kmalloc g.kmalloc_ptr)
            (stop [] g (pos 0))))))

-- The proc file is named by its name, which stands for the handle 0.
create_proc : Answers → Globals → Run Globals
unfolding free_memory
create_proc k g =
    let r = free_memory g in
    if k.proc_create == 0
    then emit (refused proc) (stop r.events r.state enomem)
    else stop (obtained proc 0 ∷ []) g (pos 0)

unfoldable pub kmem_demo_init : Answers → Globals → Run Globals
unfolding init_memory create_proc
kmem_demo_init k g =
    let r = init_memory k g in if eq_zero r.ret then followed_by r (create_proc k) else r

unfoldable pub kmem_demo_exit : Globals → Run Globals
unfolding free_memory
kmem_demo_exit g = emit (released proc 0) (free_memory g)
