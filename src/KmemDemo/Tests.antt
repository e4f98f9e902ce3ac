-- ===== src/KmemDemo/Tests.antt =====
-- tutorial-03/kmem_demo.c at concrete answers of the kernel.
use utsavbalar_linux_kernel.Base.{◌≡◌, refl, true, some, [], ◌∷◌, ◌++◌}
use utsavbalar_linux_kernel.Kernel.{enomem, settle, fills_fit}
use utsavbalar_linux_kernel.KmemDemo.{
  Globals, Answers, kmem_demo_init, kmem_demo_exit, example_name,
}
use utsavbalar_linux_kernel.KmemDemo.Lifetime.{
  kmem_demo_init_lem, kmem_demo_exit-kmem_demo_init, kmem_demo_init-fills_fit,
}
use utsavbalar_linux_kernel.KmemDemo.Show.{
  kmem_demo_show, pointers, names, kmem_demo_show-kmem_demo_init,
}

abbrev granted : Answers
granted = record {
  page_size = 4096;
  kmalloc = 0x1000;
  vmalloc = 0x2000;
  get_free_pages = 0x3000;
  kmem_cache_create = 0x4000;
  kmem_cache_alloc = 0x5000;
  proc_create = 0x6000;
}

-- The fourth allocation fails.
abbrev no_object : Answers
no_object = record granted { kmem_cache_alloc = 0 }

abbrev empty : Globals
empty = record {
  kmalloc_ptr = 0;
  vmalloc_ptr = 0;
  page_ptr = 0;
  cache = 0;
  cache_ptr = 0;
  object_bytes = record { id = 0; name = [] };
}

kmem_demo_init_lem_example :
    ((kmem_demo_init no_object empty).ret ≡ enomem)
    × (settle (kmem_demo_init no_object empty).events [] ≡ some [])
kmem_demo_init_lem_example = kmem_demo_init_lem no_object empty

kmem_demo_exit-kmem_demo_init_example :
    settle
      ((kmem_demo_init granted empty).events
        ++ (kmem_demo_exit (kmem_demo_init granted empty).state).events)
      []
    ≡ some []
unfolding kmem_demo_init
kmem_demo_exit-kmem_demo_init_example = kmem_demo_exit-kmem_demo_init granted empty refl

kmem_demo_init-fills_fit_example : fills_fit (kmem_demo_init granted empty).events [] ≡ true
kmem_demo_init-fills_fit_example = kmem_demo_init-fills_fit granted empty

kmem_demo_show-kmem_demo_init_example :
    (pointers (kmem_demo_show 4096 (kmem_demo_init granted empty).state)
      ≡ 0x1000 ∷ 0x2000 ∷ 0x3000 ∷ 0x5000 ∷ [])
    × (names (kmem_demo_show 4096 (kmem_demo_init granted empty).state) ≡ some example_name ∷ [])
unfolding kmem_demo_init
kmem_demo_show-kmem_demo_init_example = kmem_demo_show-kmem_demo_init granted empty refl
