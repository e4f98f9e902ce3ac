-- ===== src/KmemDemo/Lifetime.antt =====
-- What a load of tutorial-03/kmem_demo.c holds, and that all of it is given back.
use utsavbalar_linux_kernel.Base.{
  ◌≡◌, Bool, true, ◌&&◌, not, some, [], ◌∷◌, ◌++◌, arith, ◌==◌, if◌then◌else◌, pos,
}
use utsavbalar_linux_kernel.Kernel.{
  enomem, proc, kmalloc, vmalloc, pages, cache, object, Held, settle, fills_fit,
}
use utsavbalar_linux_kernel.KmemDemo.{Globals, Answers, kmem_demo_init, kmem_demo_exit}

-- Every call of the load succeeds.
abbrev pub all_granted : Answers → Bool
all_granted k =
    not (k.kmalloc == 0)
    && not (k.vmalloc == 0)
    && not (k.get_free_pages == 0)
    && not (k.kmem_cache_create == 0)
    && not (k.kmem_cache_alloc == 0)
    && not (k.proc_create == 0)

abbrev pub loaded : Answers → Held
loaded k =
    (proc, 0)
    ∷ (object, k.kmem_cache_alloc)
    ∷ (cache, k.kmem_cache_create)
    ∷ (pages, k.get_free_pages)
    ∷ (vmalloc, k.vmalloc)
    ∷ (kmalloc, k.kmalloc)
    ∷ []

-- A load returns 0 exactly when every call of it succeeds, and then holds the proc file, the object,
-- its cache, the pages and the two blocks; otherwise it returns -ENOMEM and has released, in reverse
-- order, all that it obtained.
pub kmem_demo_init_lem :
    (k : Answers) (g : Globals)
    → let r = kmem_demo_init k g in
      if all_granted k
      then (r.ret ≡ pos 0) × (settle r.events [] ≡ some (loaded k))
      else (r.ret ≡ enomem) × (settle r.events [] ≡ some [])
unfolding kmem_demo_init settle
kmem_demo_init_lem k g = ground arith

-- A load that returns 0 and the unload after it release everything, each thing once and in the
-- reverse of the order in which it was obtained.
pub kmem_demo_exit-kmem_demo_init :
    (k : Answers) (g : Globals)
    → (kmem_demo_init k g).ret ≡ pos 0
    → settle ((kmem_demo_init k g).events ++ (kmem_demo_exit (kmem_demo_init k g).state).events) []
      ≡ some []
unfolding kmem_demo_init kmem_demo_exit settle
kmem_demo_exit-kmem_demo_init k g h = ground arith

-- Whatever the kernel answers, each memset of a load goes to a block that the module holds at that
-- moment, and stays inside it.
pub kmem_demo_init-fills_fit :
    (k : Answers) (g : Globals) → fills_fit (kmem_demo_init k g).events [] ≡ true
unfolding kmem_demo_init fills_fit
kmem_demo_init-fills_fit k g = ground arith
