-- ===== src/Text.antt =====
-- The C library's text functions as the drivers use them: `%d`, `snprintf`, `strncmp`. A text is the
-- list of its bytes.
mod Decimal
mod Compare
use utsavbalar_linux_kernel.Base.{
  ℕ, zero, suc, ◌+◌, ◌-◌, ◌*◌, ◌/◌, ◌%◌, ◌^◌, ◌≤◌, ◌<◌, min, ◌≡◌, refl, sym, ap, ◌∙◌, subst, ◌≢◌,
  ◌⊎◌, inl, inr, Bool, true, false, ◌&&◌, ◌||◌, not, Option, none, some, some-injective, List, [],
  ◌∷◌, ◌++◌, append_assoc, append-nil, arith, ltb, leb, ◌==◌, if◌then◌else◌, Bool-cases,
  Option-cases, lt→ltb, le→ltb, le→leb, lt→leb, length, get_or, take, drop, replicate,
  length-append, length-take, length-drop, length-replicate, take-append-drop, get_or-append,
  get_or-take, get_or-drop, get_or_past, eq_of_get_or, drop-take-append, take-length-append,
  take_all, drop-nil, drop-drop, take-take, eq_nil, pos_part, neg_part, sub_ℕ, ◌+ℤ◌, ◌-ℤ◌, ◌≤ℤ◌,
  ◌<ℤ◌, ltb_ℤ, leb_ℤ, is_neg, to_size_t, to_loff_t, signed32, to_int, eq_zero, ℤ, pos, negsuc,
}
use utsavbalar_linux_kernel.Kernel.{
  enomem, efault, einval, enospc, is_err, ptr_err, address, ErrPtr, ptr, err, user_bytes,
  length-user_bytes, get_or-user_bytes, copy_from_user_all, UserAccess, IsUserAccess, bytes_at,
  splice, store_at, length-splice, get_or-splice, take-drop-splice, bytes_at_inside,
  bytes_at_outside, store_at_inside, store_at_outside, stop, emit, emit_if, followed_by, Resource,
  Event, Run, chrdev, class, device, cdev, proc, thread, workqueue, timer, delayed, gpio, irq,
  kmalloc, vmalloc, pages, cache, object, obtained, allocated, filled, refused, released, flushed,
  Held, rank, same, settle, uses, in_use, remove, account, Blocks, room_for, free_block, fills_fit,
}
unfoldable pub use Decimal.*
unfoldable pub use Compare.*
