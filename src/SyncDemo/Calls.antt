-- ===== src/SyncDemo/Calls.antt =====
-- `sync_fops` of tutorial-04/sync_demo.c.
use utsavbalar_linux_kernel.Base.{refl, arith}
use utsavbalar_linux_kernel.Status.Calls.{Table}
use utsavbalar_linux_kernel.Status.Calls.Refines.{IsStatus}
use utsavbalar_linux_kernel.SyncDemo.{
  Counters, status, sync_demo_open, sync_demo_release, sync_demo_read, sync_demo_write,
}
use utsavbalar_linux_kernel.SyncDemo.Handlers.{length-status}

abbrev pub sync_fops : Table Counters
sync_fops = record {
  open_handler = sync_demo_open;
  release_handler = sync_demo_release;
  read_handler =
      λ k c device_buffer to count offset. sync_demo_read k c device_buffer to count offset;
  write_handler = λ k now c from count. sync_demo_write k c from count;
}

pub sync_fops-IsStatus : IsStatus sync_fops status
unfolding sync_demo_read
sync_fops-IsStatus = record {
  serves = λ k c device_buffer to count offset. refl;
  fits = λ c. omega (arith, length-status c);
}
