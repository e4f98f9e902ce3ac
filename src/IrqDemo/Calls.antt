-- ===== src/IrqDemo/Calls.antt =====
-- `irq_fops` of tutorial-05/irq_demo.c.
use utsavbalar_linux_kernel.Base.{refl, arith}
use utsavbalar_linux_kernel.Status.Calls.{Table}
use utsavbalar_linux_kernel.Status.Calls.Refines.{IsStatus}
use utsavbalar_linux_kernel.IrqDemo.{
  Stats, status, irq_demo_open, irq_demo_release, irq_demo_read, irq_demo_write,
}
use utsavbalar_linux_kernel.IrqDemo.Handlers.{length-status}

abbrev pub irq_fops : Table Stats
irq_fops = record {
  open_handler = irq_demo_open;
  release_handler = irq_demo_release;
  read_handler =
      λ k s device_buffer to count offset. irq_demo_read k s device_buffer to count offset;
  write_handler = λ k now s from count. irq_demo_write k now s from count;
}

pub irq_fops-IsStatus : IsStatus irq_fops status
unfolding irq_demo_read
irq_fops-IsStatus = record {
  serves = λ k s device_buffer to count offset. refl;
  fits = λ s. omega (arith, length-status s);
}
