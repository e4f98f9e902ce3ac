-- ===== src/Hello.antt =====
-- tutorial-01/hello.c: the load and the unload, which print a line each; the lines are left out.
use utsavbalar_linux_kernel.Base.{ℤ, pos}

pub hello_init : ℤ
hello_init = pos 0

pub hello_exit : Unit {0}
hello_exit = tt
