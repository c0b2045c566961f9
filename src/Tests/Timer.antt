-- ===== src/Tests/Timer.antt =====
-- src/timer/timer.c on two frames.
use fantastic_octo_meme.Prelude.{replicate}
use fantastic_octo_meme.Timer.{Frametime}

-- A tracker whose array holds what was there before.
abbrev fresh : Frametime
fresh = record {
  history = replicate 240 99;
  count = 7;
  pos = 3;
  cpu_wait_ns = 1;
  gpu_wait_ns = 2;
  translate_wait_ns = 3;
}
