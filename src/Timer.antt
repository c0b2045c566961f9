-- ===== src/Timer.antt =====
-- src/timer/timer.c: the history of frame times, and the loop of `cellar_frametime_report` that
-- collects it.
pub mod History
use fantastic_octo_meme.Prelude.{
  ℕ, suc, zero, ◌+◌, ◌-◌, ◌%◌, List, [], ◌∷◌, set, get_or, ltb, if◌then◌else◌,
}

-- `CELLAR_FRAMETIME_HISTORY`.
abbrev pub history_size : ℕ
history_size = 240

-- `cellar_frametime_t`.
pub record Frametime : Type 0 where
  pub history : List ℕ
  pub count : ℕ
  pub pos : ℕ
  pub cpu_wait_ns : ℕ
  pub gpu_wait_ns : ℕ
  pub translate_wait_ns : ℕ

-- `cellar_frametime_init`, which leaves the array as it is.
abbrev pub init : Frametime → Frametime
init ft = record ft { count = 0; pos = 0; cpu_wait_ns = 0; gpu_wait_ns = 0; translate_wait_ns = 0 }

-- `cellar_frametime_add`.
abbrev pub add_frame : Frametime → ℕ → Frametime
add_frame ft frame_ns = record ft {
  history = set ft.history ft.pos frame_ns;
  pos = (ft.pos + 1) % history_size;
  count = if ltb ft.count history_size then ft.count + 1 else ft.count;
}

-- `cellar_frametime_set_waits`.
abbrev pub set_waits : Frametime → ℕ → ℕ → ℕ → Frametime
set_waits ft cpu_ns gpu_ns translate_ns = record ft {
  cpu_wait_ns = cpu_ns;
  gpu_wait_ns = gpu_ns;
  translate_wait_ns = translate_ns;
}

-- The first loop of `cellar_frametime_report` from round `i` on: what it stores in `sorted`.
unfoldable pub collect_from : Frametime → ℕ → ℕ → List ℕ
collect_from ft i zero = []
collect_from ft i (suc n) =
    get_or ft.history ((ft.pos + history_size - ft.count + i) % history_size) 0
    ∷ collect_from ft (i + 1) n

abbrev pub collect : Frametime → List ℕ
collect ft = collect_from ft 0 ft.count
