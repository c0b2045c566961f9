-- ===== src/Tests/Perf.antt =====
-- src/perf/perf.c on two traces.
use fantastic_octo_meme.Prelude.{[], ◌∷◌, ◌≡◌}
use fantastic_octo_meme.Perf.{Sample, no_samples, drain}
use fantastic_octo_meme.Perf.Drain.{trace_all, drain_lem}

abbrev early : Sample
early = record { label = 1; value = 64; t_ms = 1000 }

abbrev late : Sample
late = record { label = 2; value = 0; t_ms = 1010 }

drain_lem_example : drain (trace_all no_samples (early ∷ late ∷ [])) 1 ≡ early ∷ []
drain_lem_example = drain_lem (early ∷ late ∷ []) 1
