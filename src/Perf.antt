-- ===== src/Perf.antt =====
-- src/perf/perf.c: the ring of trace samples and the counters of the loader.
pub mod Drain
use fantastic_octo_meme.Prelude.{
  ℕ, ◌+◌, ◌-◌, ◌%◌, List, [], ◌∷◌, set, get_or, replicate, ltb, ◌==◌, if◌then◌else◌,
}
use fantastic_octo_meme.Prelude.Recent.{tabulate}

-- `cellar_perf_sample_t`; the label is the address of a string.
pub record Sample : Type 0 where
  pub label : ℕ
  pub value : ℕ
  pub t_ms : ℕ

-- `g_ring`, `g_ring_pos` and `g_ring_count`.
pub record Samples : Type 0 where
  pub entries : List Sample
  pub pos : ℕ
  pub count : ℕ

abbrev pub ring_cap : ℕ
ring_cap = 256

abbrev pub no_sample : Sample
no_sample = record { label = 0; value = 0; t_ms = 0 }

unfoldable pub no_samples : Samples
no_samples = record { entries = replicate ring_cap no_sample; pos = 0; count = 0 }

-- `cellar_perf_trace`, at the time that the clock gives.
abbrev pub trace : Samples → Sample → Samples
trace r s = record {
  entries = set r.entries r.pos s;
  pos = (r.pos + 1) % ring_cap;
  count = if ltb r.count ring_cap then r.count + 1 else r.count;
}

-- `cellar_perf_ring_drain`: the samples stored in `out`.
unfoldable pub drain : Samples → ℕ → List Sample
drain r n =
    let copy = if ltb n r.count then n else r.count in
    let oldest = (r.pos + ring_cap - r.count) % ring_cap in
    if n == 0
    then []
    else tabulate (λ i. get_or r.entries ((oldest + i) % ring_cap) no_sample) 0 copy
