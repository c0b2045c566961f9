-- ===== src/Perf/Drain.antt =====
-- What draining gives after a run of traces.
use fantastic_octo_meme.Prelude.{
  ℕ, ◌+◌, ◌-◌, ◌%◌, ◌≤◌, ◌<◌, ◌≡◌, refl, sym, ap, ◌∙◌, arith, List, [], ◌∷◌, ◌++◌, length, get_or,
  take, drop, ltb, ◌==◌, if◌then◌else◌, Bool-cases, inl, inr, length-take, eq_of_get_or,
  get_or-take, subst, length-replicate, append_nil, append_cons,
}
use fantastic_octo_meme.Prelude.Recent.{
  tabulate, length-tabulate, get_or-tabulate, recent, length-recent, get_or-recent, Keeps,
  push-Keeps,
}
use fantastic_octo_meme.Perf.{Sample, Samples, ring_cap, no_sample, no_samples, trace, drain}

abbrev pub trace_all : Samples → List Sample → Samples
trace_all r [] = r
trace_all r (s ∷ ss) = trace_all (trace r s) ss

abbrev Holds : Samples → List Sample → Type 0
Holds r ys = Keeps ring_cap no_sample r.entries r.pos r.count ys

trace_all-Holds :
    (ss : List Sample) (r : Samples) (ys : List Sample)
    → Holds r ys
    → Holds (trace_all r ss) (ys ++ ss)
trace_all-Holds [] r ys h = subst (Holds r) (sym (append_nil ys)) h
trace_all-Holds (s ∷ ss) r ys h = subst (Holds (trace_all (trace r s) ss)) (append_cons ys s ss) (
    trace_all-Holds ss (trace r s) (ys ++ s ∷ [])
      (push-Keeps ring_cap no_sample r.entries r.pos r.count ys s h))

no_samples-Holds : Holds no_samples []
unfolding no_samples recent
no_samples-Holds = (length-replicate ring_cap no_sample, omega arith, refl, refl)

drain-recent :
    (r : Samples) (n : ℕ)
    → r.pos < ring_cap
    → r.count ≤ ring_cap
    → drain r n ≡ take n (recent ring_cap no_sample r.entries r.pos r.count)
unfolding drain
drain-recent r n inside full = elim (Bool-cases (n == 0)) [
  | inl none_asked ↦ let zero_n : n ≡ 0 = ground arith in rw zero_n refl
  | inr some_asked ↦
      let copy = if ltb n r.count then n else r.count in
      let all = recent ring_cap no_sample r.entries r.pos r.count in
      let l = length-recent ring_cap no_sample r.entries r.pos r.count in
      let at = λ (i : ℕ).
        get_or r.entries (((r.pos + ring_cap - r.count) % ring_cap + i) % ring_cap) no_sample in
      let l' = length-tabulate at 0 copy in
      rw some_asked (
        eq_of_get_or (tabulate at 0 copy) (take n all) no_sample
          (ground (arith, l, l', length-take n all))
          λ i lt.
            let inside_copy : i < copy = omega (arith, l') in
            let few : (i < n) × (i < r.count) = ground arith in
            let same : ((r.pos + ring_cap - r.count) % ring_cap + (0 + i)) % ring_cap
                ≡ (r.pos + ring_cap - r.count + i) % ring_cap =
              omega arith in
            get_or-tabulate at 0 copy i no_sample inside_copy
            ∙ ap (λ k. get_or r.entries k no_sample) same
            ∙ sym (get_or-recent ring_cap no_sample r.entries r.pos r.count i few.1)
            ∙ sym (get_or-take n all i no_sample few.0))
]

-- After any run of traces from the start, draining `n` samples gives the first `n`, thus the oldest,
-- of the last 256 that were traced, in their order.
pub drain_lem :
    (ss : List Sample) (n : ℕ)
    → drain (trace_all no_samples ss) n ≡ take n (drop (length ss - 256) ss)
drain_lem ss n =
    let (whole, inside, many, holds) = trace_all-Holds ss no_samples [] no_samples-Holds in
    drain-recent (trace_all no_samples ss) n inside (omega arith) ∙ ap (take n) holds
