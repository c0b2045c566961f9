-- ===== src/Compat/Analysis/Tallied.antt =====
-- What the counters of the analysis say of each other.
use fantastic_octo_meme.Prelude.{
  subst, ℕ, zero, suc, ◌+◌, ◌-◌, ◌%◌, ◌^◌, ◌≤◌, ◌<◌, ◌≡◌, ◌∙◌, Bool, true, false, List, [], ◌∷◌,
  length, length-append, length-set, get_or, min, leb, ◌==◌, refl, arith, Bool-cases, inl, inr,
  Option, if◌then◌else◌,
}
use fantastic_octo_meme.Memory.{Bytes}
use fantastic_octo_meme.Text.{clip}
use fantastic_octo_meme.Conf.{or_empty}
use fantastic_octo_meme.Win32.Registry.{Registry}
use fantastic_octo_meme.Compat.Categories.{classify}
use fantastic_octo_meme.Compat.Analysis.{
  Imported, Missing, missing_api, add_missing, Tally, bump, is_supported, tally_scored, tally_one,
  tally_all, nothing_tallied, sum, scored,
}

sum-bump : (l : List ℕ) (i : ℕ) → i < length l → sum l + 1 < 2 ^ 32 → sum (bump l i) ≡ sum l + 1
sum-bump [] i h small = absurd (omega arith)
sum-bump (x ∷ l) zero h small = omega arith
sum-bump (x ∷ l) (suc i) h small = omega (arith, sum-bump l i (omega arith) (omega arith))

pub get_or-sum : (l : List ℕ) (i : ℕ) → get_or l i 0 ≤ sum l
get_or-sum [] i = omega arith
get_or-sum (x ∷ l) zero = omega arith
get_or-sum (x ∷ l) (suc i) = omega (arith, get_or-sum l i)

pub get_or-bump :
    (l : List ℕ) (i c : ℕ)
    → i < length l
    → sum l + 1 < 2 ^ 32
    → get_or (bump l i) c 0 ≡ (if i == c then get_or l c 0 + 1 else get_or l c 0)
get_or-bump [] i c h small = absurd (omega arith)
get_or-bump (x ∷ l) zero zero h small = omega arith
get_or-bump (x ∷ l) zero (suc c) h small = ground arith
get_or-bump (x ∷ l) (suc i) zero h small = ground arith
get_or-bump (x ∷ l) (suc i) (suc c) h small =
    get_or-bump l i c (omega arith) (omega arith) ∙ ground arith

-- After `n` imports: no category has more supported imports than imports, there are no more scored
-- imports than imports, and each one that is not supported is reported, up to 64 of them.
pub record IsTally (n : ℕ) (t : Tally) : Type 0 where
  pub totals_seven : length t.totals ≡ 7
  pub supported_seven : length t.supported ≡ 7
  pub no_more : (c : ℕ) → get_or t.supported c 0 ≤ get_or t.totals c 0
  pub few : sum t.totals ≤ n
  pub sums : sum t.supported ≤ sum t.totals
  pub reported : length t.missing ≡ min 64 (sum t.totals - sum t.supported)

length-add_missing :
    (ms : List Missing) (im : Imported) (called_by : Bytes)
    → length ms ≤ 64
    → length (add_missing ms im called_by) ≡ min 64 (length ms + 1)
length-add_missing ms im called_by h = elim (Bool-cases (leb 64 (length ms))) [
  | inl full ↦ rw full (ground arith)
  | inr room ↦ rw room (length-append ms (missing_api im called_by ∷ []) ∙ ground arith)
]

below : (c : ℕ) → leb 7 c ≡ false → c < 7
below c h = ground arith

one_more : (n : ℕ) (t : Tally) → IsTally n t → IsTally (suc n) t
one_more n t v = record {
  totals_seven = v.totals_seven;
  supported_seven = v.supported_seven;
  no_more = v.no_more;
  few = omega (arith, v.few);
  sums = v.sums;
  reported = v.reported;
}

tally_scored-IsTally :
    (n : ℕ) (called_by : Bytes) (t : Tally) (im : Imported) (cat : ℕ) (has : Bool)
    → cat < 7
    → suc n < 2 ^ 32
    → IsTally n t
    → IsTally (suc n) (tally_scored called_by t im cat has)
tally_scored-IsTally n called_by t im cat true h small v =
    let up = sum-bump t.totals cat (omega (arith, v.totals_seven)) (omega (arith, v.few)) in
    let up' =
      sum-bump t.supported cat (omega (arith, v.supported_seven)) (omega (arith, v.few, v.sums)) in
    record {
      totals_seven =
          length-set t.totals cat ((get_or t.totals cat 0 + 1) % 2 ^ 32) ∙ v.totals_seven;
      supported_seven =
          length-set t.supported cat ((get_or t.supported cat 0 + 1) % 2 ^ 32) ∙ v.supported_seven;
      no_more = λ c. ground (
        arith,
        get_or-bump t.totals cat c (omega (arith, v.totals_seven)) (omega (arith, v.few)),
        get_or-bump t.supported cat c (omega (arith, v.supported_seven))
            (omega (arith, v.few, v.sums)),
        v.no_more c,
      );
      few = omega (arith, up, v.few);
      sums = omega (arith, up, up', v.sums);
      reported = v.reported ∙ omega (arith, up, up', v.sums);
    }
tally_scored-IsTally n called_by t im cat false h small v =
    let up = sum-bump t.totals cat (omega (arith, v.totals_seven)) (omega (arith, v.few)) in
    record {
      totals_seven =
          length-set t.totals cat ((get_or t.totals cat 0 + 1) % 2 ^ 32) ∙ v.totals_seven;
      supported_seven = v.supported_seven;
      no_more = λ c. ground (
        arith,
        get_or-bump t.totals cat c (omega (arith, v.totals_seven)) (omega (arith, v.few)),
        v.no_more c,
      );
      few = omega (arith, up, v.few);
      sums = omega (arith, up, v.sums);
      reported =
          length-add_missing t.missing im called_by (omega (arith, v.reported))
          ∙ omega (arith, up, v.sums, v.reported);
    }

pub tally_one-IsTally :
    (r : Registry) (n : ℕ) (called_by : Bytes) (t : Tally) (im : Imported)
    → suc n < 2 ^ 32
    → IsTally n t
    → IsTally (suc n) (tally_one r called_by t im)
unfolding tally_one
tally_one-IsTally r n called_by t im small v =
    let cat = classify im.module_name im.name in
    elim (Bool-cases (leb 7 cat)) [
      | inl skipped ↦ rw (skipped, tally_one) (one_more n t v)
      | inr kept ↦
          rw (kept, tally_one)
            (tally_scored-IsTally n called_by t im cat (is_supported r im) (below cat kept) small v)
    ]

tally_all-IsTally :
    (r : Registry) (n : ℕ) (called_by : Bytes) (t : Tally) (ims : List Imported)
    → n + length ims < 2 ^ 32
    → IsTally n t
    → IsTally (n + length ims) (tally_all r called_by t ims)
tally_all-IsTally r n called_by t [] small v =
    let same : n ≡ n + 0 = omega arith in subst (λ k. IsTally k t) same v
tally_all-IsTally r n called_by t (im ∷ ims) small v =
    let rest =
      tally_all-IsTally r (suc n) called_by (tally_one r called_by t im) ims (omega arith)
        (tally_one-IsTally r n called_by t im (omega arith) v) in
    let same : suc n + length ims ≡ n + suc (length ims) = omega arith in
    subst (λ k. IsTally k (tally_all r called_by (tally_one r called_by t im) ims)) same rest

pub nothing-IsTally : IsTally 0 nothing_tallied
nothing-IsTally = record {
  totals_seven = refl;
  supported_seven = refl;
  no_more = λ c. omega arith;
  few = omega arith;
  sums = omega arith;
  reported = refl;
}

pub scored-IsTally :
    (r : Registry) (called_by : Option Bytes) (ims : List Imported)
    → length ims < 2 ^ 32
    → IsTally (length ims) (scored r called_by ims)
unfolding scored
scored-IsTally r called_by ims small =
    let name = clip 256 (or_empty called_by) in
    let same : 0 + length ims ≡ length ims = omega arith in
    subst (λ k. IsTally k (tally_all r name nothing_tallied ims)) same
      (tally_all-IsTally r 0 name nothing_tallied ims (omega arith) nothing-IsTally)
