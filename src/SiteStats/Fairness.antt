-- ===== src/SiteStats/Fairness.antt =====
-- dsprod/site_stats.py: a fault of our own, which fails everywhere alike, convicts no site.
use native.Mathlib.Nat.{one-le-mul, mul-le-mul_right}
use dsprod.Common.{
  ap, ℕ, ◌*◌, ◌≤◌, ◌<◌, ◌≡◌, false, [], ◌∷◌, String, arith, All, Bool-cases, inl, inr, ◌==◌,
  string_eq,
}
use dsprod.Common.Dict.{Dict}
use dsprod.SiteStats.Types.{Config, SiteRecord, SiteStats}
use dsprod.SiteStats.Judgement.{
  Tally, counts, ended_since, others, exceeds, baseline, burst_baseline, burst_since,
}
use dsprod.SiteStats.Operations.{is_convicted}

-- Of `d` jobs, `p` fail.
abbrev pub AtRate : ℕ → ℕ → Tally → Type 0
AtRate p d t = t.n_fail * d ≡ p * t.n

product_bound :
    (p d f e k n F N : ℕ)
    → k * d ≡ p * n
    → F * d ≡ p * N
    → 0 < k
    → 0 < d
    → 0 < N
    → e < f
    → ¬ (f * F * n ≤ k * (e * N))
product_bound p d f e k n F N own other hk hd hN hf h =
    let q = p * n * N in
    let pos : 1 ≤ q = one-le-mul (omega (arith, one-le-mul hk hd)) hN in
    omega (
      arith,
      mul-le-mul_right d h,
      ap (λ (t : ℕ). f * n * t) other,
      ap (λ (t : ℕ). e * N * t) own,
      mul-le-mul_right q hf,
      pos,
    )

exceeds_common :
    (cfg : Config) (least p d : ℕ) (own other : Tally)
    → AtRate p d own
    → AtRate p d other
    → 0 < d
    → 0 < least
    → 0 < cfg.min_baseline_jobs
    → cfg.relative_factor.den < cfg.relative_factor.num
    → exceeds cfg least own other ≡ false
unfolding exceeds
exceeds_common cfg least p d own other ho hb hd hl hm hf = ground (
  arith,
  product_bound p d cfg.relative_factor.num cfg.relative_factor.den own.n_fail own.n other.n_fail
      other.n,
)

others-AtRate :
    (tally : String → SiteRecord → Tally) (site : String) (p d : ℕ) (sites : Dict String SiteRecord)
    → All (λ e. AtRate p d (tally e.0 e.1)) sites
    → AtRate p d (others tally site sites)
unfolding others
others-AtRate tally site p d [] h = omega arith
others-AtRate tally site p d ((x, r) ∷ sites) h =
    let rest = others-AtRate tally site p d sites h.1 in
    elim (Bool-cases (x == site)) [
      | inl own ↦ rw own rest
      | inr other ↦ rw other (omega (arith, rest, h.0))
    ]

-- If the outcomes of every site stand at one rate, over the whole window and over the burst's, the
-- site under test is not convicted, under settings that want at least one failure, a baseline and
-- a factor above 1.
pub is_convicted_common :
    (s : SiteStats) (now : ℕ) (site : String) (rec : SiteRecord) (p d p' d' : ℕ)
    → All (λ e. AtRate p d (counts s e.0 e.1 0)) s.sites
    → AtRate p d (counts s site rec rec.cleared_at)
    → All (λ e. AtRate p' d' (ended_since e.1 (burst_since s rec now))) s.sites
    → AtRate p' d' (ended_since rec (burst_since s rec now))
    → 0 < d
    → 0 < d'
    → 0 < s.cfg.min_failures
    → 0 < s.cfg.burst_failures
    → 0 < s.cfg.min_baseline_jobs
    → s.cfg.relative_factor.den < s.cfg.relative_factor.num
    → is_convicted s now site rec ≡ false
unfolding is_convicted
is_convicted_common s now site rec p d p' d' all own all' own' hd hd' hm hb hj hf =
    let since = burst_since s rec now in
    let burst =
      exceeds_common s.cfg s.cfg.burst_failures p' d' (ended_since rec since)
        (burst_baseline s site since) own'
        (others-AtRate (λ _ r. ended_since r since) site p' d' s.sites all') hd' hb hj hf in
    let failing =
      exceeds_common s.cfg s.cfg.min_failures p d (counts s site rec rec.cleared_at)
        (baseline s site) own (others-AtRate (λ x r. counts s x r 0) site p d s.sites all) hd hm hj
        hf in
    rw (burst, failing) (ground arith)
