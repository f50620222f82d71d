-- ===== src/Streams/Bandwidth.antt =====
-- Classes `Ewma` and `EwmaBandwidthEstimator` (shaka/js/shaka-player.compiled.debug.js). They compute
-- with powers of real numbers, so the numbers of JavaScript are a parameter, with what is used of them.
use shaka_player_embedded.Base.{ℕ, ◌+◌, ◌*◌, ltb, leb, Bool, if◌then◌else◌}

pub record Arithmetic {ℓ} (N : Type ℓ) : Type ℓ where
  pub of_nat : ℕ → N
  pub plus : N → N → N
  pub minus : N → N → N
  pub times : N → N → N
  pub divide : N → N → N
  pub power : N → N → N
  pub exp : N → N
  pub log : N → N
  pub minimum : N → N → N
  pub is_nan : N → Bool

pub record Ewma {ℓ} (N : Type ℓ) : Type ℓ where
  pub alpha : N
  pub estimate : N
  pub total_weight : N

pub record EwmaBandwidthEstimator {ℓ} (N : Type ℓ) : Type ℓ where
  pub fast : Ewma N
  pub slow : Ewma N
  pub bytes_sampled : ℕ

module _ {ℓ} {N : Type ℓ} (m : Arithmetic N) where
  unfoldable pub new_ewma : N → Ewma N
  new_ewma half_life = record {
    alpha = m.exp (m.divide (m.log (m.divide (m.of_nat 1) (m.of_nat 2))) half_life);
    estimate = m.of_nat 0;
    total_weight = m.of_nat 0;
  }

  abbrev pub decayed : N → N → Ewma N → N
  decayed weight value e =
      let c = m.power e.alpha weight in
      m.plus (m.times value (m.minus (m.of_nat 1) c)) (m.times c e.estimate)

  unfoldable pub sample_ewma : N → N → Ewma N → Ewma N
  sample_ewma weight value e = if m.is_nan (decayed weight value e) then e else record e {
    estimate = decayed weight value e;
    total_weight = m.plus e.total_weight weight;
  }

  unfoldable pub get_estimate : Ewma N → N
  get_estimate e = m.divide e.estimate (m.minus (m.of_nat 1) (m.power e.alpha e.total_weight))

  unfoldable pub new : EwmaBandwidthEstimator N
  new = record { fast = new_ewma (m.of_nat 2); slow = new_ewma (m.of_nat 5); bytes_sampled = 0 }

  -- The samples that count, and all that make an estimate good.
  abbrev pub min_bytes : ℕ
  min_bytes = 16000

  abbrev pub min_total_bytes : ℕ
  min_total_bytes = 128000

  unfoldable pub sample : ℕ → ℕ → EwmaBandwidthEstimator N → EwmaBandwidthEstimator N
  sample duration_ms bytes e =
      let bandwidth = m.divide (m.of_nat (8000 * bytes)) (m.of_nat duration_ms) in
      let weight = m.divide (m.of_nat duration_ms) (m.of_nat 1000) in
      if ltb bytes min_bytes then e else record {
        fast = sample_ewma weight bandwidth e.fast;
        slow = sample_ewma weight bandwidth e.slow;
        bytes_sampled = e.bytes_sampled + bytes;
      }

  unfoldable pub get_bandwidth_estimate : N → EwmaBandwidthEstimator N → N
  get_bandwidth_estimate default_estimate e =
      if ltb e.bytes_sampled min_total_bytes
      then default_estimate
      else m.minimum (get_estimate e.fast) (get_estimate e.slow)

  unfoldable pub has_good_estimate : EwmaBandwidthEstimator N → Bool
  has_good_estimate e = leb min_total_bytes e.bytes_sampled
