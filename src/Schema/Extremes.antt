-- ===== src/Schema/Extremes.antt =====
-- Clamping an outlier: what AsExtreme gives.
use omle_runtime.Prelude.{
  ◌≡◌, refl, Bool, true, false, ◌||◌, List, [], ◌∷◌, All, arith, Bool-cases, inl, inr,
}
use omle_runtime.Floats.{Floats, F32, is_nan_safe32, abs}
use omle_runtime.Schema.{
  CompiledInterval, contains, clamp_to, CompiledDomain, SchemaFeature, in_any_interval, nearest,
  clamp_to_extreme, outlier_as_extreme, continuous, has_intervals, is_outlier, apply_schema,
}

module _ ⦃fl : Floats⦄ where
  open fl use {f32}

  -- A closed interval whose ends are in order.
  pub record IsProper (iv : CompiledInterval) : Type 0 where
    pub left_closed : iv.left_open ≡ false
    pub right_closed : iv.right_open ≡ false
    pub ordered : f32.lt iv.right iv.left ≡ false

  -- How far clamping into the interval moves the value.
  abbrev pub distance : CompiledInterval → F32 → F32
  distance iv v = f32.math1 abs (f32.sub (clamp_to iv v) v)

  -- Is some interval at a finite distance?
  abbrev pub reaches : List CompiledInterval → F32 → Bool
  reaches [] v = false
  reaches (iv ∷ ivs) v = f32.lt (distance iv v) f32.infinity || reaches ivs v

  -- In no interval a finite distance away: the start value stays.
  nearest-unreached :
      (ivs : List CompiledInterval) (v best : F32)
      → reaches ivs v ≡ false
      → nearest ivs v best f32.infinity ≡ best
  unfolding nearest
  nearest-unreached [] v best h = refl
  nearest-unreached (iv ∷ ivs) v best h = ground (arith, nearest-unreached ivs v best)

  module _ (irrefl : (x : F32) → f32.lt x x ≡ false) where
    clamp_to-contains :
        (iv : CompiledInterval) (v : F32) → IsProper iv → contains iv (clamp_to iv v) ≡ true
    unfolding contains clamp_to
    clamp_to-contains iv v p =
        ground (arith, irrefl iv.left, irrefl iv.right, p.left_closed, p.right_closed, p.ordered)

    module _ (good : F32 → Bool) (v : F32) where
      abbrev Lands : List CompiledInterval → Type 0
      Lands = All (λ iv. good (clamp_to iv v) ≡ true)

      nearest-keeps :
          (ivs : List CompiledInterval) (best dist : F32)
          → Lands ivs
          → good best ≡ true
          → good (nearest ivs v best dist) ≡ true
      unfolding nearest
      nearest-keeps [] best dist l h = h
      nearest-keeps (iv ∷ ivs) best dist l h = nearest-keeps ivs _ _ l.1 (ground (arith, l.0))

      nearest-Lands :
          (ivs : List CompiledInterval) (best : F32)
          → Lands ivs
          → reaches ivs v ≡ true
          → good (nearest ivs v best f32.infinity) ≡ true
      unfolding nearest
      nearest-Lands [] best l h = cc
      nearest-Lands (iv ∷ ivs) best l h = elim (Bool-cases (f32.lt (distance iv v) f32.infinity)) [
        | inl near ↦ rw near (nearest-keeps ivs (clamp_to iv v) (distance iv v) l.1 l.0)
        | inr far ↦ rw far (nearest-Lands ivs best l.1 (ground arith))
      ]

    -- Clamped values fall in their own intervals.
    All-Lands :
        (all : F32 → Bool) (v : F32) (ivs : List CompiledInterval)
        → ((x : F32) → in_any_interval ivs x ≡ true → all x ≡ true)
        → All IsProper ivs
        → Lands all v ivs
    unfolding in_any_interval
    All-Lands all v [] inside p = tt
    All-Lands all v (iv ∷ ivs) inside p = (
      inside (clamp_to iv v) (ground (arith, clamp_to-contains iv v p.0)),
      All-Lands all v ivs (λ x h. inside x (ground arith)) p.1,
    )

    -- For closed intervals with their ends in order: clamping gives a value of the domain if some
    -- interval is at a finite distance, and NaN if none is.
    pub clamp_to_extreme-in_any_interval :
        (dom : CompiledDomain) (v : F32)
        → All IsProper dom.intervals
        → (reaches dom.intervals v ≡ true
            → in_any_interval dom.intervals (clamp_to_extreme dom v) ≡ true)
          × (reaches dom.intervals v ≡ false → clamp_to_extreme dom v ≡ f32.nan)
    unfolding clamp_to_extreme
    clamp_to_extreme-in_any_interval dom v p = (
      nearest-Lands (in_any_interval dom.intervals) v dom.intervals f32.nan
          (All-Lands (in_any_interval dom.intervals) v dom.intervals (λ x h. h) p),
      nearest-unreached dom.intervals v f32.nan,
    )

    unreached-infinity :
        (ivs : List CompiledInterval) (v : F32)
        → All (λ iv. distance iv v ≡ f32.infinity) ivs
        → reaches ivs v ≡ false
    unreached-infinity [] v h = refl
    unreached-infinity (iv ∷ ivs) v h =
        ground (arith, h.0, irrefl f32.infinity, unreached-infinity ivs v h.1)

    -- If no float is less than itself, then a continuous feature with the policy AsExtreme makes
    -- an outlier that is infinitely far from each of its intervals NaN.
    pub infinite_outlier :
        (f : SchemaFeature) (raw : F32)
        → f.domain.domain_kind ≡ continuous
        → f.outlier_policy ≡ outlier_as_extreme
        → is_nan_safe32 raw ≡ false
        → is_outlier f raw ≡ true
        → All (λ iv. distance iv raw ≡ f32.infinity) f.domain.intervals
        → apply_schema f raw ≡ f32.nan
    unfolding apply_schema clamp_to_extreme
    infinite_outlier f raw kind policy number outlier far = ground (
      arith,
      nearest-unreached f.domain.intervals raw f32.nan
          (unreached-infinity f.domain.intervals raw far),
    )

  module _ (irrefl : (x : F32) → f32.lt x x ≡ false) where
    -- If no float is less than itself, then after the schema a number of a continuous feature with
    -- the policy AsExtreme lies in the domain, where the intervals are closed with their ends in
    -- order and one of them is at a finite distance.
    pub apply_schema-in_any_interval :
        (f : SchemaFeature) (raw : F32)
        → f.domain.domain_kind ≡ continuous
        → f.outlier_policy ≡ outlier_as_extreme
        → All IsProper f.domain.intervals
        → has_intervals f.domain.intervals ≡ true
        → is_nan_safe32 raw ≡ false
        → reaches f.domain.intervals raw ≡ true
        → in_any_interval f.domain.intervals (apply_schema f raw) ≡ true
    unfolding apply_schema
    apply_schema-in_any_interval f raw kind policy proper some_iv number near =
        ground (arith, (clamp_to_extreme-in_any_interval irrefl f.domain raw proper).0 near)
