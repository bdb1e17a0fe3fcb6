-- ===== src/Schema.antt =====
-- src/model_schema.h, src/model_schema.cpp: the preprocessing of the features before the graph.
pub mod Execute
pub mod Policies
pub mod Extremes
use omle_runtime.Prelude.{
  ℕ, ◌≡◌, Bool, true, false, not, ◌&&◌, ◌||◌, List, [], ◌∷◌, String, if◌then◌else◌,
}
use omle_runtime.Prelude.Int.{pos}
use omle_runtime.Floats.{Floats, F32, F64, is_nan_safe32, abs, nextafter}

-- MissingPolicy
pub data MissingPolicy : Type 0 where
  propagate missing_as_value missing_as_invalid : MissingPolicy

-- InvalidPolicy
pub data InvalidPolicy : Type 0 where
  return_invalid invalid_as_is invalid_as_missing invalid_as_value : InvalidPolicy

-- OutlierPolicy
pub data OutlierPolicy : Type 0 where
  outlier_as_is outlier_as_missing outlier_as_extreme : OutlierPolicy

-- CompiledDomain::Kind
pub data DomainKind : Type 0 where
  no_domain continuous discrete : DomainKind

module _ ⦃fl : Floats⦄ where
  open fl use {f32}

  -- CompiledInterval
  pub record CompiledInterval : Type 0 where
    pub left : F32
    pub right : F32
    pub left_open : Bool
    pub right_open : Bool

  -- CompiledInterval::contains
  unfoldable pub contains : CompiledInterval → F32 → Bool
  contains iv v =
      if (if iv.left_open then f32.le v iv.left else f32.lt v iv.left)
      then false
      else if (if iv.right_open then f32.le iv.right v else f32.lt iv.right v)
      then false
      else true

  -- lo and hi of CompiledInterval::clamp_to
  abbrev pub lower_end : CompiledInterval → F32
  lower_end iv = if iv.left_open then f32.math2 nextafter iv.left f32.infinity else iv.left

  abbrev pub upper_end : CompiledInterval → F32
  upper_end iv =
      if iv.right_open then f32.math2 nextafter iv.right (f32.neg f32.infinity) else iv.right

  -- CompiledInterval::clamp_to
  unfoldable pub clamp_to : CompiledInterval → F32 → F32
  clamp_to iv v =
      let lo = lower_end iv in
      let hi = upper_end iv in
      if f32.lt hi lo
      then f32.mul (f32.add lo hi) (f32.literal (pos 5) 1)
      else if f32.lt v lo
      then lo
      else if f32.lt hi v
      then hi
      else v

  -- CompiledDomain; an unordered_set<float> as the list of its values
  pub record CompiledDomain : Type 0 where
    pub domain_kind : DomainKind
    pub intervals : List CompiledInterval
    pub valid_set : List F32
    pub invalid_set : List F32
    pub missing_set : List F32

  -- SchemaFeature
  pub record SchemaFeature : Type 0 where
    pub name : String
    pub source : String
    pub col : ℕ
    pub missing_policy : MissingPolicy
    pub missing_replacement : F32
    pub invalid_policy : InvalidPolicy
    pub invalid_replacement : F32
    pub outlier_policy : OutlierPolicy
    pub domain : CompiledDomain

  -- set.count(v) > 0
  unfoldable pub holds_value : List F32 → F32 → Bool
  holds_value [] v = false
  holds_value (x ∷ xs) v = f32.eq x v || holds_value xs v

  abbrev is_empty : List F32 → Bool
  is_empty [] = true
  is_empty (x ∷ xs) = false

  abbrev pub has_intervals : List CompiledInterval → Bool
  has_intervals [] = false
  has_intervals (iv ∷ ivs) = true

  -- in_any_interval
  unfoldable pub in_any_interval : List CompiledInterval → F32 → Bool
  in_any_interval [] v = false
  in_any_interval (iv ∷ ivs) v = contains iv v || in_any_interval ivs v

  -- The loop of clamp_to_extreme, from `best` at the distance `best_dist`.
  unfoldable pub nearest : List CompiledInterval → F32 → F32 → F32 → F32
  nearest [] v best best_dist = best
  nearest (iv ∷ ivs) v best best_dist =
      let c = clamp_to iv v in
      let d = f32.math1 abs (f32.sub c v) in
      let closer = f32.lt d best_dist in
      nearest ivs v (if closer then c else best) (if closer then d else best_dist)

  -- clamp_to_extreme
  unfoldable pub clamp_to_extreme : CompiledDomain → F32 → F32
  clamp_to_extreme dom v = nearest dom.intervals v f32.nan f32.infinity

  invalid_value : InvalidPolicy → F32 → F32 → F32
  invalid_value invalid_as_is replacement raw = raw
  invalid_value invalid_as_value replacement raw = replacement
  invalid_value return_invalid replacement raw = f32.nan
  invalid_value invalid_as_missing replacement raw = f32.nan

  -- handle_invalid
  unfoldable pub handle_invalid : SchemaFeature → F32 → F32
  unfolding invalid_value
  handle_invalid f raw = invalid_value f.invalid_policy f.invalid_replacement raw

  missing_value : MissingPolicy → SchemaFeature → F32 → F32
  missing_value propagate f raw = f32.nan
  missing_value missing_as_value f raw = f.missing_replacement
  missing_value missing_as_invalid f raw = handle_invalid f raw

  outlier_value : OutlierPolicy → CompiledDomain → F32 → F32
  outlier_value outlier_as_is dom raw = raw
  outlier_value outlier_as_missing dom raw = f32.nan
  outlier_value outlier_as_extreme dom raw = clamp_to_extreme dom raw

  abbrev pub is_discrete : DomainKind → Bool
  is_discrete discrete = true
  is_discrete _ = false

  abbrev pub is_continuous : DomainKind → Bool
  is_continuous continuous = true
  is_continuous _ = false

  -- the test of step 1
  abbrev pub is_missing : SchemaFeature → F32 → Bool
  is_missing f raw =
      is_nan_safe32 raw
      || (is_discrete f.domain.domain_kind && holds_value f.domain.missing_set raw)

  -- the test of step 2
  abbrev pub is_invalid : SchemaFeature → F32 → Bool
  is_invalid f raw =
      is_discrete f.domain.domain_kind
      && (holds_value f.domain.invalid_set raw
          || not (is_empty f.domain.valid_set || holds_value f.domain.valid_set raw))

  -- the test of step 3
  abbrev pub is_outlier : SchemaFeature → F32 → Bool
  is_outlier f raw =
      is_continuous f.domain.domain_kind
      && (has_intervals f.domain.intervals && not (in_any_interval f.domain.intervals raw))

  -- apply_schema
  unfoldable pub apply_schema : SchemaFeature → F32 → F32
  unfolding missing_value outlier_value
  apply_schema f raw =
      if is_missing f raw
      then missing_value f.missing_policy f raw
      else if is_invalid f raw
      then handle_invalid f raw
      else if is_outlier f raw
      then outlier_value f.outlier_policy f.domain raw
      else raw
