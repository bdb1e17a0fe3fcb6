-- ===== src/Tests/Schemas.antt =====
-- Examples for the schema: a feature with the domain [0, 10].
use omle_runtime.Prelude.{◌≡◌, refl, true, false, [], ◌∷◌, arith}
use omle_runtime.Prelude.Int.{pos}
use omle_runtime.Floats.{F32, is_nan_safe32}
use omle_runtime.Floats.Toy.{toy, not_a_number, infinite, finite}
use omle_runtime.Schema.{
  propagate, return_invalid, outlier_as_extreme, continuous, CompiledInterval, SchemaFeature,
  in_any_interval, contains, clamp_to, apply_schema,
}
use omle_runtime.Schema.Execute.{adjust64}
use omle_runtime.Schema.Extremes.{IsProper, apply_schema-in_any_interval, infinite_outlier}
use omle_runtime.Schema.Policies.{adjust64-kept}

abbrev zero_to_ten : CompiledInterval
zero_to_ten = record {
  left = finite (pos 0);
  right = finite (pos 10);
  left_open = false;
  right_open = false;
}

abbrev feature : SchemaFeature
feature = record {
  name = "age";
  source = "age";
  col = 0;
  missing_policy = propagate;
  missing_replacement = finite (pos 0);
  invalid_policy = return_invalid;
  invalid_replacement = finite (pos 0);
  outlier_policy = outlier_as_extreme;
  domain = record {
    domain_kind = continuous;
    intervals = zero_to_ten ∷ [];
    valid_set = [];
    invalid_set = [];
    missing_set = [];
  };
}

proper : IsProper zero_to_ten
proper = record { left_closed = refl; right_closed = refl; ordered = refl }

irrefl : (x : F32) → toy.f32.lt x x ≡ false
irrefl not_a_number = refl
irrefl (infinite true) = refl
irrefl (infinite false) = refl
irrefl (finite a) = ground arith

eq_self : (x : F32) → is_nan_safe32 x ≡ false → toy.f32.eq x x ≡ true
unfolding is_nan_safe32
eq_self not_a_number h = absurd (ground arith)
eq_self (infinite true) h = refl
eq_self (infinite false) h = refl
eq_self (finite a) h = ground arith

apply_schema-in_any_interval_example :
    in_any_interval (zero_to_ten ∷ []) (apply_schema feature (finite (pos 25))) ≡ true
unfolding is_nan_safe32 clamp_to
apply_schema-in_any_interval_example =
    apply_schema-in_any_interval irrefl feature (finite (pos 25)) refl refl (proper, tt) refl refl
      refl

infinite_outlier_example : apply_schema feature (infinite true) ≡ not_a_number
unfolding is_nan_safe32 clamp_to in_any_interval contains
infinite_outlier_example =
    infinite_outlier irrefl feature (infinite true) refl refl refl refl (refl, tt)

adjust64-kept_example : adjust64 feature (finite (pos 7)) ≡ finite (pos 7)
unfolding is_nan_safe32 in_any_interval contains
adjust64-kept_example =
    adjust64-kept feature (finite (pos 7)) eq_self
      (record { present = refl; valid = refl; inside = refl })
