-- ===== src/Schema/Policies.antt =====
-- What the schema leaves alone, and at which width.
use omle_runtime.Prelude.{◌≡◌, true, false, not, ◌&&◌, arith}
use omle_runtime.Floats.{Floats, F32, F64, is_nan_safe32}
use omle_runtime.Schema.{
  SchemaFeature, invalid_as_is, outlier_as_is, is_missing, is_invalid, is_outlier, handle_invalid,
  apply_schema,
}
use omle_runtime.Schema.Execute.{adjust64}

module _ ⦃fl : Floats⦄ where
  open fl use {f32, widen, narrow}

  -- The policies keep a value: it is not missing, and what is invalid or an outlier is kept as it is.
  pub record IsKept (f : SchemaFeature) (raw : F32) : Type 0 where
    pub present : is_missing f raw ≡ false
    pub valid :
        (is_invalid f raw && not (elim f.invalid_policy [ invalid_as_is ↦ true | _ ↦ false ]))
        ≡ false
    pub inside :
        (is_outlier f raw && not (elim f.outlier_policy [ outlier_as_is ↦ true | _ ↦ false ]))
        ≡ false

  pub apply_schema-kept : (f : SchemaFeature) (raw : F32) → IsKept f raw → apply_schema f raw ≡ raw
  unfolding apply_schema handle_invalid
  apply_schema-kept f raw k = ground (arith, k.present, k.valid, k.inside)

  -- If each float that is not NaN equals itself, a double whose float is not missing and is
  -- neither invalid nor an outlier, or is kept as such by its policy, comes out of the schema
  -- unchanged.
  pub adjust64-kept :
      (f : SchemaFeature) (raw : F64)
      → ((x : F32) → is_nan_safe32 x ≡ false → f32.eq x x ≡ true)
      → IsKept f (narrow raw)
      → adjust64 f raw ≡ raw
  unfolding adjust64
  adjust64-kept f raw eq_self k =
      rw (apply_schema-kept f (narrow raw) k) (ground (arith, eq_self (narrow raw), k.present))
