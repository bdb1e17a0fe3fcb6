-- ===== src/Tensor.antt =====
-- include/omle/tensor.h: the data of a tensor and the reading of its elements.
pub mod Csr
pub mod Search
pub mod Build
pub mod Convert
pub mod Compress
use omle_runtime.Prelude.{
  ℕ, zero, suc, ◌+◌, ◌-◌, ◌*◌, ◌/◌, ◌≡◌, refl, Bool, true, false, not, Option, none, some, List, [],
  ◌∷◌, String, length, get_elem?, ltb, ◌==◌, if◌then◌else◌,
}
use omle_runtime.Prelude.Int.{ℤ, pos, negsuc, eqb_ℤ}
use omle_runtime.Floats.{Floats, F32, F64}
use omle_runtime.Status.{Result, ok, undefined, defined, ◌>>=◌}

-- DataType
pub data DataType : Type 0 where
  unknown bool int8 int16 int32 int64 uint8 uint16 uint32 uint64 float16 float32 float64 str bytes
        date time timestamp :
      DataType

-- The values of the enumeration.
unfoldable pub dtype_number : DataType → ℕ
dtype_number unknown = 0
dtype_number bool = 1
dtype_number int8 = 2
dtype_number int16 = 3
dtype_number int32 = 4
dtype_number int64 = 5
dtype_number uint8 = 6
dtype_number uint16 = 7
dtype_number uint32 = 8
dtype_number uint64 = 9
dtype_number float16 = 10
dtype_number float32 = 11
dtype_number float64 = 12
dtype_number str = 13
dtype_number bytes = 14
dtype_number date = 15
dtype_number time = 16
dtype_number timestamp = 17

-- a == b on data types
unfoldable pub same_dtype : DataType → DataType → Bool
unfolding dtype_number
same_dtype a b = dtype_number a == dtype_number b

-- dtype_size
unfoldable pub dtype_size : DataType → ℕ
dtype_size int16 = 2
dtype_size uint16 = 2
dtype_size float16 = 2
dtype_size int32 = 4
dtype_size uint32 = 4
dtype_size float32 = 4
dtype_size int64 = 8
dtype_size uint64 = 8
dtype_size float64 = 8
dtype_size _ = 1

-- How the switches over a data type treat it: `as_other` is their `default`.
pub data Storage : Type 0 where
  as_float as_double as_bool as_int as_other : Storage

unfoldable pub storage_of : DataType → Storage
storage_of float32 = as_float
storage_of float64 = as_double
storage_of bool = as_bool
storage_of int8 = as_int
storage_of int16 = as_int
storage_of int32 = as_int
storage_of int64 = as_int
storage_of uint8 = as_int
storage_of uint16 = as_int
storage_of uint32 = as_int
storage_of uint64 = as_int
storage_of _ = as_other

-- Tensor::Kind
pub data Kind : Type 0 where
  dense sparse scalar : Kind

module _ ⦃fl : Floats⦄ where
  open fl use {f32, f64, widen}

  -- The bytes of one element, known by the type at which they were written. `blank` is zero bytes,
  -- which are 0 at every type. The model has no value for bytes read at another type.
  pub data Cell : Type 0 where
    blank : Cell
    float_cell : F32 → Cell
    double_cell : F64 → Cell
    int_cell : DataType → ℤ → Cell

  -- Tensor::SparseStore
  pub record SparseStore : Type 0 where
    pub sp_values : List Cell
    pub sp_indices : List ℕ
    pub sp_indptr : List ℕ
    pub sp_default : F64

  -- Tensor, with the fields of its Extras; `view_ptr` holds the elements of the external buffer.
  pub record Tensor : Type 0 where
    pub dtype : DataType
    pub n_rows : ℕ
    pub n_cols : ℕ
    pub kind : Kind
    pub dense_data : List Cell
    pub scalar_buf : Cell
    pub view_ptr : Option (List Cell)
    pub str_data : List String
    pub sparse_store : Option SparseStore

  unfoldable pub is_sparse : Tensor → Bool
  is_sparse t = elim t.kind [ sparse ↦ true | _ ↦ false ]

  unfoldable pub is_dense : Tensor → Bool
  unfolding is_sparse
  is_dense t = not (is_sparse t)

  unfoldable pub is_string : Tensor → Bool
  unfolding same_dtype
  is_string t = same_dtype t.dtype str

  unfoldable pub is_view : Tensor → Bool
  is_view t = elim t.view_ptr [ none ↦ false | some b ↦ true ]

  unfoldable pub numel : Tensor → ℕ
  numel t = t.n_rows * t.n_cols

  -- _raw_bytes
  unfoldable pub raw_bytes : Tensor → List Cell
  raw_bytes t = elim t.view_ptr [ none ↦ t.dense_data | some b ↦ b ]

  -- One element read as a float: the cell of a buffer that a `const float*` points at.
  unfoldable pub read_f32 : Cell → Result F32
  read_f32 blank = ok (f32.literal (pos 0) 0)
  read_f32 (float_cell x) = ok x
  read_f32 _ = undefined

  -- One element read as a double.
  unfoldable pub read_f64 : Cell → Result F64
  read_f64 blank = ok (f64.literal (pos 0) 0)
  read_f64 (double_cell x) = ok x
  read_f64 _ = undefined

  -- One element read as an integer of type `dt`.
  unfoldable pub read_int : DataType → Cell → Result ℤ
  unfolding same_dtype
  read_int dt blank = ok (pos 0)
  read_int dt (int_cell d z) = if same_dtype dt d then ok z else undefined
  read_int dt _ = undefined

  -- *ep ? 1.0 : 0.0
  unfoldable pub truth : ℤ → F64
  truth z = if eqb_ℤ z (pos 0) then f64.literal (pos 0) 0 else f64.literal (pos 1) 0

  read_as : Storage → DataType → Cell → Result F64
  unfolding read_f32 read_f64 read_int truth
  read_as as_float dt c = read_f32 c >>= λ x. ok (widen x)
  read_as as_double dt c = read_f64 c
  read_as as_int dt c = read_int dt c >>= λ z. ok (f64.of_int z)
  read_as as_bool dt c = read_int dt c >>= λ z. ok (truth z)
  read_as as_other dt c = ok (f64.literal (pos 0) 0)

  read_at : Storage → DataType → List Cell → ℕ → Result F64
  unfolding read_as
  read_at as_other dt buf i = ok (f64.literal (pos 0) 0)
  read_at s dt buf i = defined (get_elem? buf i) >>= read_as s dt

  -- _read_elem; its `default` does not touch the buffer
  unfoldable pub read_elem : DataType → List Cell → ℕ → Result F64
  unfolding storage_of read_at
  read_elem dt buf i = read_at (storage_of dt) dt buf i

  -- The elements that f32_ptr and f64_ptr point at.
  unfoldable pub elements : Tensor → List Cell
  unfolding raw_bytes
  elements t = elim t.kind [ scalar ↦ t.scalar_buf ∷ [] | _ ↦ raw_bytes t ]

  -- at, f32_ptr()[i]
  unfoldable pub at : Tensor → ℕ → ℕ → Result F32
  unfolding elements read_f32
  at t r c = defined (get_elem? (elements t) (r * t.n_cols + c)) >>= read_f32

  -- f64_at
  unfoldable pub f64_at : Tensor → ℕ → ℕ → Result F64
  unfolding elements read_f64
  f64_at t r c = defined (get_elem? (elements t) (r * t.n_cols + c)) >>= read_f64

  -- str_at (const)
  unfoldable pub str_at : Tensor → ℕ → ℕ → Result String
  str_at t r c = defined (get_elem? t.str_data (r * t.n_cols + c))

  -- The loop of `get` over the row's indices: a binary search in [lo, hi).
  unfoldable pub find_index : ℕ → List ℕ → ℕ → ℕ → ℕ → Result (Option ℕ)
  find_index zero indices c lo hi = ok none
  find_index (suc fuel) indices c lo hi =
      let mid = lo + (hi - lo) / 2 in
      let above = find_index fuel indices c (mid + 1) hi in
      let below = find_index fuel indices c lo mid in
      let step = λ (j : ℕ). if j == c then ok (some mid) else if ltb j c then above else below in
      let search_on = defined (get_elem? indices mid) >>= step in
      if ltb lo hi then search_on else ok none

  abbrev pub read_found : DataType → SparseStore → Option ℕ → Result F64
  read_found dt sp none = ok sp.sp_default
  read_found dt sp (some k) = read_elem dt sp.sp_values k

  -- The sparse branch of `get`; one round more than the row has entries is fuel enough.
  unfoldable pub get_sparse : Tensor → SparseStore → ℕ → ℕ → Result F64
  unfolding find_index read_elem
  get_sparse t sp r c = do
    lo ← defined (get_elem? sp.sp_indptr r)
    hi ← defined (get_elem? sp.sp_indptr (r + 1))
    found ← find_index (suc (hi - lo)) sp.sp_indices c lo hi
    read_found t.dtype sp found

  -- get
  unfoldable pub get : Tensor → ℕ → ℕ → Result F64
  unfolding raw_bytes read_elem get_sparse
  get t r c = elim t.kind [
    | scalar ↦ read_elem t.dtype (t.scalar_buf ∷ []) 0
    | sparse ↦ defined t.sparse_store >>= λ sp. get_sparse t sp r c
    | dense ↦ read_elem t.dtype (raw_bytes t) (r * t.n_cols + c)
  ]
