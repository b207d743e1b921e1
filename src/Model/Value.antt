-- ===== src/Model/Value.antt =====
-- Go's `interface{}` as pkg/model and pkg/direktiv use it: what a JSON or YAML decoder returns. A
-- map is the list of its entries, without a key twice.
use direktiv.Base.{ℕ, Bool, String}

-- `negsuc n` is -(n + 1).
pub data ℤ : Type 0 where
  pos : ℕ → ℤ
  negsuc : ℕ → ℤ

-- `float m e` is the `float64` that the decimal literal m / 10 ^ e reads as.
mutual
  pub data Value : Type 0 where
    null : Value
    boolean : Bool → Value
    text : String → Value
    int : ℤ → Value
    float : ℤ → ℕ → Value
    array : Items → Value
    object : Fields → Value

  pub data Items : Type 0 where
    nil : Items
    cons : Value → Items → Items

  pub data Fields : Type 0 where
    end : Fields
    field : String → Value → Fields → Fields
