-- ===== src/Json.antt =====
-- The JSON values that Python reads: those of the JSONB columns (`Extraction.payload`) and of model
-- answers. An object is a `dict`, in its order.
use evidencedesk.Prelude.{ℕ, Text, Bool, Option, none, some, if◌then◌else◌}
use evidencedesk.Python.Strings.{same}

-- `int`: `pos n` is n, `negsuc n` is -(n + 1).
pub data ℤ : Type 0 where
  pos : ℕ → ℤ
  negsuc : ℕ → ℤ

-- A `float` is the number of its 64 bits.
mutual
  pub data Json : Type 0 where
    null : Json
    boolean : Bool → Json
    integer : ℤ → Json
    real : ℕ → Json
    text : Text → Json
    array : Items → Json
    object : Fields → Json

  pub data Items : Type 0 where
    nil : Items
    cons : Json → Items → Items

  pub data Fields : Type 0 where
    end : Fields
    field : Text → Json → Fields → Fields

-- `value.get(key)`, where a missing key is told from a `None`
unfoldable pub get : Text → Fields → Option Json
unfolding same
get key end = none
get key (field other v rest) = let later = get key rest in if same key other then some v else later
