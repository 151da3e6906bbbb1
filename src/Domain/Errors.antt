-- ===== src/Domain/Errors.antt =====
-- internal/domain/errors.go, and the pair (value, error) that Go functions return.
use inventory_reservation_sy.Base.Text.{Text, codes}

-- `other` is any error value that is none of the sentinels.
pub data Error : Type 0 where
  err_out_of_stock err_reservation_not_found err_reservation_already_finalized : Error
  err_reservation_expired err_product_not_found : Error
  other : Text → Error

-- err.Error()
unfoldable pub message : Error → Text
message err_out_of_stock = codes "out of stock"
message err_reservation_not_found = codes "reservation not found"
message err_reservation_already_finalized = codes "reservation already finalized"
message err_reservation_expired = codes "reservation expired"
message err_product_not_found = codes "product not found"
message (other text) = text

-- A value, or an error beside the zero value.
pub data Result {ℓ} (A : Type ℓ) : Type ℓ where
  ok : A → Result A
  err : Error → Result A
