-- ===== src/Domain/Inventory.antt =====
-- internal/domain/inventory.go. The counters are patterns of Go's 64-bit `int`.
use inventory_reservation_sy.Base.{ℕ, []}
use inventory_reservation_sy.Base.Text.{Text}
use inventory_reservation_sy.Base.Int64.{sub_int}

pub record ProductInventory : Type 0 where
  pub product_id : Text
  pub total_stock : ℕ
  pub confirmed_count : ℕ
  pub active_reservation_count : ℕ

-- ProductInventory{}
abbrev pub zero_product : ProductInventory
zero_product = record {
  product_id = [];
  total_stock = 0;
  confirmed_count = 0;
  active_reservation_count = 0;
}

unfoldable pub available_stock : ProductInventory → ℕ
available_stock p = sub_int (sub_int p.total_stock p.confirmed_count) p.active_reservation_count
