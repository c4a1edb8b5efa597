-- ===== src/Signature/Tests.antt =====
-- The check of the signatures of concrete orders.
use fusion_plus_aptos_extens.Base.{◌≡◌, ◌↔◌, true, none, some}
use fusion_plus_aptos_extens.Order.{CreateOrderDto}
use fusion_plus_aptos_extens.Order.Samples.{swap_dto}
use fusion_plus_aptos_extens.Signature.{Ethers, validate_order_signature}
use fusion_plus_aptos_extens.Signature.Check.{Accepted, validate_order_signature-Accepted}

-- Recovers the maker of the value itself.
abbrev maker_signs : Ethers
maker_signs = record { hash_permit = λ _. none; verify_typed_data = λ value _. some value.maker }

abbrev signed_dto : CreateOrderDto
signed_dto = record swap_dto { signature = "0x51" }

validate_order_signature-Accepted_example :
    (validate_order_signature maker_signs signed_dto ≡ true) ↔ Accepted maker_signs signed_dto
validate_order_signature-Accepted_example = validate_order_signature-Accepted maker_signs signed_dto
