-- ===== src/Routes.antt =====
-- backend/order-engine/src/api/routes/orders.ts: the HTTP routes of the order service. A request is
-- answered with a status code and a body. zod is not modelled: `parse` stands for
-- CreateOrderSchema.parse, which gives the order or throws a ZodError. The bodies of the fill routes
-- are not validated in the source. `now` and `new_id` are as in OrderService.
-- No error that the service throws lacks a message, so the branches with code 500 are never taken.
pub mod Refused
pub mod ReadBack
mod Tests
use fusion_plus_aptos_extens.Base.{ℕ, String, Option, none, some, List, str_eq, if◌then◌else◌}
use fusion_plus_aptos_extens.Base.Exec.{Result, ok, err}
use fusion_plus_aptos_extens.Order.{CreateOrderDto, FillStatus, FillData, Fill, Order}
use fusion_plus_aptos_extens.Signature.{Ethers}
use fusion_plus_aptos_extens.OrderService.{
  Service, Error, create_order, get_order, get_orders_by_maker, get_active_orders, cancel_order,
  create_fill, update_fill_status,
}

pub data Request (Json : Type 0) : Type 0 where
  post_order : Json → Request Json
  get_order_by_id get_maker_orders : String → Request Json
  get_orders : Request Json
  post_cancel : String → Option String → Request Json
  post_fill : String → FillData → Request Json
  patch_fill : String → String → FillStatus → Option String → Option String → Request Json

pub data Body : Type 0 where
  order_data : Order → Body
  orders_data : List Order → Body
  fill_data : Fill → Body
  success : Body
  validation_error order_not_found_error maker_required : Body
  error_message : Error → Body

pub record Response : Type 0 where
  pub status : ℕ
  pub body : Body

abbrev pub reply : ℕ → Body → Response
reply status body = record { status = status; body = body }

-- `res.json({ success: true, … })`, or the `catch` block.
abbrev pub answer : {A : Type 0} → (A → Body) → Result Error A × Service → Response × Service
answer body (ok a, s) = (reply 200 (body a), s)
answer body (err e, s) = (reply 400 (error_message e), s)

abbrev pub post_parsed : Ethers → ℕ → String → Option CreateOrderDto → Service → Response × Service
post_parsed ethers now new_id none s = (reply 400 validation_error, s)
post_parsed ethers now new_id (some dto) s =
    answer order_data (create_order ethers now new_id dto s)

abbrev pub found : Option Order → Response
found none = reply 404 order_not_found_error
found (some order) = reply 200 (order_data order)

abbrev pub cancel_as : ℕ → String → Option String → Service → Response × Service
cancel_as now id none s = (reply 400 maker_required, s)
cancel_as now id (some maker) s =
    if str_eq maker ""
    then (reply 400 maker_required, s)
    else answer (λ _. success) (cancel_order now id maker s)

unfoldable pub handle :
    {Json : Type 0}
    → Ethers
    → (Json → Option CreateOrderDto)
    → ℕ
    → String
    → Request Json
    → Service
    → Response × Service
handle ethers parse now new_id (post_order json) s = post_parsed ethers now new_id (parse json) s
handle ethers parse now new_id (get_order_by_id id) s = (found (get_order id s), s)
handle ethers parse now new_id (get_maker_orders maker) s =
    (reply 200 (orders_data (get_orders_by_maker maker s)), s)
handle ethers parse now new_id get_orders s = (reply 200 (orders_data (get_active_orders s)), s)
handle ethers parse now new_id (post_cancel id maker) s = cancel_as now id maker s
handle ethers parse now new_id (post_fill id fill) s =
    answer fill_data (create_fill now new_id id fill s)
handle ethers parse now new_id (patch_fill id fill_id status source_hash dest_hash) s =
    answer (λ _. success) (update_fill_status now id fill_id status source_hash dest_hash s)
