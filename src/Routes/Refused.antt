-- ===== src/Routes/Refused.antt =====
-- backend/order-engine/src/api/routes/orders.ts: requests that are refused.
use fusion_plus_aptos_extens.Base.{
  ℕ, String, Bool, true, false, ◌≡◌, ◌⊎◌, inl, inr, refl, Option, none, some, str_eq, Bool-cases,
}
use fusion_plus_aptos_extens.Base.Exec.{Result, ok, err}
use fusion_plus_aptos_extens.Order.{CreateOrderDto}
use fusion_plus_aptos_extens.Signature.{Ethers}
use fusion_plus_aptos_extens.OrderService.{
  Service, Error, create_order, create_fill, update_fill_status, cancel_order,
}
use fusion_plus_aptos_extens.OrderService.Atomic.{
  is_number_error, create_order-atomic, create_fill-atomic, update_fill_status-atomic,
  cancel_order-atomic,
}
use fusion_plus_aptos_extens.Routes.{
  Request, post_order, get_order_by_id, get_maker_orders, get_orders, post_cancel, post_fill,
  patch_fill, Body, Response, answer, handle, error_message, success, order_data, fill_data,
  post_parsed,
}

-- The errors of `BigInt`, which createFill may throw after it has stored the fill.
abbrev pub is_number_body : Body → Bool
is_number_body (error_message e) = is_number_error e
is_number_body _ = false

-- What is said of an answered request: it succeeded, or it changed nothing, or `BigInt` threw.
abbrev pub IsRefusalClean : Response × Service → Service → Type 0
IsRefusalClean (response, s') s =
    (response.status ≡ 200) ⊎ ((s' ≡ s) ⊎ (is_number_body response.body ≡ true))

-- A refusal by `answer` is a throw of the service.
answer-refused :
    {A : Type 0} (body : A → Body) (call : Result Error A × Service) (s : Service)
    → ((e : Error) → call.0 ≡ err e → is_number_error e ≡ false → call.1 ≡ s)
    → IsRefusalClean (answer body call) s
answer-refused body (ok a, s') s h = inl refl
answer-refused body (err e, s') s h = elim (Bool-cases (is_number_error e)) [
  | inl number ↦ inr (inr number)
  | inr own ↦ inr (inl (h e refl own))
]

-- A request that is not answered with 200 leaves the service as it was, orders, index and events,
-- unless the answer carries an error of `BigInt`, which only the making of a fill gives.
pub handle-IsRefusalClean :
    {Json : Type 0} (ethers : Ethers) (parse : Json → Option CreateOrderDto) (now : ℕ)
    (new_id : String) (request : Request Json) (s : Service)
    → IsRefusalClean (handle ethers parse now new_id request s) s
unfolding handle
handle-IsRefusalClean ethers parse now new_id (post_order json) s = go (parse json)
  where
    go : (dto : Option CreateOrderDto) → IsRefusalClean (post_parsed ethers now new_id dto s) s
    go none = inr (inl refl)
    go (some dto) =
        answer-refused order_data (create_order ethers now new_id dto s) s
          λ e h _. create_order-atomic ethers now new_id dto s e h
handle-IsRefusalClean ethers parse now new_id (get_order_by_id id) s = inr (inl refl)
handle-IsRefusalClean ethers parse now new_id (get_maker_orders maker) s = inl refl
handle-IsRefusalClean ethers parse now new_id get_orders s = inl refl
handle-IsRefusalClean ethers parse now new_id (post_cancel id none) s = inr (inl refl)
handle-IsRefusalClean ethers parse now new_id (post_cancel id (some maker)) s =
    elim (Bool-cases (str_eq maker "")) [
      | inl empty ↦ rw empty (inr (inl refl))
      | inr given ↦ rw given (
          answer-refused (λ _. success) (cancel_order now id maker s) s
            λ e. cancel_order-atomic ethers now id s e maker)
    ]
handle-IsRefusalClean ethers parse now new_id (post_fill id fill) s =
    answer-refused fill_data (create_fill now new_id id fill s) s
      λ e. create_fill-atomic ethers now id s e new_id fill
handle-IsRefusalClean ethers parse now new_id (patch_fill id fill_id status sh dh) s =
    answer-refused (λ _. success) (update_fill_status now id fill_id status sh dh s) s
      λ e. update_fill_status-atomic ethers now id s e fill_id status sh dh
