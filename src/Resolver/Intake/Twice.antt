-- ===== src/Resolver/Intake/Twice.antt =====
-- backend/resolver/src/services/ResolverServiceV2.ts, handleNewOrder: an order that is announced
-- again.
use fusion_plus_aptos_extens.Base.{
  String, true, false, ◌≡◌, refl, arith, List, [], ◌∷◌, ◌++◌, str_eq_refl, if◌then◌else◌,
  Bool-cases, inl, inr,
}
use fusion_plus_aptos_extens.Order.{Order}
use fusion_plus_aptos_extens.Resolver.Intake.{
  Intake, fill_part, check_profitability, begin, has, remove, routes_partial,
}

has-remove : (x : String) (xs : List String) → has x (remove x xs) ≡ false
has-remove x [] = refl
has-remove x (y ∷ xs) = (ground (arith, has-remove x xs))

has-append : (x : String) (xs : List String) → has x (xs ++ x ∷ []) ≡ true
has-append x [] = (ground (arith, str_eq_refl x))
has-append x (y ∷ xs) = (ground (arith, has-append x xs))

-- An order that was not being processed is announced twice before anything else happens. If it is to
-- be filled as a whole, only the first announcement goes on to the checks; if it is to be filled in
-- parts, the filling is started twice.
pub begin-begin :
    (order : Order) (s : Intake)
    → has order.id s.is_processing ≡ false
    → (begin order (begin order s)).actions ≡ (
        if routes_partial order
        then (s.actions ++ fill_part order ∷ []) ++ fill_part order ∷ []
        else s.actions ++ check_profitability order ∷ [])
unfolding begin
begin-begin order s idle = elim (Bool-cases (routes_partial order)) [
  | inl parts ↦
      (rw (idle, parts, begin, has-remove order.id (s.is_processing ++ order.id ∷ [])) refl)
  | inr whole ↦ (rw (idle, whole, begin, has-append order.id s.is_processing) refl)
]
