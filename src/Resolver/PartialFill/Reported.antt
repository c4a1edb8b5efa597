-- ===== src/Resolver/PartialFill/Reported.antt =====
-- backend/resolver/src/services/ResolverServiceV2.ts, handleAPTEscrowCreated: what follows the user's
-- escrow on Aptos. Escrow identifiers given as bytes become the text of their hexadecimal digits, as
-- character codes.
use fusion_plus_aptos_extens.Base.{
  ℕ, ◌+◌, ◌/◌, ◌%◌, String, Bool, true, false, not, ◌&&◌, Option, none, some, List, [], ◌∷◌, ◌++◌,
  ltb, str_eq, if◌then◌else◌,
}
use fusion_plus_aptos_extens.Base.Dict.{Dict, lookup, insert}
use fusion_plus_aptos_extens.Base.Truthy.{truthy}
use fusion_plus_aptos_extens.Signature.{codes}
use fusion_plus_aptos_extens.Order.{Order}
use fusion_plus_aptos_extens.Resolver.PartialFill.{PartialFill, State, act, secret_request}

-- The data of the Aptos escrow's event. An escrow's id is a list of bytes or a text.
pub data EscrowId : Type 0 where
  bytes : List ℕ → EscrowId
  text : String → EscrowId

pub record AptEscrow : Type 0 where
  pub order_id : String
  pub escrow_id : EscrowId
  pub secret_hash : Option String

abbrev pub hex_digit : ℕ → ℕ
hex_digit n = if ltb n 10 then 48 + n else 87 + n

-- `b.toString(16).padStart(2, '0')` of a byte, joined.
unfoldable pub hex_bytes : List ℕ → List ℕ
hex_bytes [] = []
hex_bytes (b ∷ bs) = hex_digit (b / 16) ∷ hex_digit (b % 16) ∷ hex_bytes bs

unfoldable pub escrow_id_hex : EscrowId → List ℕ
escrow_id_hex (bytes bs) = codes "0x" ++ hex_bytes bs
escrow_id_hex (text id) = codes id

-- `fill.secretHash !== secretHash`, where a hash was given.
abbrev pub hash_differs : Option String → Option String → Bool
hash_differs none held = false
hash_differs (some hash) none = true
hash_differs (some hash) (some held) = not (str_eq held hash)

abbrev pub matches : AptEscrow → PartialFill → Bool
matches event fill =
    str_eq fill.order_id event.order_id
    && not (hash_differs (truthy event.secret_hash) fill.secret_hash)

-- The loop over the monitored fills: the first one that matches, with its escrow's id.
unfoldable pub find_fill : AptEscrow → Dict PartialFill → Option (String × PartialFill)
find_fill event [] = none
find_fill event ((id, fill) ∷ fills) =
    let rest = find_fill event fills in if matches event fill then some (id, fill) else rest

-- `!destinationEscrowId` also holds of the empty text.
abbrev pub request_secret : AptEscrow → String → PartialFill → Option Order → State → State
request_secret event id fill none s = s
request_secret event id fill (some order) s =
    if str_eq id ""
    then s
    else act (secret_request order.id ∷ []) (record s {
      pending_secret_reveals =
          insert order.id
            (record {
              order = order;
              fill = fill;
              source_escrow_id = escrow_id_hex event.escrow_id;
              destination_escrow_id = id;
            })
            s.pending_secret_reveals;
    })

unfoldable pub handle_apt_escrow_created : AptEscrow → State → State
handle_apt_escrow_created event s = elim (find_fill event s.monitoring_fills) [
  | none ↦ s
  | some (id, fill) ↦ request_secret event id fill (lookup event.order_id s.active_orders) s
]
