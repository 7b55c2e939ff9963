-- ===== src/Shop/Webhook.antt =====
-- internal/shop/webhook.go: the payload of a shop webhook, its normal form and its checks.
use order_sync.Base.{
  ℕ, suc, String, Bool, true, false, not, Option, none, some, List, [], ◌∷◌, ◌++◌, map, text_eq,
  is_empty, trim_space, if◌then◌else◌,
}
use order_sync.Base.Int.{pos, leb_ℤ}
use order_sync.Contracts.{OrderItem, PathPart, ValidationIssue, price_negative}

pub record Webhook : Type 0 where
  pub event_id : String
  pub order_id : String
  pub customer_email : String
  pub items : List OrderItem

abbrev pub normalize_item : OrderItem → OrderItem
normalize_item item = record item { sku = trim_space item.sku }

-- NormalizeShopWebhook.
unfoldable pub normalize : Webhook → Webhook
normalize p = record {
  event_id = trim_space p.event_id;
  order_id = trim_space p.order_id;
  customer_email = trim_space p.customer_email;
  items = map normalize_item p.items;
}

abbrev issue_path : List PathPart → String → ValidationIssue
issue_path path message = record { code = "invalid_value"; path = path; message = message }

abbrev when : Bool → ValidationIssue → List ValidationIssue
when true i = i ∷ []
when false i = []

abbrev field_issue : String → String → ValidationIssue
field_issue field message = issue_path (PathPart.key field ∷ []) message

abbrev item_issue : ℕ → String → String → ValidationIssue
item_issue i field message =
    issue_path (PathPart.key "items" ∷ PathPart.index i ∷ PathPart.key field ∷ []) message

-- The body of the loop over the items.
abbrev check_item : ℕ → OrderItem → List ValidationIssue
check_item i item =
    when (is_empty item.sku) (item_issue i "sku" "Required")
    ++ (when (leb_ℤ item.quantity (pos 0)) (item_issue i "quantity" "Must be a positive integer")
        ++ when (price_negative item.price) (item_issue i "price" "Must be non-negative"))

unfoldable pub check_items : ℕ → List OrderItem → List ValidationIssue
check_items i [] = []
check_items i (item ∷ items) = check_item i item ++ check_items (suc i) items

abbrev is_address : String → Option String → Bool
is_address email none = false
is_address email (some address) = text_eq address email

-- The checks of the address, for net/mail's ParseAddress with the `Address` that it gives.
abbrev check_email : (String → Option String) → String → List ValidationIssue
check_email parse email =
    if is_empty email
    then field_issue "customer_email" "Required" ∷ []
    else when (not (is_address email (parse email)))
        (field_issue "customer_email" "Invalid email address")

abbrev has_none : List OrderItem → Bool
has_none [] = true
has_none (_ ∷ _) = false

-- ValidateShopWebhook.
unfoldable pub validate : (String → Option String) → Webhook → List ValidationIssue
unfolding check_items
validate parse p =
    when (is_empty p.event_id) (field_issue "event_id" "Required")
    ++ (when (is_empty p.order_id) (field_issue "order_id" "Required")
        ++ (check_email parse p.customer_email
            ++ (when (has_none p.items) (field_issue "items" "At least one item is required")
                ++ check_items 0 p.items)))
