-- ===== src/Infrastructure/Json.antt =====
-- `serde_json::Value`, as the code matches on it. A number of JSON is a value of that crate: a handle
-- stands for it, and what the crate reads from it is a parameter.
use luminair_service_aws_dsq.Base.{
  ℕ, String, Bool, false, ◌||◌, Option, none, some, ◌==◌, string_eq, if◌then◌else◌,
}
use luminair_service_aws_dsq.Base.Int.{ℤ}
use luminair_service_aws_dsq.Domain.Ids.{Decimal}

abbrev pub Number : Type 0
Number = ℕ

mutual
  pub data Json : Type 0 where
    null : Json
    boolean : Bool → Json
    number : Number → Json
    text : String → Json
    array : Items → Json
    object : Members → Json

  pub data Items : Type 0 where
    no_items : Items
    item : Json → Items → Items

  pub data Members : Type 0 where
    no_members : Members
    member : String → Json → Members → Members

-- `Number::as_u64`, `Number::as_i64`, its `to_string`, and `Decimal`'s `FromStr`.
pub record Numbers : Type 0 where
  pub as_u64 : Number → Option ℕ
  pub as_i64 : Number → Option ℤ
  pub to_string : Number → String
  pub parse_decimal : String → Option Decimal

-- `Map::insert`, `Map::get` and `Map::contains_key`
unfoldable pub insert_member : Members → String → Json → Members
insert_member no_members k v = member k v no_members
insert_member (member j w rest) k v =
    if k == j then member k v rest else member j w (insert_member rest k v)

unfoldable pub get_member : Members → String → Option Json
get_member no_members k = none
get_member (member j w rest) k = if k == j then some w else get_member rest k

abbrev pub has_member : Members → String → Bool
has_member no_members k = false
has_member (member j w rest) k = k == j || has_member rest k
